-- ===== src/Crypto/Nonce.antt =====
-- The nonces of `nonce_for` (protofish4-proto/src/crypto.rs).
use protofish4_rs.Base.{ℕ, ◌<◌, ◌≡◌, arith, length, refl}
use protofish4_rs.Types.{Direction, SeqClass, u32_mod}
use protofish4_rs.Types.Bytes.{from_be_bytes_eight}
use protofish4_rs.Crypto.{nonce_for}

-- Two packets with 32-bit counters and the same nonce have the same direction, class and counter.
pub nonce_for_inj :
    (d e : Direction) (c k : SeqClass) (m n : ℕ)
    → m < u32_mod
    → n < u32_mod
    → nonce_for d c m ≡ nonce_for e k n
    → (d ≡ e) × (c ≡ k) × (m ≡ n)
unfolding nonce_for
nonce_for_inj d e c k m n hm hn p = ground (arith, from_be_bytes_eight m, from_be_bytes_eight n)

pub nonce_for-length : (d : Direction) (c : SeqClass) (m : ℕ) → length (nonce_for d c m) ≡ 12
unfolding nonce_for
nonce_for-length d c m = refl
