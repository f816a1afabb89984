-- ===== src/Crypto.antt =====
-- protofish4-proto/src/crypto.rs, but for the replay window (Replay). The cipher is
-- ChaCha20-Poly1305 of another crate: its operations are the parameter `AeadApi`.
pub mod Nonce
pub mod Replay
pub mod Sealing
use protofish4_rs.Base.{
  ℕ, List, [], ◌∷◌, ◌++◌, Option, ok, err, ok_or, ◌>>=◌, not, ◌==◌, if◌then◌else◌, length, Bool,
  true, false,
}
use protofish4_rs.Types.{Direction, send, recv, SeqClass, direction_to_u8, seq_class_to_u8, UuidApi}
use protofish4_rs.Types.Bytes.{to_be_bytes}
use protofish4_rs.Failure.{bad_key_length, decrypt_failed, wrong_direction, Fallible}
use protofish4_rs.Frame.{kind_seq_class, kind_direction, kind_name}
use protofish4_rs.Header.{Header, parse, to_bytes, peek_request_id}

-- `encrypt` and `decrypt` take the key, the nonce, the message and the associated data.
pub record AeadApi (Key : Type 0) : Type 0 where
  pub new : List ℕ → Key
  pub encrypt : Key → List ℕ → List ℕ → List ℕ → Option (List ℕ)
  pub decrypt : Key → List ℕ → List ℕ → List ℕ → Option (List ℕ)

abbrev pub key_len : ℕ
key_len = 32

unfoldable pub nonce_for : Direction → SeqClass → ℕ → List ℕ
nonce_for dir class counter =
    direction_to_u8 dir ∷ seq_class_to_u8 class ∷ 0 ∷ 0 ∷ to_be_bytes 8 counter

-- `dir != other` on the enum.
abbrev pub same_direction : Direction → Direction → Bool
same_direction send send = true
same_direction recv recv = true
same_direction _ _ = false

module _ {Uuid Key : Type 0} (uuid : UuidApi Uuid) (aead : AeadApi Key) where
  -- `SessionKey::from_bytes`.
  unfoldable pub key_from_bytes : List ℕ → Fallible Uuid Key
  key_from_bytes key =
      if not (length key == key_len) then err (bad_key_length (length key)) else ok (aead.new key)

  -- `SessionKey::seal`, which the function `seal` calls.
  unfoldable pub seal : Key → Header Uuid → Direction → List ℕ → Fallible Uuid (List ℕ)
  seal key header dir plaintext = do
    let aad = to_bytes uuid header
    let nonce = nonce_for dir (kind_seq_class header.kind) header.seq
    sealed ← ok_or (aead.encrypt key nonce plaintext aad) (decrypt_failed header.request_id)
    ok (aad ++ sealed)

  -- `SessionKey::open`.
  unfoldable pub open_sealed : Key → Header Uuid → Direction → List ℕ → Fallible Uuid (List ℕ)
  open_sealed key header dir sealed =
      let aad = to_bytes uuid header in
      let nonce = nonce_for dir (kind_seq_class header.kind) header.seq in
      ok_or (aead.decrypt key nonce sealed aad) (decrypt_failed header.request_id)

  -- The function `open`.
  unfoldable pub open_datagram : Key → List ℕ → Direction → Fallible Uuid (Header Uuid × List ℕ)
  open_datagram key datagram dir = do
    (header, sealed) ← parse uuid datagram
    if not (same_direction (kind_direction header.kind) dir)
        then err (wrong_direction (kind_name header.kind))
        else do plaintext ← open_sealed key header dir sealed; ok (header, plaintext)

  unfoldable pub request_id_of : List ℕ → Fallible Uuid Uuid
  request_id_of datagram = peek_request_id uuid datagram
