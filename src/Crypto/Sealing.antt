-- ===== src/Crypto/Sealing.antt =====
-- `seal` and `open` of protofish4-proto/src/crypto.rs, one after another.
use protofish4_rs.Base.{
  ℕ, ◌<◌, ◌≡◌, List, arith, ok, err, some, length, take, drop, take_left, drop_left, Result-cases,
  inl, inr, Option-cases,
}
use protofish4_rs.Types.{Direction, peer, UuidApi, u32_mod, request_id_len}
use protofish4_rs.Types.Bytes.{IsBytes}
use protofish4_rs.Failure.{wrong_direction}
use protofish4_rs.Frame.{kind_direction, kind_seq_class, kind_name}
use protofish4_rs.Header.{Header, header_len, parse, to_bytes}
use protofish4_rs.Header.RoundTrip.{
  IsRequestId, parse-to_bytes, to_bytes-parse, peek_request_id-to_bytes, length-to_bytes,
}
use protofish4_rs.Crypto.{AeadApi, nonce_for, seal, open_sealed, open_datagram, request_id_of}

module _ {Uuid Key : Type 0} (uuid : UuidApi Uuid) (aead : AeadApi Key) where
  -- The documented contract of the cipher: decryption under the same key, nonce and associated
  -- data gives the message back.
  abbrev pub Decrypts : Type 0
  Decrypts =
      (key : Key) (nonce msg aad c : List ℕ)
      → aead.encrypt key nonce msg aad ≡ some c
      → aead.decrypt key nonce c aad ≡ some msg

  -- When the cipher decrypts what it encrypted: a datagram that was sealed in the direction of its
  -- kind, under an id of sixteen bytes and a 32-bit number, opens to its header and plaintext under
  -- the same key; it is refused in the other direction; and the relay reads its id without the key.
  pub open-seal :
      (key : Key) (h : Header Uuid) (dir : Direction) (plaintext datagram : List ℕ)
      → Decrypts
      → IsRequestId uuid h.request_id
      → h.seq < u32_mod
      → kind_direction h.kind ≡ dir
      → seal uuid aead key h dir plaintext ≡ ok datagram
      → (open_datagram uuid aead key datagram dir ≡ ok (h, plaintext))
        × (open_datagram uuid aead key datagram (peer dir)
            ≡ err (wrong_direction (kind_name h.kind)))
        × (request_id_of uuid aead datagram ≡ ok h.request_id)
  unfolding seal open_datagram open_sealed request_id_of
  open-seal key h dir plaintext datagram decrypts id fits is_dir e =
      elim (Option-cases (aead.encrypt key nonce plaintext (to_bytes uuid h))) [
        | inl p ↦ ground arith
        | inr (c, p) ↦ ground (
          arith,
          parse-to_bytes uuid h c id fits,
          peek_request_id-to_bytes uuid h c id,
          decrypts key nonce plaintext (to_bytes uuid h) c p,
        )
      ]
    where
      nonce : List ℕ
      nonce = nonce_for dir (kind_seq_class h.kind) h.seq

  -- When `open` accepts a datagram of bytes, its kind travels in the direction asked for, and the
  -- cipher authenticated the rest of the datagram with the first 22 bytes, as they were received,
  -- as associated data and the nonce of that direction, class and number. A request id is any
  -- sixteen bytes.
  pub open_authentic :
      (key : Key) (dir : Direction) (datagram plaintext : List ℕ) (h : Header Uuid)
      → ((b : List ℕ) → length b ≡ request_id_len → uuid.as_bytes (uuid.from_bytes b) ≡ b)
      → IsBytes datagram
      → IsRequestId uuid h.request_id
      → open_datagram uuid aead key datagram dir ≡ ok (h, plaintext)
      → (kind_direction h.kind ≡ dir)
        × (aead.decrypt key
              (nonce_for dir (kind_seq_class h.kind) h.seq)
              (drop header_len datagram)
              (take header_len datagram)
            ≡ some plaintext)
  unfolding open_datagram open_sealed
  open_authentic key dir datagram plaintext h as-from bytes id e =
      elim (Result-cases (parse uuid datagram)) [
        | inr (x, p) ↦ ground arith
        | inl ((h', rest), p) ↦
            elim (Option-cases (
              aead.decrypt key (nonce_for dir (kind_seq_class h'.kind) h'.seq) rest
                (to_bytes uuid h'))) [
                  | inl q ↦ ground arith
                  | inr (m, q) ↦ ground (
                    arith,
                    to_bytes-parse uuid datagram rest h' as-from bytes p,
                    length-to_bytes uuid h id,
                    take_left 22 (to_bytes uuid h) rest,
                    drop_left 22 (to_bytes uuid h) rest,
                  )
                ]
      ]
