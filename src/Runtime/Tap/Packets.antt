-- ===== src/Runtime/Tap/Packets.antt =====
-- What one end of a transfer sends, read by the other (protofish4/src/sender.rs and receiver.rs).
use protofish4_rs.Base.{
  ℕ, ◌%◌, ◌≤◌, ◌<◌, ◌≡◌, ◌≢◌, refl, List, none, some, ok, err, ◌>>=◌, length, length-append, arith,
  Option-cases, inl, inr, ◌++◌, subst,
}
use protofish4_rs.Types.{XferSeq, Direction, send, recv, peer, UuidApi, u32_mod, u16_mod}
use protofish4_rs.Types.Bytes.{to_be_bytes, length-to_be_bytes}
use protofish4_rs.Frame.{
  Body, body_data, body_end, body_end_ack, body_ack, body_nack, body_keepalive, body_kind,
  kind_direction, kind_name, kind_seq_class,
}
use protofish4_rs.Failure.{wrong_direction, Fallible}
use protofish4_rs.Codec.{encode_body, decode_body, encode_seqs}
use protofish4_rs.Codec.RoundTrip.{IsEncodable, decode-encode, length-encode_seqs}
use protofish4_rs.Header.{Header, to_bytes}
use protofish4_rs.Header.RoundTrip.{IsRequestId}
use protofish4_rs.Crypto.{AeadApi, nonce_for, seal, open_datagram, request_id_of}
use protofish4_rs.Crypto.Sealing.{Decrypts, open-seal}
use protofish4_rs.Runtime.Entry.{Entry, open_body, seal_body}
use protofish4_rs.Runtime.Tap.{Sender, seal_packet, open_reply}

-- An encodable body takes little room.
encoded_short :
    {Uuid : Type 0} (b : Body)
    → IsEncodable b
    → (m : List ℕ) × (encode_body {Uuid = Uuid} b ≡ ok m) × (length m ≤ 1032)
unfolding encode_body
encoded_short (body_data ts payload) h = (
  to_be_bytes 8 ts ++ payload,
  ground arith,
  omega (arith, h, length-append {0} (to_be_bytes 8 ts) payload, length-to_be_bytes 8 ts),
)
encoded_short (body_end n) h = (_, refl, omega (arith, length-to_be_bytes 4 n))
encoded_short body_end_ack h = (_, refl, omega arith)
encoded_short (body_ack c n b) h = (_, refl, omega arith)
encoded_short (body_nack missing) h = (
  to_be_bytes 2 (length missing % u16_mod) ++ encode_seqs missing,
  ground arith,
  omega (
    arith,
    h,
    length-append {0} (to_be_bytes 2 (length missing % u16_mod)) (encode_seqs missing),
    length-encode_seqs missing,
  ),
)
encoded_short (body_keepalive n) h = (_, refl, omega (arith, length-to_be_bytes 4 n))

module _ {Uuid Key : Type 0} (uuid : UuidApi Uuid) (aead : AeadApi Key) where
  -- The cipher takes any message of at most 2 ^ 16 bytes.
  abbrev pub Encrypts : Type 0
  Encrypts =
      (key : Key) (nonce msg aad : List ℕ)
      → length msg ≤ u16_mod
      → aead.encrypt key nonce msg aad ≢ none

  -- A packet of either end: it is sealed, and opens at the other.
  packet_opens :
      (key : Key) (id : Uuid) (seq : ℕ) (body : Body) (dir : Direction)
      → Encrypts
      → Decrypts uuid aead
      → IsRequestId uuid id
      → seq < u32_mod
      → IsEncodable body
      → kind_direction (body_kind body) ≡ dir
      → let header : Header Uuid = record { kind = body_kind body; request_id = id; seq = seq } in
        (m : List ℕ) × (datagram : List ℕ) × (encode_body {Uuid = Uuid} body ≡ ok m)
        × (seal uuid aead key header dir m ≡ ok datagram)
        × (decode_body {Uuid = Uuid} (body_kind body) m ≡ ok body)
        × (open_datagram uuid aead key datagram dir ≡ ok (header, m))
        × (open_datagram uuid aead key datagram (peer dir)
            ≡ err (wrong_direction (kind_name (body_kind body))))
        × (request_id_of uuid aead datagram ≡ ok id)
  packet_opens key id seq body dir encrypts decrypts is_id fits encodable is_dir =
      let header : Header Uuid = record { kind = body_kind body; request_id = id; seq = seq } in
      let (m, e, short) = encoded_short {Uuid = Uuid} body encodable in
      let nonce = nonce_for dir (kind_seq_class (body_kind body)) seq in
      elim (Option-cases (aead.encrypt key nonce m (to_bytes uuid header))) [
        | inl p ↦ absurd (encrypts key nonce m (to_bytes uuid header) (omega arith) p)
        | inr (c, p) ↦
            let datagram : List ℕ = to_bytes uuid header ++ c in
            let sealed : seal uuid aead key header dir m ≡ ok datagram = unfold seal in rw p refl in
            let (a, b, d) =
              open-seal uuid aead key header dir m datagram decrypts is_id fits is_dir sealed in
            (
              m,
              datagram,
              e,
              sealed,
              subst (λ (r : Fallible Uuid (List ℕ)). (r >>= decode_body (body_kind body)) ≡ ok body)
                  e (decode-encode {Uuid = Uuid} body encodable),
              a,
              b,
              d,
            )
      ]

module _ {Uuid Key Addr : Type 0} (uuid : UuidApi Uuid) (aead : AeadApi Key) where
  -- When the cipher takes every message that fits a datagram and decrypts what it encrypted, under
  -- an id of sixteen bytes and a 32-bit number: a tap seals every encodable packet that it may send;
  -- the endpoint that knows its key finds the request by the datagram and opens it to the same
  -- number and body; and no tap takes it for a reply, in which the direction is the other one.
  pub open_body-seal_packet :
      (s : Sender Uuid Key Addr) (seq : XferSeq) (body : Body)
      → Encrypts uuid aead
      → Decrypts uuid aead
      → IsRequestId uuid s.request_id
      → seq < u32_mod
      → IsEncodable body
      → kind_direction (body_kind body) ≡ send
      → (datagram : List ℕ) × (seal_packet uuid aead s.key s.request_id seq body ≡ ok datagram)
        × (request_id_of uuid aead datagram ≡ ok s.request_id)
        × (open_body uuid aead s.key datagram ≡ ok (seq, body))
        × (open_reply uuid aead s.key datagram ≡ err (wrong_direction (kind_name (body_kind body))))
  unfolding seal_packet open_body open_reply
  open_body-seal_packet s seq body encrypts decrypts is_id fits encodable is_dir =
      let (m, datagram, e, sealed, decoded, opened, refused, named) =
        packet_opens uuid aead s.key s.request_id seq body send encrypts decrypts is_id fits
          encodable is_dir in
      (datagram, rw e sealed, named, rw opened (rw decoded refl), rw refused refl)

  -- When the cipher takes every message that fits a datagram and decrypts what it encrypted, under
  -- an id of sixteen bytes and a 32-bit control number: an entry seals every encodable reply that it
  -- may send; the tap of the same key opens it to the same body, no endpoint takes it for a packet of
  -- a tap, and the next reply of the entry has another number.
  pub open_reply-seal_body :
      (x : Entry Key Addr) (id : Uuid) (body : Body)
      → Encrypts uuid aead
      → Decrypts uuid aead
      → IsRequestId uuid id
      → x.control_seq < u32_mod
      → IsEncodable body
      → kind_direction (body_kind body) ≡ recv
      → (datagram : List ℕ) × ((seal_body uuid aead x id body).1 ≡ some datagram)
        × (open_reply uuid aead x.key datagram ≡ ok body)
        × (open_body uuid aead x.key datagram ≡ err (wrong_direction (kind_name (body_kind body))))
        × ((seal_body uuid aead x id body).0.control_seq ≢ x.control_seq)
  unfolding seal_body open_body open_reply
  open_reply-seal_body x id body encrypts decrypts is_id fits encodable is_dir =
      let (m, datagram, e, sealed, decoded, opened, refused, named) =
        packet_opens uuid aead x.key id x.control_seq body recv encrypts decrypts is_id fits
          encodable is_dir in
      (datagram, rw e (rw sealed refl), rw opened decoded, rw refused refl, λ same. omega arith)
