-- ===== src/Header/RoundTrip.antt =====
-- `parse`, `to_bytes` and `peek_request_id` of protofish4-proto/src/header.rs, one after another.
use protofish4_rs.Base.{
  ◌≢◌, Result-cases, inl, inr, ℕ, ◌≤◌, ◌<◌, ◌≡◌, refl, ap, ◌∙◌, List, [], ◌∷◌, ◌++◌, arith, ok,
  length, length-append, length-take, length-drop, take, drop, take_left, drop_left,
  take-append-drop, drop-drop, All-take, All-drop, append_assoc,
}
use protofish4_rs.Types.{UuidApi, request_id_len, u32_mod}
use protofish4_rs.Types.Bytes.{
  IsByte, IsBytes, to_be_bytes, from_be_bytes, from_be_bytes_four, to_be_bytes_four,
}
use protofish4_rs.Frame.{PacketKind, kind_to_u8, kind_from_u8}
use protofish4_rs.Header.{Header, version, header_len, parse, to_bytes, peek_request_id}

pub kind_from_u8-kind_to_u8 :
    {Uuid : Type 0} (k : PacketKind) → kind_from_u8 {Uuid = Uuid} (kind_to_u8 k) ≡ ok k
unfolding kind_from_u8
kind_from_u8-kind_to_u8 PacketKind.kind_data = refl
kind_from_u8-kind_to_u8 PacketKind.kind_end = refl
kind_from_u8-kind_to_u8 PacketKind.kind_end_ack = refl
kind_from_u8-kind_to_u8 PacketKind.kind_ack = refl
kind_from_u8-kind_to_u8 PacketKind.kind_nack = refl
kind_from_u8-kind_to_u8 PacketKind.kind_keepalive = refl

pub kind_to_u8-kind_from_u8 :
    {Uuid : Type 0} (v : ℕ) (k : PacketKind)
    → kind_from_u8 {Uuid = Uuid} v ≡ ok k
    → kind_to_u8 k ≡ v
unfolding kind_from_u8
kind_to_u8-kind_from_u8 v k e = ground arith

-- What this code relies on of the `uuid` crate for the id of one header: a `Uuid` is sixteen
-- bytes, and comes back from them.
pub record IsRequestId {Uuid : Type 0} (uuid : UuidApi Uuid) (id : Uuid) : Type 0 where
  pub length_bytes : length (uuid.as_bytes id) ≡ request_id_len
  pub from-as : uuid.from_bytes (uuid.as_bytes id) ≡ id

-- What follows the version and the kind, cut at the request id and the sequence number.
tail_fields : (tail : List ℕ) → take 16 tail ++ (take 4 (drop 16 tail) ++ drop 20 tail) ≡ tail
tail_fields tail =
    cc (drop-drop 16 4 20 tail refl, take-append-drop 4 (drop 16 tail), take-append-drop 16 tail)

seq_field :
    (tail : List ℕ)
    → IsBytes tail
    → 20 ≤ length tail
    → to_be_bytes 4 (from_be_bytes (take 4 (drop 16 tail))) ≡ take 4 (drop 16 tail)
seq_field tail bytes h =
    to_be_bytes_four (take 4 (drop 16 tail))
      (All-take IsByte 4 (drop 16 tail) (All-drop IsByte 16 tail bytes))
      (omega (arith, length-take {0} 4 (drop 16 tail), length-drop {0} 16 tail))

module _ {Uuid : Type 0} (uuid : UuidApi Uuid) where
  pub length-to_bytes :
      (h : Header Uuid) → IsRequestId uuid h.request_id → length (to_bytes uuid h) ≡ header_len
  unfolding to_bytes
  length-to_bytes h v =
      omega (arith, length-append {0} (uuid.as_bytes h.request_id) (to_be_bytes 4 h.seq))

  -- A header with an id of sixteen bytes and a 32-bit number that was written is read back, and the
  -- parser leaves the sealed bytes behind it.
  pub parse-to_bytes :
      (h : Header Uuid) (sealed : List ℕ)
      → IsRequestId uuid h.request_id
      → h.seq < u32_mod
      → parse uuid (to_bytes uuid h ++ sealed) ≡ ok (h, sealed)
  unfolding parse to_bytes
  parse-to_bytes h sealed v fits = ground (
    arith,
    kind_from_u8-kind_to_u8 {Uuid = Uuid} h.kind,
    append_assoc (uuid.as_bytes h.request_id) (to_be_bytes 4 h.seq) sealed,
    take_left 16 (uuid.as_bytes h.request_id) (to_be_bytes 4 h.seq ++ sealed),
    drop_left 16 (uuid.as_bytes h.request_id) (to_be_bytes 4 h.seq ++ sealed),
    drop-drop 16 4 20 (uuid.as_bytes h.request_id ++ (to_be_bytes 4 h.seq ++ sealed)),
    length-append {0} (uuid.as_bytes h.request_id) (to_be_bytes 4 h.seq ++ sealed),
    from_be_bytes_four h.seq,
  )

  -- The relay's peek at a written header, with an id of sixteen bytes, gives its request id.
  pub peek_request_id-to_bytes :
      (h : Header Uuid) (sealed : List ℕ)
      → IsRequestId uuid h.request_id
      → peek_request_id uuid (to_bytes uuid h ++ sealed) ≡ ok h.request_id
  unfolding peek_request_id to_bytes
  peek_request_id-to_bytes h sealed v = ground (
    arith,
    append_assoc (uuid.as_bytes h.request_id) (to_be_bytes 4 h.seq) sealed,
    take_left 16 (uuid.as_bytes h.request_id) (to_be_bytes 4 h.seq ++ sealed),
    length-append {0} (uuid.as_bytes h.request_id) (to_be_bytes 4 h.seq ++ sealed),
  )

  -- The fields of a header that was parsed, each from its range of the buffer.
  parse-eq-ok :
      (a k : ℕ) (tail rest : List ℕ) (h : Header Uuid)
      → parse uuid (a ∷ k ∷ tail) ≡ ok (h, rest)
      → (20 ≤ length tail)
        × (a ≡ version)
        × (kind_from_u8 {Uuid = Uuid} k ≡ ok h.kind)
        × (h.request_id ≡ uuid.from_bytes (take 16 tail))
        × (h.seq ≡ from_be_bytes (take 4 (drop 16 tail)))
        × (rest ≡ drop 20 tail)
  unfolding parse
  parse-eq-ok a k tail rest h e = elim (Result-cases (kind_from_u8 {Uuid = Uuid} k)) [
    | inr (x, p) ↦ ground arith
    | inl (kind, p) ↦ ground arith
  ]

  parse_short : (a : ℕ) {h : Header Uuid} {rest : List ℕ} → parse uuid (a ∷ []) ≢ ok (h, rest)
  unfolding parse
  parse_short a e = ground arith

  parse_empty : {h : Header Uuid} {rest : List ℕ} → parse uuid [] ≢ ok (h, rest)
  unfolding parse
  parse_empty e = ground arith

  -- The header's bytes, from the parts of the buffer that its fields came from.
  to_bytes_tail :
      (k : ℕ) (tail : List ℕ) (h : Header Uuid)
      → kind_to_u8 h.kind ≡ k
      → uuid.as_bytes h.request_id ≡ take 16 tail
      → to_be_bytes 4 h.seq ≡ take 4 (drop 16 tail)
      → to_bytes uuid h ++ drop 20 tail ≡ version ∷ k ∷ tail
  unfolding to_bytes
  to_bytes_tail k tail h p q r =
      rw (p, q)
        (ap (λ (t : List ℕ). version ∷ k ∷ t)
          (append_assoc (take 16 tail) (to_be_bytes 4 h.seq) (drop 20 tail)
            ∙ ap (λ (bs : List ℕ). take 16 tail ++ (bs ++ drop 20 tail)) r
            ∙ tail_fields tail))

  -- A datagram of bytes that the parser accepts is the header's bytes followed by the rest, when any
  -- sixteen bytes are a request id.
  pub to_bytes-parse :
      (buf rest : List ℕ) (h : Header Uuid)
      → ((b : List ℕ) → length b ≡ request_id_len → uuid.as_bytes (uuid.from_bytes b) ≡ b)
      → IsBytes buf
      → parse uuid buf ≡ ok (h, rest)
      → to_bytes uuid h ++ rest ≡ buf
  to_bytes-parse [] rest h as-from bytes e = absurd (parse_empty e)
  to_bytes-parse (a ∷ []) rest h as-from bytes e = absurd (parse_short a e)
  to_bytes-parse (a ∷ k ∷ tail) rest h as-from bytes e =
      let (long, is_version, kind, id, seq, end) = parse-eq-ok a k tail rest h e in
      let sixteen : length (take 16 tail) ≡ 16 = omega (arith, length-take {0} 16 tail) in
      rw (end, is_version)
        (to_bytes_tail k tail h (kind_to_u8-kind_from_u8 {Uuid = Uuid} k h.kind kind)
          (ap uuid.as_bytes id ∙ as-from (take 16 tail) sixteen)
          (ap (to_be_bytes 4) seq ∙ seq_field tail bytes.1.1 long))
