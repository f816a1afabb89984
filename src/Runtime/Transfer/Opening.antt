-- ===== src/Runtime/Transfer/Opening.antt =====
-- What a packet sealed by a tap of protofish4/src/sender.rs opens to at the endpoint of
-- protofish4/src/receiver.rs.
use protofish4_rs.Base.{
  ℕ, ◌≤◌, ◌<◌, ◌≡◌, refl, ◌∙◌, inl, inr, List, ok, err, ◌>>=◌, arith, All, length, subst,
  Result-cases,
}
use protofish4_rs.Types.{XferSeq, TimestampMs, send, UuidApi, u32_mod, u64_mod}
use protofish4_rs.Frame.{
  Body, body_data, body_end, body_keepalive, body_kind, kind_direction, kind_keepalive, kind_name,
}
use protofish4_rs.Failure.{Error, Fallible}
use protofish4_rs.Codec.{encode_body, decode_body, max_payload, expect_len, take_u32}
use protofish4_rs.Codec.RoundTrip.{decode-encode}
use protofish4_rs.Header.{Header}
use protofish4_rs.Header.RoundTrip.{IsRequestId}
use protofish4_rs.Crypto.{request_id_of, AeadApi}
use protofish4_rs.Crypto.Sealing.{Decrypts, open-seal}
use protofish4_rs.Runtime.Entry.{Frame, open_body}
use protofish4_rs.Runtime.Tap.{seal_packet}
use protofish4_rs.Runtime.Transfer.{IsOne, Carries}

-- Timestamps are 64-bit.
abbrev pub AllStamped : List (TimestampMs × List ℕ) → Type 0
AllStamped fs = All (λ (f : TimestampMs × List ℕ). f.0 < u64_mod) fs

module _ {Uuid : Type 0} where
  -- The body that the decoder gives back.
  data_again :
      (ts : TimestampMs) (payload m : List ℕ)
      → ts < u64_mod
      → encode_body {Uuid = Uuid} (body_data ts payload) ≡ ok m
      → decode_body {Uuid = Uuid} (body_kind (body_data ts payload)) m ≡ ok (body_data ts payload)
  data_again ts payload m h e =
      let fits : length payload ≤ max_payload = unfold encode_body in ground arith in
      subst
        (λ (r : Fallible Uuid (List ℕ)).
          (r >>= decode_body (body_kind (body_data ts payload))) ≡ ok (body_data ts payload))
        e (decode-encode {Uuid = Uuid} (body_data ts payload) (h, fits))

  end_again :
      (f : XferSeq) (m : List ℕ)
      → f < u32_mod
      → encode_body {Uuid = Uuid} (body_end f) ≡ ok m
      → decode_body {Uuid = Uuid} (body_kind (body_end f)) m ≡ ok (body_end f)
  end_again f m h e =
      subst
        (λ (r : Fallible Uuid (List ℕ)).
          (r >>= decode_body (body_kind (body_end f))) ≡ ok (body_end f))
        e (decode-encode {Uuid = Uuid} (body_end f) h)

  same_body : (r : Fallible Uuid Body) (b c : Body) → r ≡ ok b → r ≡ ok c → c ≡ b
  same_body r b c p q = ground arith

  same_packet :
      (r : Fallible Uuid (XferSeq × Body)) (s t : XferSeq) (b c : Body)
      → r ≡ ok (s, b)
      → r ≡ ok (t, c)
      → (t ≡ s) × (c ≡ b)
  same_packet r s t b c p q = ground arith

  failed_open :
      (r : Fallible Uuid (XferSeq × Body)) (x : Error Uuid) (p : XferSeq × Body)
      → r ≡ err x
      → r ≡ ok p
      → ⊥
  failed_open r x p h k = ground arith

  keepalive_again :
      (m : List ℕ) (b : Body) (fs : List Frame) (n : ℕ) (seq : XferSeq)
      → decode_body {Uuid = Uuid} kind_keepalive m ≡ ok b
      → Carries fs n seq b
  unfolding decode_body
  keepalive_again m b fs n seq e =
      elim (Result-cases (expect_len {Uuid = Uuid} m 4 (kind_name kind_keepalive))) [
        | inr (x, p) ↦ absurd (let q = rw p at e in ground arith)
        | inl (x, p) ↦ elim (Result-cases (take_u32 {Uuid = Uuid} m 0 (kind_name kind_keepalive))) [
          | inr (x, p') ↦ absurd (let q = rw (p, p') at e in ground arith)
          | inl (lost, p') ↦
              rw
                (same_body (decode_body kind_keepalive m) (body_keepalive lost) b (rw (p, p') refl)
                  e)
                tt
        ]
      ]

module _ {Uuid Key : Type 0} (uuid : UuidApi Uuid) (aead : AeadApi Key) (key : Key) where
  -- Whatever the datagram opens to belongs to the transfer.
  abbrev pub Genuine : List Frame → ℕ → List ℕ → Type 0
  Genuine fs n d =
      (seq : XferSeq) (body : Body)
      → open_body uuid aead key d ≡ ok (seq, body)
      → Carries fs n seq body

module _ {Uuid Key : Type 0} (uuid : UuidApi Uuid) (aead : AeadApi Key) (key : Key)
    (id : Uuid) where
  -- A sealed packet opens to its number and what its body decodes to.
  reopened :
      (seq : XferSeq) (body : Body) (d : List ℕ)
      → Decrypts uuid aead
      → IsRequestId uuid id
      → seq < u32_mod
      → kind_direction (body_kind body) ≡ send
      → seal_packet uuid aead key id seq body ≡ ok d
      → (m : List ℕ) × (encode_body {Uuid = Uuid} body ≡ ok m)
        × (open_body uuid aead key d ≡ (decode_body (body_kind body) m >>= λ b. ok (seq, b)))
        × (request_id_of uuid aead d ≡ ok id)
  unfolding seal_packet open_body
  reopened seq body d decrypts is_id fits is_dir sealed =
      let h : Header Uuid = record { kind = body_kind body; request_id = id; seq = seq } in
      elim (Result-cases (encode_body {Uuid = Uuid} body)) [
        | inr (x, p) ↦ absurd (let q = rw p at sealed in ground arith)
        | inl (m, p) ↦
            let (a, b, c) =
              open-seal uuid aead key h send m d decrypts is_id fits is_dir (rw p at sealed) in
            (m, p, rw a refl, c)
      ]

  -- What an emitted packet is sealed to.
  -- A sealed frame, or an end, names the request and opens to itself.
  pub data_opens :
      (seq : XferSeq) (ts : TimestampMs) (payload d : List ℕ)
      → Decrypts uuid aead
      → IsRequestId uuid id
      → seq < u32_mod
      → ts < u64_mod
      → seal_packet uuid aead key id seq (body_data ts payload) ≡ ok d
      → (request_id_of uuid aead d ≡ ok id)
        × (open_body uuid aead key d ≡ ok (seq, body_data ts payload))
  data_opens seq ts payload d decrypts is_id fits stamped sealed =
      let (m, e, o, named) =
        reopened seq (body_data ts payload) d decrypts is_id fits refl sealed in
      (named, o ∙ rw (data_again {Uuid = Uuid} ts payload m stamped e) refl)

  pub end_opens :
      (seq f : XferSeq) (d : List ℕ)
      → Decrypts uuid aead
      → IsRequestId uuid id
      → seq < u32_mod
      → f < u32_mod
      → seal_packet uuid aead key id seq (body_end f) ≡ ok d
      → (request_id_of uuid aead d ≡ ok id) × (open_body uuid aead key d ≡ ok (seq, body_end f))
  end_opens seq f d decrypts is_id fits small sealed =
      let (m, e, o, named) = reopened seq (body_end f) d decrypts is_id fits refl sealed in
      (named, o ∙ rw (end_again {Uuid = Uuid} f m small e) refl)

  pub data-Genuine :
      (seq : XferSeq) (ts : TimestampMs) (payload : List ℕ) (fs : List Frame) (n : ℕ)
      → Decrypts uuid aead
      → IsRequestId uuid id
      → seq < u32_mod
      → ts < u64_mod
      → IsOne fs (record { seq = seq; ts = ts; payload = payload })
      → (d : List ℕ) → seal_packet uuid aead key id seq (body_data ts payload) ≡ ok d
      → Genuine uuid aead key fs n d
  data-Genuine seq ts payload fs n decrypts is_id fits stamped one d sealed seq' body opened =
      let (named, again) = data_opens seq ts payload d decrypts is_id fits stamped sealed in
      let (p, q) = same_packet (open_body uuid aead key d) _ _ _ _ again opened in rw (p, q) one

  pub end-Genuine :
      (seq f : XferSeq) (fs : List Frame) (n : ℕ)
      → Decrypts uuid aead
      → IsRequestId uuid id
      → seq < u32_mod
      → n < u32_mod
      → f ≡ n
      → (d : List ℕ) → seal_packet uuid aead key id seq (body_end f) ≡ ok d
      → Genuine uuid aead key fs n d
  end-Genuine seq f fs n decrypts is_id fits small same d sealed seq' body opened =
      let (named, again) = end_opens seq f d decrypts is_id fits (omega arith) sealed in
      let (p, q) = same_packet (open_body uuid aead key d) _ _ _ _ again opened in rw (p, q) same

  pub keepalive-Genuine :
      (seq lost : XferSeq) (fs : List Frame) (n : ℕ)
      → Decrypts uuid aead
      → IsRequestId uuid id
      → seq < u32_mod
      → (d : List ℕ) → seal_packet uuid aead key id seq (body_keepalive lost) ≡ ok d
      → Genuine uuid aead key fs n d
  keepalive-Genuine seq lost fs n decrypts is_id fits d sealed seq' body opened =
      let (m, e, o, named) = reopened seq (body_keepalive lost) d decrypts is_id fits refl sealed in
      elim (Result-cases (decode_body {Uuid = Uuid} kind_keepalive m)) [
        | inr (x, p) ↦
            let failed : open_body uuid aead key d ≡ err x = o ∙ rw p refl in
            absurd (failed_open (open_body uuid aead key d) x (seq', body) failed opened)
        | inl (b, p) ↦
            let again : open_body uuid aead key d ≡ ok (seq, b) = o ∙ rw p refl in
            let (q, r) = same_packet (open_body uuid aead key d) _ _ _ _ again opened in
            rw r (keepalive_again {Uuid = Uuid} m b fs n seq' p)
      ]
