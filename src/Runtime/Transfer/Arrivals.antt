-- ===== src/Runtime/Transfer/Arrivals.antt =====
-- What reaches an entry of protofish4/src/receiver.rs when the network delivers datagrams of the tap
-- of protofish4/src/sender.rs and others, which do not open under the key of the request.
use protofish4_rs.Base.{ℕ, ◌≡◌, ◌⊎◌, inl, inr, List, [], ◌∷◌, ok, err, arith, All, Any}
use protofish4_rs.Types.{Instant, UuidApi}
use protofish4_rs.Failure.{Error}
use protofish4_rs.Frame.{Body}
use protofish4_rs.Crypto.{AeadApi}
use protofish4_rs.Runtime.Entry.{Frame, open_body}
use protofish4_rs.Runtime.Entry.Runs.{Call, packet_call, tick_call, report_call}
use protofish4_rs.Runtime.Tap.Sending.{In}
use protofish4_rs.Runtime.Endpoint.Reaching.{OpensTo}
use protofish4_rs.Runtime.Transfer.{Carries}
use protofish4_rs.Runtime.Transfer.Opening.{Genuine}
use protofish4_rs.Runtime.Transfer.Origins.{In-All}
use protofish4_rs.Runtime.Transfer.Entries.{AllCarry}

module _ {Uuid Key : Type 0} (uuid : UuidApi Uuid) (aead : AeadApi Key) (key : Key) where
  one-Carries :
      (rx : List (List ℕ)) (fs : List Frame) (n : ℕ) (seq : ℕ) (body : Body)
      → All (Genuine uuid aead key fs n) rx
      → Any (λ (d : List ℕ). open_body uuid aead key d ≡ ok (seq, body)) rx
      → Carries fs n seq body
  one-Carries [] fs n seq body all h = elim h [ ]
  one-Carries (d ∷ rx) fs n seq body all (inl e) = all.0 seq body e
  one-Carries (d ∷ rx) fs n seq body all (inr h) = one-Carries rx fs n seq body all.1 h

  pub calls-AllCarry :
      {Addr : Type 0} (rx : List (List ℕ)) (fs : List Frame) (n : ℕ)
      (calls : List (Call Addr × Instant))
      → All (Genuine uuid aead key fs n) rx
      → OpensTo uuid aead key rx calls
      → AllCarry fs n calls
  calls-AllCarry rx fs n [] all h = tt
  calls-AllCarry rx fs n ((packet_call seq body from w, now) ∷ calls) all h =
      (one-Carries rx fs n seq body all h.0, calls-AllCarry rx fs n calls all h.1)
  calls-AllCarry rx fs n ((tick_call w, now) ∷ calls) all h = calls-AllCarry rx fs n calls all h
  calls-AllCarry rx fs n ((report_call ms, now) ∷ calls) all h = calls-AllCarry rx fs n calls all h

  -- What arrives went out, or does not open.
  abbrev pub Authentic : List (List ℕ) → List (List ℕ) → Type 0
  Authentic out rx =
      All (λ (d : List ℕ). In d out ⊎ ((x : Error Uuid) × (open_body uuid aead key d ≡ err x))) rx

  not_opened :
      (d : List ℕ) (fs : List Frame) (n : ℕ) (x : Error Uuid)
      → open_body uuid aead key d ≡ err x
      → Genuine uuid aead key fs n d
  not_opened d fs n x e seq body opened = absurd (ground (arith, e, opened))

  pub arrived-Genuine :
      (out rx : List (List ℕ)) (fs : List Frame) (n : ℕ)
      → All (Genuine uuid aead key fs n) out
      → Authentic out rx
      → All (Genuine uuid aead key fs n) rx
  arrived-Genuine out [] fs n all h = tt
  arrived-Genuine out (d ∷ rx) fs n all h = (
    elim h.0 [
      | inl one ↦ In-All (Genuine uuid aead key fs n) out d all one
      | inr (x, e) ↦ not_opened d fs n x e
    ],
    arrived-Genuine out rx fs n all h.1,
  )
