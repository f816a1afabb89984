-- ===== src/Runtime/Transfer/Origins.antt =====
-- What the datagrams that a tap of protofish4/src/sender.rs sends open to at the endpoint of
-- protofish4/src/receiver.rs.
use protofish4_rs.Base.{
  ℕ, suc, ◌<◌, ◌≡◌, refl, sym, inl, inr, List, [], ◌∷◌, ◌++◌, ok, All, All-append, subst,
}
use protofish4_rs.Types.{UuidApi, u32_mod}
use protofish4_rs.Frame.{body_data, body_end, body_end_ack, body_ack, body_nack, body_keepalive}
use protofish4_rs.Header.RoundTrip.{IsRequestId}
use protofish4_rs.Crypto.{AeadApi}
use protofish4_rs.Crypto.Sealing.{Decrypts}
use protofish4_rs.Sender.{SendEvent, emit, resend, completed, failed}
use protofish4_rs.Sender.Frames.{pushed, IsStream}
use protofish4_rs.Runtime.Entry.{Frame}
use protofish4_rs.Runtime.Tap.{seal_packet}
use protofish4_rs.Runtime.Tap.Sending.{In, Sends}
use protofish4_rs.Runtime.Transfer.Opening.{
  AllStamped, Genuine, data-Genuine, end-Genuine, keepalive-Genuine,
}
use protofish4_rs.Runtime.Transfer.{numbered, IsOne}

pub In-All : (P : List ℕ → Type 0) (log : List (List ℕ)) (d : List ℕ) → All P log → In d log → P d
In-All P [] d all h = elim h [ ]
In-All P (x ∷ log) d all (inl e) = subst P (sym e) all.0
In-All P (x ∷ log) d all (inr h) = In-All P log d all.1 h

All-In :
    (P : List ℕ → Type 0) (log ds : List (List ℕ))
    → All P log
    → All (λ (d : List ℕ). In d log) ds
    → All P ds
All-In P log [] all h = tt
All-In P log (d ∷ ds) all h = (In-All P log d all h.0, All-In P log ds all h.1)

module _ {Uuid Key : Type 0} (uuid : UuidApi Uuid) (aead : AeadApi Key) (key : Key)
    (id : Uuid) where
  -- Whatever an emitted packet is sealed to has the property.
  abbrev Covers : (List ℕ → Type 0) → List SendEvent → Type 0
  Covers P [] = Unit
  Covers P (emit seq body ∷ events) =
      ((d : List ℕ) → seal_packet uuid aead key id seq body ≡ ok d → P d) × Covers P events
  Covers P (_ ∷ events) = Covers P events

  sent-All :
      (P : List ℕ → Type 0) (events : List SendEvent) (log out : List (List ℕ))
      → Covers P events
      → All P log
      → Sends uuid aead key id log events out
      → All P out
  sent-All P [] log out c all h = rw h tt
  sent-All P (emit seq body ∷ events) log out c all (inl h) = sent-All P events log out c.1 all h
  sent-All P (emit seq body ∷ events) log out c all (inr (d, rest, e, sealed, h)) =
      let p : P d = c.0 d sealed in
      rw e
        (p, sent-All P events (log ++ (d ∷ [])) rest c.1 (All-append P log (d ∷ []) all (p, tt)) h)
  sent-All P (resend ds ∷ events) log out c all (copies, rest, e, h, k) =
      let p : All P copies = All-In P log copies all h in
      rw e (
        All-append P copies rest p
          (sent-All P events (log ++ copies) rest c (All-append P log copies all p) k))
  sent-All P (completed ∷ events) log out c all h = sent-All P events log out c all h
  sent-All P (failed why ∷ events) log out c all h = sent-All P events log out c all h

  stream-Covers :
      (e n : ℕ) (fs : List Frame) (events : List SendEvent)
      → Decrypts uuid aead
      → IsRequestId uuid id
      → n < u32_mod
      → IsStream e n events
      → AllStamped (pushed events)
      → ((f : Frame) → IsOne (numbered e (pushed events)) f → IsOne fs f)
      → Covers (Genuine uuid aead key fs n) events
  stream-Covers e n fs [] decrypts is_id small h stamped among = tt
  stream-Covers e n fs (emit seq (body_data ts payload) ∷ events) decrypts is_id small h stamped
        among =
      (
        data-Genuine uuid aead key id seq ts payload fs n decrypts is_id h.1 stamped.0
            (rw h.0 (among (record { seq = e; ts = ts; payload = payload }) (inl refl))),
        stream-Covers (suc e) n fs events decrypts is_id small h.2 stamped.1
            (λ f one. among f (inr one)),
      )
  stream-Covers e n fs (emit seq (body_end f) ∷ events) decrypts is_id small h stamped among = (
    end-Genuine uuid aead key id seq f fs n decrypts is_id h.1 small h.0,
    stream-Covers e n fs events decrypts is_id small h.2 stamped among,
  )
  stream-Covers e n fs (emit seq (body_keepalive lost) ∷ events) decrypts is_id small h stamped
        among =
      (
        keepalive-Genuine uuid aead key id seq lost fs n decrypts is_id h.0,
        stream-Covers e n fs events decrypts is_id small h.1 stamped among,
      )
  stream-Covers e n fs (emit seq body_end_ack ∷ events) decrypts is_id small h stamped among =
      elim h [ ]
  stream-Covers e n fs (emit seq (body_ack c hi b) ∷ events) decrypts is_id small h stamped among =
      elim h [ ]
  stream-Covers e n fs (emit seq (body_nack m) ∷ events) decrypts is_id small h stamped among =
      elim h [ ]
  stream-Covers e n fs (resend ds ∷ events) decrypts is_id small h stamped among =
      stream-Covers e n fs events decrypts is_id small h stamped among
  stream-Covers e n fs (completed ∷ events) decrypts is_id small h stamped among =
      stream-Covers e n fs events decrypts is_id small h stamped among
  stream-Covers e n fs (failed why ∷ events) decrypts is_id small h stamped among =
      stream-Covers e n fs events decrypts is_id small h stamped among

  -- Every datagram that goes out for such packets opens, if it does, to a packet of the transfer.
  pub sent-Genuine :
      (n : ℕ) (events : List SendEvent) (out : List (List ℕ))
      → Decrypts uuid aead
      → IsRequestId uuid id
      → n < u32_mod
      → IsStream 1 n events
      → AllStamped (pushed events)
      → Sends uuid aead key id [] events out
      → All (Genuine uuid aead key (numbered 1 (pushed events)) n) out
  sent-Genuine n events out decrypts is_id small h stamped sends =
      let fs : List Frame = numbered 1 (pushed events) in
      sent-All (Genuine uuid aead key fs n) events [] out
        (stream-Covers 1 n fs events decrypts is_id small h stamped (λ f one. one)) tt sends
