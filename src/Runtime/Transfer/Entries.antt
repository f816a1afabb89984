-- ===== src/Runtime/Transfer/Entries.antt =====
-- What an entry of protofish4/src/receiver.rs delivers when all its packets belong to one transfer.
use protofish4_rs.Base.{
  ℕ, ◌≤◌, ◌≡◌, refl, sym, ap, ◌∙◌, inl, inr, List, [], ◌∷◌, true, arith, All, Any, length, take_all,
  subst,
}
use protofish4_rs.Types.{XferSeq, TimestampMs, Instant, complete, aborted, UuidApi}
use protofish4_rs.Frame.{body_data, body_end, body_end_ack, body_ack, body_nack, body_keepalive}
use protofish4_rs.Crypto.{AeadApi}
use protofish4_rs.Config.{ReceiverConfig}
use protofish4_rs.Receiver
use protofish4_rs.Receiver.{RecvEvent, reliable, unreliable, rel_finished}
use protofish4_rs.Receiver.Events.{outcomes}
use protofish4_rs.Receiver.Genuine.{delivered, AllFrames}
use protofish4_rs.Receiver.Provenance.{brought, Among, run_genuine}
use protofish4_rs.Receiver.Announced.{AllAnnounce, run_announced}
use protofish4_rs.Receiver.Ends.{AllOk}
use protofish4_rs.Receiver.Runs
use protofish4_rs.Receiver.Runs.{AllFit}
use protofish4_rs.Runtime.Entry.{Frame, to_frame, Delivery, played, stored, told, Applied, armed}
use protofish4_rs.Runtime.Entry.Runs.{
  Call, packet_call, tick_call, report_call, receiver_calls, AllOpen, told_outcomes, first_if, run,
}
use protofish4_rs.Runtime.Entry.Shown.{stored_frames, shown_frames, stored_seqs_lem}
use protofish4_rs.Runtime.Entry.Streams.{from_armed, told_armed, entry_delivers}
use protofish4_rs.Runtime.Transfer.{numbered, IsOne, Carries, Faithful}
use protofish4_rs.Runtime.Transfer.Prefix.{in_order_lem}

-- Every packet of the calls belongs to the transfer.
abbrev pub AllCarry : {Addr : Type 0} → List Frame → ℕ → List (Call Addr × Instant) → Type 0
AllCarry fs n [] = Unit
AllCarry fs n ((packet_call seq body from w, now) ∷ calls) =
    Carries fs n seq body × AllCarry fs n calls
AllCarry fs n (_ ∷ calls) = AllCarry fs n calls

-- One of them, as the receiver has it.
abbrev IsIn : List Frame → Receiver.Frame → Type 0
IsIn fs f = IsOne fs (to_frame f)

module _ {Addr : Type 0} (fs : List Frame) (n : ℕ) where
  brought-IsIn :
      (calls : List (Call Addr × Instant))
      → AllCarry fs n calls
      → (f : Receiver.Frame) → Among (brought (receiver_calls calls)) f
      → IsIn fs f
  brought-IsIn [] h f a = elim a [ ]
  brought-IsIn ((packet_call seq (body_data ts payload) from w, now) ∷ calls) h f (inl e) =
      subst (IsIn fs) (sym e) h.0
  brought-IsIn ((packet_call seq (body_data ts payload) from w, now) ∷ calls) h f (inr a) =
      brought-IsIn calls h.1 f a
  brought-IsIn ((packet_call seq (body_end m) from w, now) ∷ calls) h f a =
      brought-IsIn calls h.1 f a
  brought-IsIn ((packet_call seq body_end_ack from w, now) ∷ calls) h f a =
      brought-IsIn calls h.1 f a
  brought-IsIn ((packet_call seq (body_ack c hi b) from w, now) ∷ calls) h f a =
      brought-IsIn calls h.1 f a
  brought-IsIn ((packet_call seq (body_nack m) from w, now) ∷ calls) h f a =
      brought-IsIn calls h.1 f a
  brought-IsIn ((packet_call seq (body_keepalive m) from w, now) ∷ calls) h f a =
      brought-IsIn calls h.1 f a
  brought-IsIn ((tick_call w, now) ∷ calls) h f a = brought-IsIn calls h f a
  brought-IsIn ((report_call ms, now) ∷ calls) h f a = brought-IsIn calls h f a

  pub calls-AllAnnounce :
      (calls : List (Call Addr × Instant))
      → AllCarry fs n calls
      → AllAnnounce (λ (f : XferSeq). f ≡ n) (λ (t : XferSeq). Unit) (receiver_calls calls)
  calls-AllAnnounce [] h = tt
  calls-AllAnnounce ((packet_call seq (body_data ts payload) from w, now) ∷ calls) h =
      (tt, calls-AllAnnounce calls h.1)
  calls-AllAnnounce ((packet_call seq (body_end m) from w, now) ∷ calls) h =
      (h.0, calls-AllAnnounce calls h.1)
  calls-AllAnnounce ((packet_call seq body_end_ack from w, now) ∷ calls) h =
      (tt, calls-AllAnnounce calls h.1)
  calls-AllAnnounce ((packet_call seq (body_ack c hi b) from w, now) ∷ calls) h =
      (tt, calls-AllAnnounce calls h.1)
  calls-AllAnnounce ((packet_call seq (body_nack m) from w, now) ∷ calls) h =
      (tt, calls-AllAnnounce calls h.1)
  calls-AllAnnounce ((packet_call seq (body_keepalive m) from w, now) ∷ calls) h =
      (tt, calls-AllAnnounce calls h.1)
  calls-AllAnnounce ((tick_call w, now) ∷ calls) h = calls-AllAnnounce calls h
  calls-AllAnnounce ((report_call ms, now) ∷ calls) h = calls-AllAnnounce calls h

-- What is delivered is among what was brought in.
delivered-IsIn :
    (gs : List Receiver.Frame) (fs : List Frame) (ds : List Receiver.Frame) (f : Frame)
    → ((g : Receiver.Frame) → Among gs g → IsIn fs g)
    → AllFrames (Among gs) ds
    → Any (λ (g : Receiver.Frame). f ≡ to_frame g) ds
    → IsOne fs f
delivered-IsIn gs fs [] f k all h = elim h [ ]
delivered-IsIn gs fs (d ∷ ds) f k all (inl e) = subst (IsOne fs) (sym e) (k d all.0)
delivered-IsIn gs fs (d ∷ ds) f k all (inr h) = delivered-IsIn gs fs ds f k all.1 h

Any-All : (fs : List Frame) (P : Frame → Type 0) → ((f : Frame) → IsOne fs f → P f) → All P fs
Any-All [] P h = tt
Any-All (f ∷ fs) P h = (h f (inl refl), Any-All fs P (λ g one. h g (inr one)))

-- What is on the reliable channel is on one of the two.
stored_shown :
    (ds : List Delivery) (f : Frame) → IsOne (stored_frames ds) f → IsOne (shown_frames ds) f
stored_shown [] f h = h
stored_shown (stored g ∷ ds) f (inl e) = inl e
stored_shown (stored g ∷ ds) f (inr h) = inr (stored_shown ds f h)
stored_shown (played g ∷ ds) f h = inr (stored_shown ds f h)
stored_shown (told o ∷ ds) f h = stored_shown ds f h

first_outcome :
    (n f : XferSeq) (evs : List RecvEvent)
    → AllOk (λ (m : XferSeq). m ≡ n) (λ (t : XferSeq). Unit) evs
    → first_if true (outcomes evs) ≡ complete f ∷ []
    → f ≡ n
first_outcome n f [] h e = absurd (ground arith)
first_outcome n f (rel_finished (complete m) ∷ evs) h e = let p : f ≡ m = ground arith in p ∙ h.0
first_outcome n f (rel_finished (aborted r) ∷ evs) h e = absurd (ground arith)
first_outcome n f (reliable g ∷ evs) h e = first_outcome n f evs h e
first_outcome n f (unreliable g ∷ evs) h e = first_outcome n f evs h e
first_outcome n f (Receiver.send_nack m ∷ evs) h e = first_outcome n f evs h e
first_outcome n f (Receiver.send_ack c hi b ∷ evs) h e = first_outcome n f evs h e
first_outcome n f (Receiver.send_end_ack ∷ evs) h e = first_outcome n f evs h.1 e
first_outcome n f (Receiver.closed_event ∷ evs) h e = first_outcome n f evs h e

module _ {Uuid Key Addr : Type 0} (uuid : UuidApi Uuid) (aead : AeadApi Key) where
  shown-IsOne :
      (key : Key) (cfg : ReceiverConfig) (start : Instant) (id : Uuid)
      (calls : List (Call Addr × Instant)) (fs : List Frame) (n : ℕ)
      → AllCarry fs n calls
      → (f : Frame) → IsOne (shown_frames (run uuid aead (armed key cfg start) id calls).1) f
      → IsOne fs f
  shown-IsOne key cfg start id calls fs n carry f one =
      let rs = receiver_calls calls in
      delivered-IsIn (brought rs) fs (delivered (Runs.run (Receiver.new cfg start) rs).1) f
        (brought-IsIn fs n calls carry) (run_genuine cfg start rs)
        ((from_armed uuid aead key cfg start id calls).shows f one)

  complete_only :
      (key : Key) (cfg : ReceiverConfig) (start : Instant) (id : Uuid)
      (calls : List (Call Addr × Instant)) (fs : List Frame) (n f : ℕ)
      → AllCarry fs n calls
      → told_outcomes (run uuid aead (armed key cfg start) id calls).1 ≡ complete f ∷ []
      → f ≡ n
  complete_only key cfg start id calls fs n f carry e =
      let evs : List RecvEvent = (Runs.run (Receiver.new cfg start) (receiver_calls calls)).1 in
      let p = from_armed uuid aead key cfg start id calls in
      let said : first_if true (outcomes evs) ≡ complete f ∷ [] =
        sym (told_armed Key Addr key cfg start (outcomes evs)) ∙ sym p.outcome ∙ e in
      first_outcome n f evs
        (run_announced (λ (m : XferSeq). m ≡ n) (λ (t : XferSeq). Unit) cfg start
          (receiver_calls calls) (calls-AllAnnounce fs n calls carry))
        said

  -- An entry whose packets all belong to one transfer.
  pub entry-Faithful :
      (key : Key) (cfg : ReceiverConfig) (start : Instant) (id : Uuid)
      (calls : List (Call Addr × Instant)) (frames : List (TimestampMs × List ℕ))
      → AllFit (receiver_calls calls)
      → AllOpen calls
      → AllCarry (numbered 1 frames) (length frames) calls
      → Faithful frames (run uuid aead (armed key cfg start) id calls).1
  entry-Faithful key cfg start id calls frames fits opened carry =
      let r : Applied Key Addr = run uuid aead (armed key cfg start) id calls in
      let fs : List Frame = numbered 1 frames in
      let (order, ending) = entry_delivers uuid aead key cfg start id calls fits opened in
      let shown = shown-IsOne key cfg start id calls fs (length frames) carry in
      let (first, few) =
        in_order_lem (stored_frames r.1) 1 r.0.state.rel_released frames
          (sym (stored_seqs_lem r.1) ∙ order)
          (Any-All (stored_frames r.1) (IsOne fs) (λ f one. shown f (stored_shown r.1 f one))) in
      (
        (r.0.state.rel_released, few, first),
        Any-All (shown_frames r.1) (IsOne fs) shown,
        elim ending [
          | inl (a, b) ↦ inl b
          | inr (a, (complete f, b, c)) ↦
              let all : f ≡ length frames =
                complete_only key cfg start id calls fs (length frames) f carry b in
              let enough : length frames ≤ r.0.state.rel_released = omega (arith, all, c f refl) in
              inr (
                inr (
                  b ∙ ap (λ (m : ℕ). complete m ∷ []) all,
                  first ∙ ap (numbered 1) (take_all r.0.state.rel_released frames enough),
                ))
          | inr (a, (aborted reason, b, c)) ↦ inr (inl (reason, b))
        ],
      )
