-- ===== src/Receiver/Completion.antt =====
-- The end of a stream whose frames have all arrived (`check_finish` of
-- protofish4-proto/src/xfer/receiver.rs), over runs.
use protofish4_rs.Base.{
  ℕ, suc, ◌≤◌, ◌<◌, ◌≡◌, inl, inr, refl, sym, ap, ◌∙◌, List, [], ◌∷◌, some, true, false, arith,
  leb-false,
}
use protofish4_rs.Types.{XferSeq, Instant, RelOutcome}
use protofish4_rs.Config.{ReceiverConfig}
use protofish4_rs.Frame.{body_data, body_end, body_end_ack, body_ack, body_nack, body_keepalive}
use protofish4_rs.Collections.Sets.{contains}
use protofish4_rs.Gap
use protofish4_rs.Gap.{GapTracker}
use protofish4_rs.Gap.Runs.{record_all, IsU32s, record_all-new}
use protofish4_rs.Receiver
use protofish4_rs.Receiver.{
  Frame, XferReceiver, RelState, streaming, finished, RecvEvent, Step, ◌⨾◌, set_buffered_ms,
  finish_rel, release_loop, note_progress, release_contiguous, finish_complete, ack_end,
  close_if_acked, check_finish_at, check_finish, maybe_ack, play_if, buffer_frame, on_data,
  on_keepalive, on_body, handle, nack_loop, nack_if_any, emit_nacks, watch_rel, tick, closed_event,
}
use protofish4_rs.Receiver.Events.{outcomes}
use protofish4_rs.Receiver.Invariant.{IsReceiver, Ending, new-IsReceiver}
use protofish4_rs.Receiver.Methods.{RelState-cases}
use protofish4_rs.Receiver.Runs.{Call, handle_call, tick_call, buffered_call, step, run, AllFit}
use protofish4_rs.Receiver.Delivery.{step-Progress, run_from, run_ends_once}
use protofish4_rs.Receiver.Following.{Awaits, Follows, after_call, step-Follows}

-- The sequence numbers of the frames that a list of calls brings in.
abbrev pub arrivals : List (Call × Instant) → List XferSeq
arrivals [] = []
arrivals ((handle_call seq (body_data ts payload), now) ∷ calls) = seq ∷ arrivals calls
arrivals (_ ∷ calls) = arrivals calls

pub arrivals-IsU32s : (calls : List (Call × Instant)) → AllFit calls → IsU32s (arrivals calls)
arrivals-IsU32s [] h = tt
arrivals-IsU32s ((handle_call seq (body_data ts payload), now) ∷ calls) h =
    (h.0, arrivals-IsU32s calls h.1)
arrivals-IsU32s ((handle_call seq (body_end f), now) ∷ calls) h = arrivals-IsU32s calls h.1
arrivals-IsU32s ((handle_call seq (body_keepalive l), now) ∷ calls) h = arrivals-IsU32s calls h.1
arrivals-IsU32s ((handle_call seq (body_ack c hi b), now) ∷ calls) h = arrivals-IsU32s calls h.1
arrivals-IsU32s ((handle_call seq (body_nack m), now) ∷ calls) h = arrivals-IsU32s calls h.1
arrivals-IsU32s ((handle_call seq body_end_ack, now) ∷ calls) h = arrivals-IsU32s calls h.1
arrivals-IsU32s ((tick_call, now) ∷ calls) h = arrivals-IsU32s calls h.1
arrivals-IsU32s ((buffered_call ms, now) ∷ calls) h = arrivals-IsU32s calls h.1

record_all-arrivals :
    (g : GapTracker) (call : Call) (now : Instant) (calls : List (Call × Instant))
    → record_all g (arrivals ((call, now) ∷ calls))
      ≡ record_all (after_call g call) (arrivals calls)
unfolding record_all
record_all-arrivals g (handle_call seq (body_data ts payload)) now calls = refl
record_all-arrivals g (handle_call seq (body_end f)) now calls = refl
record_all-arrivals g (handle_call seq (body_keepalive l)) now calls = refl
record_all-arrivals g (handle_call seq (body_ack c h b)) now calls = refl
record_all-arrivals g (handle_call seq (body_nack m)) now calls = refl
record_all-arrivals g (handle_call seq body_end_ack) now calls = refl
record_all-arrivals g tick_call now calls = refl
record_all-arrivals g (buffered_call ms) now calls = refl

-- A run from a stream that ended leaves it ended.
run_finished :
    (r : XferReceiver) (calls : List (Call × Instant))
    → IsReceiver r
    → AllFit calls
    → r.rel_state ≡ finished
    → (run r calls).0.rel_state ≡ finished
run_finished r calls i fits e =
    let p = run_from r calls i fits in
    elim (RelState-cases (run r calls).0.rel_state) [
      | inr s ↦ s
      | inl s ↦ absurd (
          ended r.rel_state (run r calls).0.rel_state r.rel_released (run r calls).0.rel_released
            (outcomes (run r calls).1) e s p.ending)
    ]
  where
    ended :
        (s t : RelState) (n m : ℕ) (os : List RelOutcome)
        → s ≡ finished
        → t ≡ streaming
        → Ending s n t m os
        → ⊥
    ended finished streaming n m os a b h = h
    ended streaming t n m os a b h = cc
    ended finished finished n m os a b h = cc

run-Follows :
    (r : XferReceiver) (calls : List (Call × Instant))
    → IsReceiver r
    → AllFit calls
    → Awaits r
    → Follows (record_all r.gaps (arrivals calls)) r (run r calls).0
unfolding run
run-Follows r [] i fits a = inr (refl, unfold record_all in refl, a)
run-Follows r ((call, now) ∷ calls) i (fits, more) a =
    let q : XferReceiver = (step r call now).0 in
    let k : IsReceiver q = (step-Progress r call now i fits).keeps in
    elim (step-Follows r call now a) [
      | inl e ↦ inl (run_finished q calls k more e)
      | inr (s, g, awaits) ↦ elim (run-Follows q calls k more awaits) [
        | inl e ↦ inl e
        | inr (s', g', awaits') ↦ inr (
          s' ∙ s,
          g'
              ∙ ap (λ (t : GapTracker). record_all t (arrivals calls)) g
              ∙ sym (record_all-arrivals r.gaps call now calls),
          awaits',
        )
      ]
    ]

-- The tracker of a stream that is open has recorded what arrived.
pub run_tracker :
    (cfg : ReceiverConfig) (start : Instant) (calls : List (Call × Instant))
    → AllFit calls
    → (run (Receiver.new cfg start) calls).0.rel_state ≡ streaming
    → (run (Receiver.new cfg start) calls).0.gaps ≡ record_all Gap.new (arrivals calls)
run_tracker cfg start calls fits s =
    let first : Awaits (Receiver.new cfg start) = unfold Receiver.new in λ s f p. cc in
    let start_gaps : (Receiver.new cfg start).gaps ≡ Gap.new = unfold Receiver.new in refl in
    elim (run-Follows (Receiver.new cfg start) calls (new-IsReceiver cfg start) fits first) [
      | inl e ↦ let clash = sym s ∙ e in cc
      | inr (same, gaps, awaits) ↦
          gaps ∙ ap (λ (t : GapTracker). record_all t (arrivals calls)) start_gaps
    ]

all_arrived :
    (cfg : ReceiverConfig) (start : Instant) (calls : List (Call × Instant)) (f : XferSeq)
    → AllFit calls
    → (run (Receiver.new cfg start) calls).0.final_seq ≡ some f
    → ((t : XferSeq) → 0 < t → t ≤ f → contains t (arrivals calls) ≡ true)
    → (run (Receiver.new cfg start) calls).0.rel_state ≡ finished
all_arrived cfg start calls f fits end all =
    let r : XferReceiver = (run (Receiver.new cfg start) calls).0 in
    let g : GapTracker = record_all Gap.new (arrivals calls) in
    let first : Awaits (Receiver.new cfg start) = unfold Receiver.new in λ s f p. cc in
    let start_gaps : (Receiver.new cfg start).gaps ≡ Gap.new = unfold Receiver.new in refl in
    elim (RelState-cases r.rel_state) [
      | inr s ↦ s
      | inl s ↦
          elim (run-Follows (Receiver.new cfg start) calls (new-IsReceiver cfg start) fits first) [
            | inl e ↦ e
            | inr (same, gaps, awaits) ↦
                let (arrived, below, next, top) =
                  record_all-new (arrivals calls) (arrivals-IsU32s calls fits) in
                let gaps' : r.gaps ≡ g =
                  gaps ∙ ap (λ (t : GapTracker). record_all t (arrivals calls)) start_gaps in
                let open_still : Gap.is_complete r.gaps f ≡ false = awaits s f end in
                let short : r.gaps.contiguous < f = leb-false f r.gaps.contiguous open_still in
                let prefix : r.gaps.contiguous ≡ g.contiguous =
                  ap (λ (t : GapTracker). t.contiguous) gaps' in
                let clash : true ≡ false =
                  sym (all (suc g.contiguous) (omega arith) (omega arith)) ∙ next in
                cc
          ]
    ]

pub run_completes :
    (cfg : ReceiverConfig) (start : Instant) (calls : List (Call × Instant)) (f : XferSeq)
    → AllFit calls
    → (run (Receiver.new cfg start) calls).0.final_seq ≡ some f
    → ((t : XferSeq) → 0 < t → t ≤ f → contains t (arrivals calls) ≡ true)
    → ((run (Receiver.new cfg start) calls).0.rel_state ≡ finished)
      × ((o : RelOutcome) × (outcomes (run (Receiver.new cfg start) calls).1 ≡ o ∷ []))
run_completes cfg start calls f fits end all =
    let r : XferReceiver = (run (Receiver.new cfg start) calls).0 in
    let over : r.rel_state ≡ finished = all_arrived cfg start calls f fits end all in
    elim (run_ends_once cfg start calls fits) [
      | inl (s, e) ↦ let clash = sym s ∙ over in cc
      | inr (s, (o, e, c)) ↦ (over, (o, e))
    ]
