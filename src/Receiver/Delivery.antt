-- ===== src/Receiver/Delivery.antt =====
-- What a receiver of protofish4-proto/src/xfer/receiver.rs delivers over a run of calls.
use protofish4_rs.Base.{
  ◌-◌, ◌≤◌, ◌≡◌, refl, ap, ◌∙◌, subst, List, [], ◌∷◌, arith, ◌⊎◌, inl, inr, count_up,
}
use protofish4_rs.Types.{XferSeq, Instant, RelOutcome, complete}
use protofish4_rs.Config.{ReceiverConfig}
use protofish4_rs.Receiver
use protofish4_rs.Receiver.{
  XferReceiver, RelState, streaming, finished, Step, ◌⨾◌, set_buffered_ms, handle,
}
use protofish4_rs.Receiver.Events.{reliable_seqs, outcomes}
use protofish4_rs.Receiver.Release.{payload_bytes}
use protofish4_rs.Receiver.Invariant.{IsReceiver, Ending, Progress, Progress-⨾, new-IsReceiver}
use protofish4_rs.Receiver.Methods.{quiet-Alike, nothing, RelState-cases}
use protofish4_rs.Receiver.Streams.{tick-Progress}
use protofish4_rs.Receiver.Arrival.{handle-Progress}
use protofish4_rs.Receiver.Runs.{
  Call, handle_call, tick_call, buffered_call, step, run, Fits, AllFit,
}

pub step-Progress :
    (r : XferReceiver) (call : Call) (now : Instant)
    → IsReceiver r
    → Fits call
    → Progress r.rel_state r.rel_released (step r call now)
unfolding step
step-Progress r (handle_call seq body) now i fits = handle-Progress r seq body now i fits
step-Progress r tick_call now i fits = tick-Progress r now i
step-Progress r (buffered_call ms) now i fits =
    quiet-Alike r (set_buffered_ms r ms) [] (ground arith) (λ t. (refl, refl)) (λ t. refl) refl refl
      i

pub run_from :
    (r : XferReceiver) (calls : List (Call × Instant))
    → IsReceiver r
    → AllFit calls
    → Progress r.rel_state r.rel_released (run r calls)
unfolding run
run_from r [] i fits = nothing r i
run_from r ((call, now) ∷ calls) i (fits, more) =
    let first = step-Progress r call now i fits in
    Progress-⨾ (step r call now) (λ r'. run r' calls) first
      (run_from (step r call now).0 calls first.keeps more)

run-Progress :
    (cfg : ReceiverConfig) (start : Instant) (calls : List (Call × Instant))
    → AllFit calls
    → Progress streaming 0 (run (Receiver.new cfg start) calls)
unfolding Receiver.new
run-Progress cfg start calls fits =
    run_from (Receiver.new cfg start) calls (new-IsReceiver cfg start) fits

-- Over any sequence of packets, timer ticks and buffer reports, given to a new receiver, whose
-- sequence numbers are 32-bit, the frames of the reliable stream come out in the order 1, 2, 3, …
-- without a gap and without a repetition, up to the counter of released frames.
pub run_in_order :
    (cfg : ReceiverConfig) (start : Instant) (calls : List (Call × Instant))
    → AllFit calls
    → reliable_seqs (run (Receiver.new cfg start) calls).1
      ≡ count_up 1 (run (Receiver.new cfg start) calls).0.rel_released
run_in_order cfg start calls fits =
    let p = run-Progress cfg start calls fits in
    let n = (run (Receiver.new cfg start) calls).0.rel_released in
    let e : n - 0 ≡ n = omega arith in p.in_order ∙ ap (count_up 1) e

-- Over any run of a new receiver with 32-bit sequence numbers the reliable stream is either still
-- streaming and no outcome was reported, or exactly one outcome was, and if that was `complete f`,
-- at least `f` frames were released.
pub run_ends_once :
    (cfg : ReceiverConfig) (start : Instant) (calls : List (Call × Instant))
    → AllFit calls
    → let (r, out) = run (Receiver.new cfg start) calls in
      ((r.rel_state ≡ streaming) × (outcomes out ≡ []))
      ⊎ ((r.rel_state ≡ finished)
          × ((o : RelOutcome) × (outcomes out ≡ o ∷ [])
              × ((f : XferSeq) → o ≡ complete f → f ≤ r.rel_released)))
run_ends_once cfg start calls fits =
    let st : Step = run (Receiver.new cfg start) calls in
    let p = run-Progress cfg start calls fits in
    elim (RelState-cases st.0.rel_state) [
      | inl s ↦
          inl (s, subst (λ t. Ending streaming 0 t st.0.rel_released (outcomes st.1)) s p.ending)
      | inr s ↦
          inr (s, subst (λ t. Ending streaming 0 t st.0.rel_released (outcomes st.1)) s p.ending)
    ]

-- Over any run of a new receiver with 32-bit sequence numbers the reorder buffer stays within the
-- budgets of the receiver's configuration: while the stream is open, its bytes are those of the
-- frames it holds and within the byte budget, the released prefix is the tracker's, and the span of
-- numbers within the window; after the stream ended, nothing is held.
pub run_bounded :
    (cfg : ReceiverConfig) (start : Instant) (calls : List (Call × Instant))
    → AllFit calls
    → let r = (run (Receiver.new cfg start) calls).0 in
      (r.rel_state ≡ streaming
        → (r.reorder_bytes ≡ payload_bytes r.reorder)
          × (r.reorder_bytes ≤ r.cfg.max_reorder_bytes)
          × (r.rel_released ≡ r.gaps.contiguous)
          × (r.gaps.highest - r.gaps.contiguous ≤ r.cfg.reorder_window))
      × (r.rel_state ≡ finished → (r.reorder ≡ []) × (r.reorder_bytes ≡ 0) × (r.nacks ≡ []))
run_bounded cfg start calls fits =
    let i = (run-Progress cfg start calls fits).keeps in
    (
      λ s. let o = i.when_open s in (o.counted, o.budget, o.released, o.window),
      λ s. let e = i.when_shut s in (e.emptied, e.no_bytes, e.no_nacks),
    )

abbrev pub if_open {ℓ} : {A : Type ℓ} → RelState → A → A → A
if_open streaming a b = a
if_open finished a b = b
