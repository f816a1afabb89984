-- ===== src/Runtime/Entry/Streams.antt =====
-- What an entry of protofish4/src/receiver.rs puts on the channels of `Streams` over a run.
use protofish4_rs.Base.{
  ◌≤◌, ◌≡◌, refl, sym, ap, ◌∙◌, ◌⊎◌, inl, inr, List, [], ◌∷◌, map, true, arith, count_up,
}
use protofish4_rs.Types.{XferSeq, Instant, RelOutcome, complete, UuidApi}
use protofish4_rs.Crypto.{AeadApi}
use protofish4_rs.Config.{ReceiverConfig}
use protofish4_rs.Receiver
use protofish4_rs.Receiver.{XferReceiver, streaming, finished}
use protofish4_rs.Receiver.Events.{outcomes}
use protofish4_rs.Receiver.Runs
use protofish4_rs.Receiver.Runs.{AllFit}
use protofish4_rs.Receiver.Delivery.{run_in_order, run_ends_once}
use protofish4_rs.Runtime.Entry.{Frame, Applied, armed}
use protofish4_rs.Runtime.Entry.Shown.{stored_seqs_lem, reliable_seqs_lem}
use protofish4_rs.Runtime.Entry.Runs.{
  Call, receiver_calls, AllOpen, stored_seqs, told_outcomes, first_if, run,
}
use protofish4_rs.Runtime.Entry.Following.{RunsTo, run-RunsTo}

pub told_armed :
    (Key Addr : Type 0) (key : Key) (cfg : ReceiverConfig) (start : Instant) (os : List RelOutcome)
    → first_if (armed {Addr = Addr} key cfg start).outcome_tx os ≡ first_if true os
unfolding armed
told_armed Key Addr key cfg start os = refl

module _ {Uuid Key Addr : Type 0} (uuid : UuidApi Uuid) (aead : AeadApi Key) where
  pub from_armed :
      (key : Key) (cfg : ReceiverConfig) (start : Instant) (id : Uuid)
      (calls : List (Call Addr × Instant))
      → RunsTo uuid aead
          (armed key cfg start)
          (Runs.run (Receiver.new cfg start) (receiver_calls calls))
          (run uuid aead (armed key cfg start) id calls)
          (AllOpen calls)
  unfolding armed
  from_armed key cfg start id calls = run-RunsTo uuid aead (armed key cfg start) id calls

  -- Over any packets with 32-bit numbers, ticks and reports that reach an entry since it was armed,
  -- while the application holds the reliable channel open: the frames on that channel are numbered
  -- 1, 2, 3, … without a gap or a repetition, and the outcome was sent once if the stream ended, not
  -- at all if it did not, and if it was `complete f`, at least `f` frames were released.
  pub entry_delivers :
      (key : Key) (cfg : ReceiverConfig) (start : Instant) (id : Uuid)
      (calls : List (Call Addr × Instant))
      → AllFit (receiver_calls calls)
      → AllOpen calls
      → let (e, ds, out) = run uuid aead (armed key cfg start) id calls in
        (stored_seqs ds ≡ count_up 1 e.state.rel_released)
        × (((e.state.rel_state ≡ streaming) × (told_outcomes ds ≡ []))
            ⊎ ((e.state.rel_state ≡ finished)
                × ((o : RelOutcome) × (told_outcomes ds ≡ o ∷ [])
                    × ((f : XferSeq) → o ≡ complete f → f ≤ e.state.rel_released))))
  entry_delivers key cfg start id calls fits opened =
      let s : Receiver.Step = Runs.run (Receiver.new cfg start) (receiver_calls calls) in
      let r : Applied Key Addr = run uuid aead (armed key cfg start) id calls in
      let p = from_armed key cfg start id calls in
      let released : s.0.rel_released ≡ r.0.state.rel_released =
        ap (λ (x : XferReceiver). x.rel_released) (sym p.state) in
      let state : r.0.state.rel_state ≡ s.0.rel_state =
        ap (λ (x : XferReceiver). x.rel_state) p.state in
      let said : told_outcomes r.1 ≡ first_if true (outcomes s.1) =
        p.outcome ∙ told_armed Key Addr key cfg start (outcomes s.1) in
      (
        stored_seqs_lem r.1
            ∙ ap (map (λ (f : Frame). f.seq)) (p.stored_all opened)
            ∙ sym (reliable_seqs_lem s.1)
            ∙ run_in_order cfg start (receiver_calls calls) fits
            ∙ ap (count_up 1) released,
        elim (run_ends_once cfg start (receiver_calls calls) fits) [
          | inl (a, b) ↦ inl (state ∙ a, said ∙ ap (first_if true) b)
          | inr (a, (o, b, c)) ↦
              inr
                (state ∙ a, (o, said ∙ ap (first_if true) b, λ f h. omega (arith, released, c f h)))
        ],
      )
