-- ===== src/Runtime/Entry/Following.antt =====
-- An `Entry` of protofish4/src/receiver.rs beside the protocol's receiver
-- (protofish4-proto/src/xfer/receiver.rs) inside it, over any calls.
use protofish4_rs.Base.{◌≡◌, refl, sym, ap, ◌∙◌, subst, List, [], ◌∷◌, ◌++◌, Bool}
use protofish4_rs.Types.{Instant, UuidApi}
use protofish4_rs.Crypto.{AeadApi}
use protofish4_rs.Receiver
use protofish4_rs.Receiver.{
  XferReceiver, RecvEvent, unreliable, reliable, send_nack, send_ack, send_end_ack, rel_finished,
  closed_event,
}
use protofish4_rs.Receiver.Events.{outcomes, outcomes-append}
use protofish4_rs.Receiver.Runs
use protofish4_rs.Runtime.Entry.{
  World, Entry, Applied, apply, on_packet, on_tick, on_report, learn_peer,
}
use protofish4_rs.Runtime.Entry.Runs.{
  Call, packet_call, tick_call, report_call, receiver_calls, IsOpen, AllOpen, told_outcomes,
  told_outcomes-append, first_if, still_there, first_if-append, first_if_nil, still_there-append,
  step, run,
}
use protofish4_rs.Runtime.Entry.Applying.{apply_from-Applies}
use protofish4_rs.Runtime.Entry.Shown.{
  stored_frames, released_frames, Shows, stored_frames-append, released_frames-append, Shows-append,
  apply_from-Shows, apply_from-stored,
}

module _ {Uuid Key Addr : Type 0} (uuid : UuidApi Uuid) (aead : AeadApi Key) where
  -- An entry after some calls, beside the receiver after its share of them.
  pub record RunsTo (e : Entry Key Addr) (s : Receiver.Step) (r : Applied Key Addr) (O : Type 0)
      : Type 0 where
    pub state : r.0.state ≡ s.0
    pub key : r.0.key ≡ e.key
    pub outcome : told_outcomes r.1 ≡ first_if e.outcome_tx (outcomes s.1)
    pub taken : r.0.outcome_tx ≡ still_there e.outcome_tx (outcomes s.1)
    pub stored_all : O → stored_frames r.1 ≡ released_frames s.1
    pub shows : Shows r.1 s.1

  RunsTo-append :
      (e : Entry Key Addr) (s t : Receiver.Step) (r q : Applied Key Addr) {O P : Type 0}
      → RunsTo e s r O
      → RunsTo r.0 t q P
      → RunsTo e (t.0, s.1 ++ t.1) (q.0, r.1 ++ q.1, r.2 ++ q.2) (O × P)
  RunsTo-append e s t r q a b = record {
    state = b.state;
    key = b.key ∙ a.key;
    outcome =
        told_outcomes-append r.1 q.1
        ∙ rw (a.outcome, b.outcome, a.taken, outcomes-append s.1 t.1)
            (sym (first_if-append e.outcome_tx (outcomes s.1) (outcomes t.1)));
    taken =
        rw (b.taken, a.taken, outcomes-append s.1 t.1)
          (sym (still_there-append e.outcome_tx (outcomes s.1) (outcomes t.1)));
    stored_all = λ h.
        stored_frames-append r.1 q.1
        ∙ rw (a.stored_all h.0, b.stored_all h.1) (sym (released_frames-append s.1 t.1));
    shows = Shows-append r.1 q.1 s.1 t.1 a.shows b.shows;
  }

  -- Applying the events of a step of the receiver.
  apply-RunsTo :
      (e e' : Entry Key Addr) (id : Uuid) (s : Receiver.Step) (w : World)
      → e'.state ≡ s.0
      → e'.key ≡ e.key
      → e'.outcome_tx ≡ e.outcome_tx
      → RunsTo e s (apply uuid aead e' id s.1 w) (IsOpen w)
  unfolding apply
  apply-RunsTo e e' id s w a b c =
      let p = apply_from-Applies uuid aead e' id s.1 w 0 in
      record {
        state = p.state ∙ a;
        key = p.key ∙ b;
        outcome = p.outcome ∙ ap (λ (b : Bool). first_if b (outcomes s.1)) c;
        taken = p.taken ∙ ap (λ (b : Bool). still_there b (outcomes s.1)) c;
        stored_all = λ h. apply_from-stored uuid aead e' id s.1 w 0 h;
        shows = apply_from-Shows uuid aead e' id s.1 w 0;
      }

  pub run-RunsTo :
      (e : Entry Key Addr) (id : Uuid) (calls : List (Call Addr × Instant))
      → RunsTo e
          (Runs.run e.state (receiver_calls calls))
          (run uuid aead e id calls)
          (AllOpen calls)
  unfolding run Runs.run step Runs.step on_packet on_tick
  run-RunsTo e id [] = record {
    state = refl;
    key = refl;
    outcome = sym (first_if_nil e.outcome_tx);
    taken = refl;
    stored_all = λ h. refl;
    shows = λ f h. h;
  }
  run-RunsTo e id ((packet_call seq body from w, now) ∷ calls) =
      let s : Receiver.Step = Receiver.handle e.state seq body now in
      let e' : Entry Key Addr = record e { peer = learn_peer e.peer from; state = s.0 } in
      let r : Applied Key Addr = apply uuid aead e' id s.1 w in
      let q : Applied Key Addr = run uuid aead r.0 id calls in
      let first : RunsTo e s r (IsOpen w) = apply-RunsTo e e' id s w refl refl refl in
      let rest : RunsTo r.0 (Runs.run s.0 (receiver_calls calls)) q (AllOpen calls) =
        subst
          (λ (t : XferReceiver). RunsTo r.0 (Runs.run t (receiver_calls calls)) q (AllOpen calls))
          first.state (run-RunsTo r.0 id calls) in
      RunsTo-append e s (Runs.run s.0 (receiver_calls calls)) r q first rest
  run-RunsTo e id ((tick_call w, now) ∷ calls) =
      let s : Receiver.Step = Receiver.tick e.state now in
      let e' : Entry Key Addr = record e { state = s.0 } in
      let r : Applied Key Addr = apply uuid aead e' id s.1 w in
      let q : Applied Key Addr = run uuid aead r.0 id calls in
      let first : RunsTo e s r (IsOpen w) = apply-RunsTo e e' id s w refl refl refl in
      let rest : RunsTo r.0 (Runs.run s.0 (receiver_calls calls)) q (AllOpen calls) =
        subst
          (λ (t : XferReceiver). RunsTo r.0 (Runs.run t (receiver_calls calls)) q (AllOpen calls))
          first.state (run-RunsTo r.0 id calls) in
      RunsTo-append e s (Runs.run s.0 (receiver_calls calls)) r q first rest
  run-RunsTo e id ((report_call ms, now) ∷ calls) =
      let rest = run-RunsTo (on_report uuid aead e ms now) id calls in
      record {
        state = rest.state;
        key = rest.key;
        outcome = rest.outcome;
        taken = rest.taken;
        stored_all = rest.stored_all;
        shows = rest.shows;
      }
