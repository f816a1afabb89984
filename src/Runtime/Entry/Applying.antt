-- ===== src/Runtime/Entry/Applying.antt =====
-- What `Endpoint::apply` of protofish4/src/receiver.rs does with a list of events.
use protofish4_rs.Base.{ℕ, suc, ◌≡◌, refl, sym, ◌∙◌, List, [], ◌∷◌, ◌++◌, Option, none, some, arith}
use protofish4_rs.Types.{UuidApi}
use protofish4_rs.Crypto.{AeadApi}
use protofish4_rs.Receiver.{
  RecvEvent, unreliable, reliable, send_nack, send_ack, send_end_ack, rel_finished, closed_event,
}
use protofish4_rs.Receiver.Events.{outcomes, outcomes-append}
use protofish4_rs.Runtime.Entry.{
  World, Entry, Applied, note_drop, reply_if, take_outcome, seal_body, apply_event, apply_from,
  apply,
}
use protofish4_rs.Runtime.Entry.Runs.{
  told_outcomes, told_outcomes-append, first_if, still_there, first_if-append, first_if_nil,
  still_there-append,
}

module _ {Uuid Key Addr : Type 0} (uuid : UuidApi Uuid) (aead : AeadApi Key) where
  -- What applying events says of the channels.
  pub record Applies (e : Entry Key Addr) (events : List RecvEvent) (r : Applied Key Addr)
      : Type 0 where
    pub state : r.0.state ≡ e.state
    pub key : r.0.key ≡ e.key
    pub peer : r.0.peer ≡ e.peer
    pub outcome : told_outcomes r.1 ≡ first_if e.outcome_tx (outcomes events)
    pub taken : r.0.outcome_tx ≡ still_there e.outcome_tx (outcomes events)

  reply_if-Applies :
      (e e' : Entry Key Addr) (o : Option (List ℕ)) (ev : RecvEvent)
      → outcomes (ev ∷ []) ≡ []
      → e'.state ≡ e.state
      → e'.key ≡ e.key
      → e'.peer ≡ e.peer
      → e'.outcome_tx ≡ e.outcome_tx
      → Applies e (ev ∷ []) (reply_if (e', o))
  reply_if-Applies e e' none ev h a b c d = record {
    state = a;
    key = b;
    peer = c;
    outcome = rw h (sym (first_if_nil e.outcome_tx));
    taken = rw h d;
  }
  reply_if-Applies e e' (some x) ev h a b c d = record {
    state = a;
    key = b;
    peer = c;
    outcome = rw h (sym (first_if_nil e.outcome_tx));
    taken = rw h d;
  }

  apply_event-Applies :
      (e : Entry Key Addr) (id : Uuid) (ev : RecvEvent) (w : World) (i : ℕ)
      → Applies e (ev ∷ []) (apply_event uuid aead e id ev w i)
  unfolding apply_event note_drop take_outcome seal_body
  apply_event-Applies e id (unreliable f) w i = ground (arith, first_if_nil e.outcome_tx)
  apply_event-Applies e id (reliable f) w i = ground (arith, first_if_nil e.outcome_tx)
  apply_event-Applies e id (send_nack m) w i =
      reply_if-Applies e _ _ (send_nack m) refl refl refl refl refl
  apply_event-Applies e id (send_ack c h b) w i =
      reply_if-Applies e _ _ (send_ack c h b) refl refl refl refl refl
  apply_event-Applies e id send_end_ack w i =
      reply_if-Applies e _ _ send_end_ack refl refl refl refl refl
  apply_event-Applies e id (rel_finished o) w i = ground arith
  apply_event-Applies e id closed_event w i = ground (arith, first_if_nil e.outcome_tx)

  pub Applies-append :
      (e : Entry Key Addr) (xs ys : List RecvEvent) (r q : Applied Key Addr)
      → Applies e xs r
      → Applies r.0 ys q
      → Applies e (xs ++ ys) (q.0, r.1 ++ q.1, r.2 ++ q.2)
  Applies-append e xs ys r q a b = record {
    state = b.state ∙ a.state;
    key = b.key ∙ a.key;
    peer = b.peer ∙ a.peer;
    outcome =
        told_outcomes-append r.1 q.1
        ∙ rw (a.outcome, b.outcome, a.taken, outcomes-append xs ys)
            (sym (first_if-append e.outcome_tx (outcomes xs) (outcomes ys)));
    taken =
        rw (b.taken, a.taken, outcomes-append xs ys)
          (sym (still_there-append e.outcome_tx (outcomes xs) (outcomes ys)));
  }

  pub apply_from-Applies :
      (e : Entry Key Addr) (id : Uuid) (events : List RecvEvent) (w : World) (i : ℕ)
      → Applies e events (apply_from uuid aead e id events w i)
  unfolding apply_from
  apply_from-Applies e id [] w i = record {
    state = refl;
    key = refl;
    peer = refl;
    outcome = sym (first_if_nil e.outcome_tx);
    taken = refl;
  }
  apply_from-Applies e id (ev ∷ events) w i =
      let r : Applied Key Addr = apply_event uuid aead e id ev w i in
      let q : Applied Key Addr = apply_from uuid aead r.0 id events w (suc i) in
      Applies-append e (ev ∷ []) events r q (apply_event-Applies e id ev w i)
        (apply_from-Applies r.0 id events w (suc i))

  pub apply-state :
      (e : Entry Key Addr) (id : Uuid) (events : List RecvEvent) (w : World)
      → (apply uuid aead e id events w).0.state ≡ e.state
  unfolding apply
  apply-state e id events w = (apply_from-Applies e id events w 0).state
