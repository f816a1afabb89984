-- ===== src/Runtime/Tap/Waiting.antt =====
-- How `finish` of protofish4/src/sender.rs waits and what ends it.
use protofish4_rs.Base.{
  ℕ, ◌+◌, ◌≤◌, ◌<◌, ◌≡◌, false, sym, refl, ap, ◌∙◌, ◌⊎◌, inl, inr, List, [], ◌∷◌, Option, none,
  some, ok, err, arith, All, Any, subst,
}
use protofish4_rs.Types.{Instant, Duration, UuidApi}
use protofish4_rs.Crypto.{AeadApi}
use protofish4_rs.Sender as Xfer
use protofish4_rs.Sender.{
  XferSender, SendEvent, emit, resend, completed, failed, streaming, finalizing, done,
}
use protofish4_rs.Sender.Runs.{to_list}
use protofish4_rs.Runtime.Failure.{Error, no_ack, finalize_timeout, Fallible}
use protofish4_rs.Runtime.Tap.{Sender, Step, Turn, dispatch_from, pump_once, wait_done, finish}
use protofish4_rs.Runtime.Tap.Dispatching.{Kept, Breaks, dispatch-Kept, dispatch-Goes}
use protofish4_rs.Runtime.Tap.Declared.{Steady, Waits, finish-Steady, finish_streaming}
use protofish4_rs.Runtime.Tap.Turns.{Waits-Kept, turn_cases}
use protofish4_rs.Runtime.Tap.Answered.{Answers, Confirms, TurnBreaks, Follows}
use protofish4_rs.Sender.Deadlines.{Overdue}
use protofish4_rs.Config.{SenderConfig}

module _ {Uuid Key Io : Type 0} (uuid : UuidApi Uuid) (aead : AeadApi Key) where
  -- In some turn the timers ran more than that long after that instant, and no turn up to it brought
  -- an `Ack` or a `Nack` that opened under the key.
  abbrev pub Unanswered : Key → Option Instant → Duration → List (Turn Io) → Type 0
  Unanswered key at limit [] = ⊥
  Unanswered key at limit (t ∷ turns) =
      (¬ Answers uuid aead key t) × (Overdue at limit t.ticked_at ⊎ Unanswered key at limit turns)

  -- Two taps that agree on what a failure is told from.
  Unanswered-same :
      (turns : List (Turn Io)) {key key' : Key} {at at' : Option Instant} {limit limit' : Duration}
      → key' ≡ key
      → at' ≡ at
      → limit' ≡ limit
      → Unanswered key' at' limit' turns
      → Unanswered key at limit turns
  Unanswered-same turns k a l u = rw (← k, ← a, ← l) u

module _ {Uuid Key Addr : Type 0} where
  first_ack_limit :
      (s p : Sender Uuid Key Addr)
      → p.state.cfg ≡ s.state.cfg
      → p.state.cfg.first_ack_timeout ≡ s.state.cfg.first_ack_timeout
  first_ack_limit s p same = ap (λ (c : SenderConfig). c.first_ack_timeout) same

  -- What a tap that declares its end leaves as it is.
  record Agrees (s p : Sender Uuid Key Addr) : Type 0 where
    key : p.key ≡ s.key
    peer : p.peer ≡ s.peer
    request_id : p.request_id ≡ s.request_id
    cfg : p.state.cfg ≡ s.state.cfg
    first_data_at : p.state.first_data_at ≡ s.state.first_data_at
    unheard : p.state.got_ack ≡ false → s.state.got_ack ≡ false

  declared :
      (s : Sender Uuid Key Addr) (x : XferSender) (p : Sender Uuid Key Addr)
      → Steady s.state x
      → Kept (record s { state = x }) p
      → Agrees s p
  declared s x p steady k = record {
    key = k.key;
    peer = k.peer;
    request_id = k.request_id;
    cfg = k.cfg ∙ steady.cfg;
    first_data_at = k.first_data_at ∙ steady.first_data_at;
    unheard = λ h. steady.unheard (sym k.got_ack ∙ h);
  }

module _ {Uuid Key Addr Io : Type 0} (uuid : UuidApi Uuid) (aead : AeadApi Key) where
  -- Why a wait ended with an error, after these turns.
  abbrev pub GivesUp :
      Instant → Duration → Sender Uuid Key Addr → List (Turn Io) → Error Uuid Addr Io → Type 0
  GivesUp start limit s turns e =
      ((e ≡ finalize_timeout) × Any (λ (t : Turn Io). start + limit < t.ticked_at) turns)
      ⊎ (((e ≡ no_ack s.peer)
            × (s.state.got_ack ≡ false)
            × Unanswered uuid aead s.key s.state.first_data_at s.state.cfg.first_ack_timeout turns)
          ⊎ Any (λ (t : Turn Io). TurnBreaks uuid aead s.key s.request_id t e) turns)

  wait_done-done :
      (turns : List (Turn Io)) (s : Sender Uuid Key Addr)
      → s.state.state ≡ done
      → (wait_done uuid aead turns s).2 ≡ some (ok tt)
  unfolding wait_done
  wait_done-done [] s h = rw h refl
  wait_done-done (t ∷ turns) s h = rw h refl

  -- How far a wait got with these turns.
  abbrev pub Waited :
      Instant
      → Duration
      → Sender Uuid Key Addr
      → List (Turn Io)
      → Option (Fallible Uuid Addr Io Unit)
      → Type 0
  Waited start limit s turns answer =
      ((answer ≡ none) × All (λ (t : Turn Io). t.ticked_at ≤ start + limit) turns)
      ⊎ (((e : Error Uuid Addr Io) × (answer ≡ some (err e)) × GivesUp start limit s turns e)
          ⊎ ((answer ≡ some (ok tt)) × Any (Confirms uuid aead s.key) turns))

  Any-TurnBreaks-same :
      (turns : List (Turn Io)) (e : Error Uuid Addr Io) {key key' : Key} {id id' : Uuid}
      → key' ≡ key
      → id' ≡ id
      → Any (λ (t : Turn Io). TurnBreaks uuid aead key' id' t e) turns
      → Any (λ (t : Turn Io). TurnBreaks uuid aead key id t e) turns
  Any-TurnBreaks-same turns e k n broken = rw (← k, ← n) broken

  -- The wait that a turn goes before.
  Waited-next :
      (start : Instant) (limit : Duration) (s p : Sender Uuid Key Addr) (t : Turn Io)
      (turns : List (Turn Io)) (answer : Option (Fallible Uuid Addr Io Unit))
      → t.ticked_at ≤ start + limit
      → Follows uuid aead s t p
      → Waited start limit p turns answer
      → Waited start limit s (t ∷ turns) answer
  Waited-next start limit s p t turns answer early f w = elim w [
    | inl (q, all) ↦ inl (q, (early, all))
    | inr (inl (e, q, inl (late, past))) ↦ inr (inl (e, q, inl (late, inr past)))
    | inr (inl (e, q, inr (inl (is, quiet, silent)))) ↦ inr (
        inl (
          e,
          q,
          inr (
              inl (
                is ∙ ap no_ack f.peer,
                (f.unheard quiet).0,
                (
                  (f.unheard quiet).1,
                  inr (
                      Unanswered-same uuid aead turns f.key f.first_data_at
                        (first_ack_limit s p f.cfg) silent),
                ),
              )),
        ))
    | inr (inl (e, q, inr (inr broken))) ↦
        inr (inl (e, q, inr (inr (inr (Any-TurnBreaks-same turns e f.key f.request_id broken)))))
    | inr (inr (q, confirmed)) ↦
        inr (inr (q, inr (subst (λ (k : Key). Any (Confirms uuid aead k) turns) f.key confirmed)))
  ]

  wait_cases :
      (start : Instant) (limit : Duration) (s : Sender Uuid Key Addr) (turns : List (Turn Io))
      → Waits start limit s.state
      → Waited start limit s turns (wait_done uuid aead turns s).2
  unfolding wait_done
  wait_cases start limit s [] w = rw w.state (inl (refl, tt))
  wait_cases start limit s (t ∷ turns) w =
      let p : Step Uuid Key Addr Io = pump_once uuid aead s t in
      rw (ap Xfer.is_finished w.state, wait_done)
        (elim (turn_cases uuid aead start limit s t w) [
          | inl (e, q, inl (late, past)) ↦ rw q (inr (inl (e, refl, inl (late, inl past))))
          | inl (e, q, inr (inl (is, quiet, silent, late))) ↦
              rw q (inr (inl (e, refl, inr (inl (is, quiet, (silent, inl late))))))
          | inl (e, q, inr (inr broken)) ↦ rw q (inr (inl (e, refl, inr (inr (inl broken)))))
          | inr (fine, inl (f, w', early)) ↦ rw fine (
              Waited-next start limit s p.0 t turns _ early f (wait_cases start limit p.0 turns w'))
          | inr (fine, inr (over, confirmed)) ↦
              rw fine (inr (inr (wait_done-done turns p.0 over, inl confirmed)))
        ])

  Waited-same :
      (start : Instant) (limit : Duration) (s p : Sender Uuid Key Addr) (turns : List (Turn Io))
      (answer : Option (Fallible Uuid Addr Io Unit))
      → Agrees s p
      → Waited start limit p turns answer
      → Waited start limit s turns answer
  Waited-same start limit s p turns answer f w = elim w [
    | inl waits ↦ inl waits
    | inr (inl (e, q, inl late)) ↦ inr (inl (e, q, inl late))
    | inr (inl (e, q, inr (inl (is, quiet, silent)))) ↦ inr (
        inl (
          e,
          q,
          inr (
              inl (
                is ∙ ap no_ack f.peer,
                f.unheard quiet,
                Unanswered-same uuid aead turns f.key f.first_data_at (first_ack_limit s p f.cfg)
                    silent,
              )),
        ))
    | inr (inl (e, q, inr (inr broken))) ↦
        inr (inl (e, q, inr (inr (Any-TurnBreaks-same turns e f.key f.request_id broken))))
    | inr (inr (q, confirmed)) ↦
        inr (inr (q, subst (λ (k : Key). Any (Confirms uuid aead k) turns) f.key confirmed))
  ]

  -- `finish` of a tap that is streaming waits only as long as no turn's timers ran more than
  -- `finalize_timeout` after the call. It fails with `FinalizeTimeout` only after such a turn; with
  -- `NoAck`, for its peer, only if its state machine had heard no `Ack` and no `Nack` before the
  -- call and none that opens under the key came in the turns up to one whose timers ran more than
  -- `first_ack_timeout` after the instant noted for the first frame; and otherwise only with what
  -- sealing, one of its sends or a receive of one of its turns failed with. It returns well only
  -- after an `EndAck` that opened under the key of the transfer.
  pub finish_lem :
      (s : Sender Uuid Key Addr) (now : Instant) (sends : ℕ → Option Io) (turns : List (Turn Io))
      → s.state.state ≡ streaming
      → let answer = (finish uuid aead s now sends turns).2 in
        Waited now s.state.cfg.finalize_timeout s turns answer
        ⊎ ((e : Error Uuid Addr Io) × (answer ≡ some (err e))
            × Breaks uuid aead s.key s.request_id sends e)
  unfolding finish
  finish_lem s now sends turns h =
      let x : XferSender = (Xfer.finish s.state now).0 in
      let events : List SendEvent = to_list (Xfer.finish s.state now).1 in
      let p : Step Uuid Key Addr Io =
        dispatch_from uuid aead (record s { state = x }) events sends 0 in
      let k = dispatch-Kept uuid aead (record s { state = x }) events sends 0 in
      let limit : Duration = s.state.cfg.finalize_timeout in
      let (w, quiet) = finish_streaming s.state now h in
      elim (dispatch-Goes uuid aead s.key s.request_id (record s { state = x }) events sends 0 refl
        refl quiet) [
          | inr (e, q, broken) ↦ rw q (inr (e, refl, broken))
          | inl fine ↦ rw fine (
              inl (
                Waited-same now limit s p.0 turns _ (declared s x p.0 (finish-Steady s.state now) k)
                  (wait_cases now limit p.0 turns
                    (Waits-Kept now limit (record s { state = x }) p.0 k w))))
        ]

  -- If the timers of a turn run more than `finalize_timeout` after the call, `finish` of a tap that
  -- is streaming has returned by then, whatever the network did.
  pub finish_ends :
      (s : Sender Uuid Key Addr) (now : Instant) (sends : ℕ → Option Io) (turns : List (Turn Io))
      → s.state.state ≡ streaming
      → Any (λ (t : Turn Io). now + s.state.cfg.finalize_timeout < t.ticked_at) turns
      → (answer : Fallible Uuid Addr Io Unit) × ((finish uuid aead s now sends turns).2
          ≡ some answer)
  finish_ends s now sends turns h late = elim (finish_lem s now sends turns h) [
    | inl (inl (q, early)) ↦
        absurd (all_early (now + s.state.cfg.finalize_timeout) turns early late)
    | inl (inr (inl (e, q, why))) ↦ (err e, q)
    | inl (inr (inr (q, confirmed))) ↦ (ok tt, q)
    | inr (e, q, broken) ↦ (err e, q)
  ]
    where
      all_early :
          (limit : Instant) (turns : List (Turn Io))
          → All (λ (t : Turn Io). t.ticked_at ≤ limit) turns
          → Any (λ (t : Turn Io). limit < t.ticked_at) turns
          → ⊥
      all_early limit [] early late = late
      all_early limit (t ∷ turns) (here, rest) (inl past) = omega arith
      all_early limit (t ∷ turns) (here, rest) (inr later) = all_early limit turns rest later
