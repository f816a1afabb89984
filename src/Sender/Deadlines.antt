-- ===== src/Sender/Deadlines.antt =====
-- The deadlines of a sender (protofish4-proto/src/xfer/sender.rs), told from the calls that it got.
use native.Mathlib.Decide.{dec_lt}
use protofish4_rs.Base.{
  inl, inr, ◌+◌, ◌<◌, ◌≡◌, refl, sym, ◌∙◌, List, [], ◌∷◌, Option, none, some, Bool, true, false,
  arith, ◌⊎◌, ◌≢◌,
}
use protofish4_rs.Types.{Instant, Duration}
use protofish4_rs.Frame.{body_data, body_end, body_end_ack, body_ack, body_nack, body_keepalive}
use protofish4_rs.Config.{SenderConfig}
use protofish4_rs.Sender.{
  XferSender, SendEvent, emit, resend, completed, failed, no_ack, finalize_timed_out, streaming,
  expired, finalizing, done, new, push_frame, record_sealed, finish, handle, tick,
}
use protofish4_rs.Sender.Runs.{
  Call, push_call, sealed_call, finish_call, handle_call, tick_call, step, run,
}

-- What the calls so far say: whether the peer was heard, when the first frame was taken, and when the
-- end was declared.
pub record Past : Type 0 where
  pub heard : Bool
  pub first_taken : Option Instant
  pub declared : Option Instant

-- The first of two instants in the order of the calls.
abbrev pub or_else : Option Instant → Instant → Option Instant
or_else none now = some now
or_else (some t) now = some t

-- A frame is taken if its call emits a packet; the peer is heard by an `Ack` or a `Nack`.
abbrev pub note : Past → Call → Instant → List SendEvent → Past
note p (push_call ts payload) now [] = p
note p (push_call ts payload) now (ev ∷ out) = record p { first_taken = or_else p.first_taken now }
note p (sealed_call seq d) now out = p
note p finish_call now out = record p { declared = or_else p.declared now }
note p (handle_call (body_ack contiguous highest ms)) now out = record p { heard = true }
note p (handle_call (body_nack missing)) now out = record p { heard = true }
note p (handle_call (body_data ts payload)) now out = p
note p (handle_call (body_end final_seq)) now out = p
note p (handle_call body_end_ack) now out = p
note p (handle_call (body_keepalive lost_below)) now out = p
note p tick_call now out = p

-- The past after these calls of a sender.
pub past_from : Past → XferSender → List (Call × Instant) → Past
past_from p s [] = p
past_from p s ((c, now) ∷ calls) = past_from (note p c now (step s c now).1) (step s c now).0 calls

abbrev pub past : SenderConfig → List (Call × Instant) → Past
past cfg calls =
    past_from (record { heard = false; first_taken = none; declared = none }) (new cfg) calls

-- What the sender keeps of its past.
pub record Remembers (cfg : SenderConfig) (p : Past) (s : XferSender) : Type 0 where
  pub cfg_is : s.cfg ≡ cfg
  pub heard_is : s.got_ack ≡ p.heard
  pub taken_at : s.first_data_at ≡ p.first_taken
  pub undeclared : s.state ≡ streaming → p.declared ≡ none
  pub declared_at : s.state ≡ finalizing → s.finalize_at ≡ p.declared
  pub dated : s.state ≡ finalizing → p.declared ≢ none

step-Remembers :
    (cfg : SenderConfig) (p : Past) (s : XferSender) (c : Call) (now : Instant)
    → Remembers cfg p s
    → Remembers cfg (note p c now (step s c now).1) (step s c now).0
unfolding step
step-Remembers cfg p s (push_call ts payload) now r = unfold push_frame in ground arith
step-Remembers cfg p s (sealed_call seq d) now r = unfold record_sealed in ground arith
step-Remembers cfg p s finish_call now r = unfold finish in ground arith
step-Remembers cfg p s (handle_call (body_ack c h b)) now r = unfold handle in ground arith
step-Remembers cfg p s (handle_call (body_nack missing)) now r = unfold handle in ground arith
step-Remembers cfg p s (handle_call (body_data ts payload)) now r = unfold handle in ground arith
step-Remembers cfg p s (handle_call (body_end n)) now r = unfold handle in ground arith
step-Remembers cfg p s (handle_call body_end_ack) now r = unfold handle in ground arith
step-Remembers cfg p s (handle_call (body_keepalive n)) now r = unfold handle in ground arith
step-Remembers cfg p s tick_call now r = unfold tick in ground arith

new-Remembers :
    (cfg : SenderConfig)
    → Remembers cfg (record { heard = false; first_taken = none; declared = none }) (new cfg)
unfolding new
new-Remembers cfg = ground arith

run-Remembers :
    (cfg : SenderConfig) (p : Past) (s : XferSender) (calls : List (Call × Instant))
    → Remembers cfg p s
    → Remembers cfg (past_from p s calls) (run s calls).0
unfolding run past_from
run-Remembers cfg p s [] r = r
run-Remembers cfg p s ((c, now) ∷ calls) r =
    run-Remembers cfg (note p c now (step s c now).1) (step s c now).0 calls
      (step-Remembers cfg p s c now r)

-- That long after that instant.
abbrev pub Overdue : Option Instant → Instant → Instant → Type 0
Overdue at limit now = (start : Instant) × (at ≡ some start) × (start + limit < now)

-- A frame was taken longer than `first_ack_timeout` ago, and the peer was not heard.
abbrev pub Unheard : SenderConfig → Past → Instant → Type 0
Unheard cfg p now = (p.heard ≡ false) × Overdue p.first_taken cfg.first_ack_timeout now

-- The end was declared longer than `finalize_timeout` ago.
abbrev pub Unfinished : SenderConfig → Past → Instant → Type 0
Unfinished cfg p now = Overdue p.declared cfg.finalize_timeout now

abbrev pub NoFailure : List SendEvent → Type 0
NoFailure [] = Unit
NoFailure (failed why ∷ out) = ⊥
NoFailure (emit seq body ∷ out) = NoFailure out
NoFailure (resend ds ∷ out) = NoFailure out
NoFailure (completed ∷ out) = NoFailure out

-- How a tick ends: with one failure of the two, and then the sender is done, or with none.
abbrev pub Ticked : SenderConfig → Past → XferSender → Instant → Type 0
Ticked cfg p s now =
    ((s.state ≢ done)
      × Unheard cfg p now
      × ((tick s now).1 ≡ failed no_ack ∷ [])
      × ((tick s now).0.state ≡ done))
    ⊎ (((s.state ≡ finalizing)
          × (¬ Unheard cfg p now)
          × Unfinished cfg p now
          × ((tick s now).1 ≡ failed finalize_timed_out ∷ [])
          × ((tick s now).0.state ≡ done))
        ⊎ (NoFailure (tick s now).1
            × ((tick s now).0.state ≡ s.state)
            × ((s.state ≡ done)
                ⊎ ((¬ Unheard cfg p now) × ((s.state ≡ finalizing) → ¬ Unfinished cfg p now)))))

not-Overdue :
    (t now : Instant) (limit : Duration) → ¬ t + limit < now → ¬ Overdue (some t) limit now
not-Overdue t now limit early (start, same, late) = early (ground arith)

pub expired-cases :
    (at : Option Instant) (now : Instant) (limit : Duration)
    → ((expired at now limit ≡ true) × Overdue at limit now)
      ⊎ ((expired at now limit ≡ false) × (¬ Overdue at limit now))
expired-cases none now limit = inr (refl, λ o. let e = o.1 in cc)
expired-cases (some t) now limit = elim (dec_lt (t + limit) now) [
  | yes late ↦ inl (ground arith, (t, refl, late))
  | no early ↦ inr (ground arith, not-Overdue t now limit early)
]

-- The past as the sender itself keeps it.
abbrev own : XferSender → Past
own s = record { heard = s.got_ack; first_taken = s.first_data_at; declared = s.finalize_at }

own-Ticked : (s : XferSender) (now : Instant) → Ticked s.cfg (own s) s now
unfolding tick
own-Ticked s now = elim (expired-cases s.first_data_at now s.cfg.first_ack_timeout) [
  | inl (e, late) ↦ elim (expired-cases s.finalize_at now s.cfg.finalize_timeout) [
    | inl (f, late') ↦ ground arith
    | inr (f, early') ↦ ground arith
  ]
  | inr (e, early) ↦ elim (expired-cases s.finalize_at now s.cfg.finalize_timeout) [
    | inl (f, late') ↦ ground arith
    | inr (f, early') ↦ ground arith
  ]
]

module _ (cfg : SenderConfig) (p : Past) (s : XferSender) (now : Instant)
    (r : Remembers cfg p s) where
  Unheard-told : Unheard s.cfg (own s) now → Unheard cfg p now
  Unheard-told (quiet, (start, taken, late)) =
      (sym r.heard_is ∙ quiet, (start, sym r.taken_at ∙ taken, rw (← r.cfg_is) late))

  Unheard-own : Unheard cfg p now → Unheard s.cfg (own s) now
  Unheard-own (quiet, (start, taken, late)) =
      (r.heard_is ∙ quiet, (start, r.taken_at ∙ taken, rw r.cfg_is late))

  Unfinished-told : s.state ≡ finalizing → Unfinished s.cfg (own s) now → Unfinished cfg p now
  Unfinished-told h (start, at, late) = (start, sym (r.declared_at h) ∙ at, rw (← r.cfg_is) late)

  Unfinished-own : s.state ≡ finalizing → Unfinished cfg p now → Unfinished s.cfg (own s) now
  Unfinished-own h (start, at, late) = (start, r.declared_at h ∙ at, rw r.cfg_is late)

  told-Ticked : Ticked cfg p s now
  told-Ticked = elim (own-Ticked s now) [
    | inl (live, unheard, failed_so, over) ↦ inl (live, Unheard-told unheard, failed_so, over)
    | inr (inl (waits, heard, late, failed_so, over)) ↦
        inr (inl (waits, λ u. heard (Unheard-own u), Unfinished-told waits late, failed_so, over))
    | inr (inr (quiet, same, inl over)) ↦ inr (inr (quiet, same, inl over))
    | inr (inr (quiet, same, inr (heard, early))) ↦
        inr
          (inr (quiet, same, inr (λ u. heard (Unheard-own u), λ h u. early h (Unfinished-own h u))))
  ]

-- A tick of a sender that any calls led to, told from what they were. Unless it is done it fails with
-- `NoAck` exactly if a frame was taken more than `first_ack_timeout` ago and no `Ack` and no `Nack`
-- came since the start. Otherwise it fails with `FinalizeTimeout` exactly if it is finalizing and its
-- end was declared more than `finalize_timeout` ago. Such a failure is the only event of the tick and
-- leaves the sender done; a tick without one leaves its state as it was.
pub tick_deadlines :
    (cfg : SenderConfig) (calls : List (Call × Instant)) (now : Instant)
    → Ticked cfg (past cfg calls) (run (new cfg) calls).0 now
tick_deadlines cfg calls now = told-Ticked cfg (past cfg calls) (run (new cfg) calls).0 now (
    run-Remembers cfg (record { heard = false; first_taken = none; declared = none }) (new cfg)
      calls (new-Remembers cfg))
