-- ===== src/Runtime/Tap/Declared.antt =====
-- The events of a sender (protofish4-proto/src/xfer/sender.rs) that declared its end.
use protofish4_rs.Base.{
  ℕ, ◌+◌, ◌≤◌, ◌<◌, ◌≡◌, refl, ◌⊎◌, inl, inr, List, [], ◌∷◌, some, false, arith,
}
use protofish4_rs.Types.{Instant, Duration}
use protofish4_rs.Frame.{
  Body, body_data, body_end, body_end_ack, body_ack, body_nack, body_keepalive,
}
use protofish4_rs.Sender as Xfer
use protofish4_rs.Sender.{
  XferSender, SendEvent, emit, resend, completed, failed, streaming, finalizing, done,
  held_datagrams, resend_if_any,
}
use protofish4_rs.Sender.Runs.{to_list}
use protofish4_rs.Sender.Deadlines.{Overdue, expired-cases}
use protofish4_rs.Runtime.Tap.Dispatching.{NoFail}

-- A sender that declared the end at `start` and allows `limit` for the answer.
pub record Waits (start : Instant) (limit : Duration) (x : XferSender) : Type 0 where
  pub state : x.state ≡ finalizing
  pub finalize_at : x.finalize_at ≡ some start
  pub limit_is : x.cfg.finalize_timeout ≡ limit

pub NoFail-resend : (ds : List (List ℕ)) → NoFail (resend_if_any ds)
NoFail-resend [] = tt
NoFail-resend (d ∷ ds) = tt

pub handle_cases :
    (start : Instant) (limit : Duration) (x : XferSender) (body : Body)
    → Waits start limit x
    → NoFail (Xfer.handle x body).1
      × (Waits start limit (Xfer.handle x body).0
          ⊎ (((Xfer.handle x body).0.state ≡ done) × (body ≡ body_end_ack)))
unfolding Xfer.handle
handle_cases start limit x (body_ack c h b) w =
    (tt, inl (record { state = w.state; finalize_at = w.finalize_at; limit_is = w.limit_is }))
handle_cases start limit x (body_nack missing) w = (
  NoFail-resend (held_datagrams x.ring missing),
  inl (record { state = w.state; finalize_at = w.finalize_at; limit_is = w.limit_is }),
)
handle_cases start limit x body_end_ack w = (tt, inr (refl, refl))
handle_cases start limit x (body_data ts payload) w = (tt, inl w)
handle_cases start limit x (body_end n) w = (tt, inl w)
handle_cases start limit x (body_keepalive n) w = (tt, inl w)

-- A body that says that the peer hears the tap.
abbrev pub IsAnswer : Body → Type 0
IsAnswer (body_ack contiguous highest ms) = Unit
IsAnswer (body_nack missing) = Unit
IsAnswer (body_data ts payload) = ⊥
IsAnswer (body_end final_seq) = ⊥
IsAnswer body_end_ack = ⊥
IsAnswer (body_keepalive lost_below) = ⊥

-- What a handled body and a tick leave as it is.
pub record Steady (x x' : XferSender) : Type 0 where
  pub cfg : x'.cfg ≡ x.cfg
  pub first_data_at : x'.first_data_at ≡ x.first_data_at
  pub unheard : x'.got_ack ≡ false → x.got_ack ≡ false

pub handle-Steady :
    (x : XferSender) (body : Body)
    → Steady x (Xfer.handle x body).0 × ((Xfer.handle x body).0.got_ack ≡ false → ¬ IsAnswer body)
unfolding Xfer.handle
handle-Steady x (body_ack c h b) = ground arith
handle-Steady x (body_nack missing) = ground arith
handle-Steady x body_end_ack = ground arith
handle-Steady x (body_data ts payload) = ground arith
handle-Steady x (body_end n) = ground arith
handle-Steady x (body_keepalive n) = ground arith

pub tick-Steady : (x : XferSender) (now : Instant) → Steady x (Xfer.tick x now).0
unfolding Xfer.tick
tick-Steady x now = ground arith

pub tick_cases :
    (start : Instant) (limit : Duration) (x : XferSender) (now : Instant)
    → Waits start limit x
    → (((Xfer.tick x now).1 ≡ failed Xfer.no_ack ∷ [])
        × (x.got_ack ≡ false)
        × Overdue x.first_data_at x.cfg.first_ack_timeout now)
      ⊎ ((((Xfer.tick x now).1 ≡ failed Xfer.finalize_timed_out ∷ []) × (start + limit < now))
          ⊎ (NoFail (Xfer.tick x now).1
              × (now ≤ start + limit)
              × Waits start limit (Xfer.tick x now).0))
unfolding Xfer.tick
tick_cases start limit x now w = elim (expired-cases x.first_data_at now x.cfg.first_ack_timeout) [
  | inl (e, late) ↦ ground arith
  | inr (e, early) ↦ ground arith
]

pub finish-Steady : (x : XferSender) (now : Instant) → Steady x (Xfer.finish x now).0
unfolding Xfer.finish
finish-Steady x now = ground arith

pub finish_streaming :
    (x : XferSender) (now : Instant)
    → x.state ≡ streaming
    → Waits now x.cfg.finalize_timeout (Xfer.finish x now).0
      × NoFail (to_list (Xfer.finish x now).1)
unfolding Xfer.finish
finish_streaming x now h = ground arith
