-- ===== src/Sender/Window.antt =====
-- The brakes, timers and end of a sender (protofish4-proto/src/xfer/sender.rs), call by call.
use protofish4_rs.Base.{◌+◌, ◌≤◌, ◌<◌, ◌≡◌, none, arith, ◌≢◌}
use protofish4_rs.Types.{Instant, u32_mod}
use protofish4_rs.Frame.{body_ack}
use protofish4_rs.Config.{SenderConfig}
use protofish4_rs.Ring.Budget.{IsInBudget, push-IsInBudget, ack_through-IsInBudget, new-IsInBudget}
use protofish4_rs.Sender.{
  XferSender, finalizing, new, push_frame, record_sealed, finish, handle, tick,
}
use protofish4_rs.Sender.Runs.{
  Call, push_call, sealed_call, finish_call, handle_call, tick_call, step,
}

-- What holds of a sender between two calls.
pub record IsSender (s : XferSender) : Type 0 where
  pub started : 1 ≤ s.next_seq
  pub fits : s.next_seq < u32_mod
  pub counter_fits : s.control_counter < u32_mod
  pub in_window : s.next_seq ≤ s.acked_highest + s.cfg.max_outstanding + 1
  pub ring_kept : IsInBudget s.ring
  pub finalize_dated : s.state ≡ finalizing → s.finalize_at ≢ none

pub new-IsSender : (cfg : SenderConfig) → IsSender (new cfg)
unfolding new
new-IsSender cfg = ground (arith, new-IsInBudget cfg.retrans_ring_frames cfg.retrans_ring_bytes)

-- Every call keeps a sender well-formed: its number is at least 1 and, with the control counter,
-- fits a `u32`; it is at most `max_outstanding` beyond what the receiver has seen; the ring stays in
-- its budgets; and a sender that is finalizing knows since when.
pub step-IsSender :
    (s : XferSender) (c : Call) (now : Instant) → IsSender s → IsSender (step s c now).0
unfolding step
step-IsSender s (push_call ts payload) now i = unfold push_frame in ground arith
step-IsSender s (sealed_call seq d) now i =
    unfold record_sealed in ground (arith, push-IsInBudget s.ring seq d)
step-IsSender s finish_call now i = unfold finish in ground arith
step-IsSender s (handle_call (body_ack c h b)) now i =
    unfold handle in ground (arith, ack_through-IsInBudget s.ring c)
step-IsSender s (handle_call b) now i = unfold handle in ground arith
step-IsSender s tick_call now i = unfold tick in ground arith
