-- ===== src/Runtime/Feedback.antt =====
-- `BufferFeedback` and `ack_buffered_ms` of protofish4/src/receiver.rs. The two atomics of the cell
-- that the sink and the endpoint share are fields; a report writes both.
use protofish4_rs.Base.{
  ℕ, ◌+◌, ◌-◌, ◌/◌, ◌%◌, ◌≤◌, ◌<◌, ◌≡◌, ◌⊎◌, Option, none, some, ltb, if◌then◌else◌, min, arith,
}
use protofish4_rs.Types.{
  Instant, Duration, duration_since, from_millis, from_secs, u16_mod, u64_mod,
}

pub record BufferFeedback : Type 0 where
  pub playhead_ms : ℕ
  pub written_at_ms : ℕ
  pub epoch : Instant

-- `Default::default()` at that instant.
abbrev pub default_feedback : Instant → BufferFeedback
default_feedback now = record { playhead_ms = 0; written_at_ms = 0; epoch = now }

-- `elapsed().as_millis() as u64`.
unfoldable pub set_playhead_ms : BufferFeedback → ℕ → Instant → BufferFeedback
set_playhead_ms b ms now = record b {
  playhead_ms = ms;
  written_at_ms = (duration_since now b.epoch / 1_000_000) % u64_mod;
}

unfoldable pub fresh_playhead_ms : BufferFeedback → Instant → Duration → Option ℕ
fresh_playhead_ms b now ttl =
    if ltb ttl (duration_since now (b.epoch + from_millis b.written_at_ms))
    then none
    else some b.playhead_ms

abbrev pub buffer_report_ttl : Duration
buffer_report_ttl = from_secs 2

-- The match of `ack_buffered_ms` on the play head.
abbrev pub buffered_of : Option ℕ → ℕ → ℕ → ℕ
buffered_of none state_ms newest = state_ms
buffered_of (some playhead) state_ms newest = min (newest - playhead) (u16_mod - 1)

unfoldable pub ack_buffered_ms : BufferFeedback → ℕ → ℕ → Instant → ℕ
unfolding fresh_playhead_ms
ack_buffered_ms b state_ms newest now =
    buffered_of (fresh_playhead_ms b now buffer_report_ttl) state_ms newest

-- What goes into an acknowledgement after the sink reported `playhead` at an instant from the
-- epoch of its cell on and below 2 ^ 64 nanoseconds, when the state machine's value is a `u16`: it fits a `u16`, and it is
-- either what arrived and was not played, capped at 65535, and then the report is at most two seconds
-- old; or the state machine's value, and then the report is older than two seconds less a
-- millisecond.
pub ack_buffered_ms_lem :
    (b : BufferFeedback) (playhead state_ms newest : ℕ) (at now : Instant)
    → b.epoch ≤ at
    → at < u64_mod
    → state_ms < u16_mod
    → let ms = ack_buffered_ms (set_playhead_ms b playhead at) state_ms newest now in
      (ms < u16_mod)
      × (((now ≤ at + buffer_report_ttl) × (ms ≡ min (newest - playhead) (u16_mod - 1)))
          ⊎ ((at + buffer_report_ttl < now + 1_000_000) × (ms ≡ state_ms)))
unfolding ack_buffered_ms set_playhead_ms
ack_buffered_ms_lem b playhead state_ms newest at now h k fits = (ground arith, ground arith)
