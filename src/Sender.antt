-- ===== src/Sender.antt =====
-- protofish4-proto/src/xfer/sender.rs. A method that changes the sender returns the new one.
pub mod Window
pub mod Deadlines
pub mod Runs
pub mod Numbering
pub mod Frames
pub mod Nonces
use protofish4_rs.Base.{
  ℕ, ◌+◌, ◌-◌, ◌%◌, List, [], ◌∷◌, ◌++◌, Option, none, some, Bool, true, false, not, ◌||◌, ◌&&◌,
  ltb, leb, if◌then◌else◌,
}
use protofish4_rs.Types.{
  XferSeq, first_xfer_seq, next_xfer_seq, TimestampMs, Instant, Duration, duration_since, u32_mod,
}
use protofish4_rs.Frame.{
  Body, body_data, body_end, body_end_ack, body_ack, body_nack, body_keepalive,
}
use protofish4_rs.Config.{SenderConfig}
use protofish4_rs.Ring
use protofish4_rs.Ring.{RetransRing}

pub data SendFailure : Type 0 where
  no_ack finalize_timed_out : SendFailure

pub data SendEvent : Type 0 where
  emit : XferSeq → Body → SendEvent
  resend : List (List ℕ) → SendEvent
  completed : SendEvent
  failed : SendFailure → SendEvent

pub data State : Type 0 where
  streaming finalizing done : State

pub record XferSender : Type 0 where
  pub cfg : SenderConfig
  pub ring : RetransRing
  pub state : State
  pub next_seq : XferSeq
  pub control_counter : ℕ
  pub acked_highest : ℕ
  pub buffered_ms : ℕ
  pub paused : Bool
  pub first_data_at : Option Instant
  pub got_ack : Bool
  pub finalize_at : Option Instant
  pub last_keepalive_at : Option Instant

unfoldable pub new : SenderConfig → XferSender
new cfg = record {
  cfg = cfg;
  ring = Ring.new cfg.retrans_ring_frames cfg.retrans_ring_bytes;
  state = streaming;
  next_seq = first_xfer_seq;
  control_counter = 0;
  acked_highest = 0;
  buffered_ms = 0;
  paused = false;
  first_data_at = none;
  got_ack = false;
  finalize_at = none;
  last_keepalive_at = none;
}

abbrev pub is_streaming : State → Bool
is_streaming streaming = true
is_streaming _ = false

abbrev pub is_finalizing : State → Bool
is_finalizing finalizing = true
is_finalizing _ = false

abbrev pub is_finished : State → Bool
is_finished done = true
is_finished _ = false

abbrev pub is_done : XferSender → Bool
is_done s = is_finished s.state

unfoldable pub can_send : XferSender → Bool
can_send s =
    if not (is_streaming s.state) || s.paused
    then false
    else ltb (s.next_seq - 1 - s.acked_highest) s.cfg.max_outstanding

abbrev pub or_now : Option Instant → Instant → Option Instant
or_now none now = some now
or_now (some t) now = some t

unfoldable pub push_frame :
    XferSender → TimestampMs → List ℕ → Instant → XferSender × Option SendEvent
unfolding can_send
push_frame s ts payload now = if not (can_send s) then (s, none) else (
  record s { next_seq = next_xfer_seq s.next_seq; first_data_at = or_now s.first_data_at now },
  some (emit s.next_seq (body_data ts payload)),
)

unfoldable pub record_sealed : XferSender → XferSeq → List ℕ → XferSender
record_sealed s seq datagram = record s { ring = Ring.push s.ring seq datagram }

-- The private `control_seq`: the counter after it is the number that it returns.
abbrev pub control_seq : XferSender → ℕ
control_seq s = (s.control_counter + 1) % u32_mod

unfoldable pub finish : XferSender → Instant → XferSender × Option SendEvent
finish s now = if not (is_streaming s.state) then (s, none) else (
  record s {
    state = finalizing;
    finalize_at = some now;
    last_keepalive_at = some now;
    control_counter = control_seq s;
  },
  some (emit (control_seq s) (body_end (s.next_seq - 1))),
)

-- The `filter_map` of a `Nack`: the datagrams that the ring still holds.
unfoldable pub held_datagrams : RetransRing → List XferSeq → List (List ℕ)
held_datagrams ring [] = []
held_datagrams ring (seq ∷ missing) =
    let rest = held_datagrams ring missing in
    elim (Ring.get ring seq) [ none ↦ rest | some d ↦ d ∷ rest ]

abbrev pub resend_if_any : List (List ℕ) → List SendEvent
resend_if_any [] = []
resend_if_any (d ∷ ds) = resend (d ∷ ds) ∷ []

unfoldable pub handle : XferSender → Body → XferSender × List SendEvent
handle s (body_ack contiguous highest buffered_ms) = (
  record s {
    got_ack = true;
    ring = Ring.ack_through s.ring contiguous;
    acked_highest = if ltb s.acked_highest highest then highest else s.acked_highest;
    buffered_ms = buffered_ms;
    paused =
        if leb s.cfg.buffer_high_water_ms buffered_ms
        then true
        else if leb buffered_ms s.cfg.buffer_low_water_ms
        then false
        else s.paused;
  },
  [],
)
handle s (body_nack missing) =
    (record s { got_ack = true }, resend_if_any (held_datagrams s.ring missing))
handle s body_end_ack = (record s { state = done }, completed ∷ [])
handle s (body_data ts payload) = (s, [])
handle s (body_end final_seq) = (s, [])
handle s (body_keepalive lost_below) = (s, [])

-- `if let Some(t) = at && now.duration_since(t) > limit`.
abbrev pub expired : Option Instant → Instant → Duration → Bool
expired none now limit = false
expired (some t) now limit = ltb limit (duration_since now t)

-- `duration_since(t) >= interval`, and what stands for no earlier instant.
abbrev pub due_since : Bool → Option Instant → Instant → Duration → Bool
due_since never none now interval = never
due_since never (some t) now interval = leb interval (duration_since now t)

-- A keepalive, if it is due.
abbrev pub keepalive_if : Bool → XferSender → Instant → XferSender × List SendEvent
keepalive_if false s now = (s, [])
keepalive_if true s now = (
  record s { last_keepalive_at = some now; control_counter = control_seq s },
  emit (control_seq s) (body_keepalive s.ring.lost_below) ∷ [],
)

-- The part of `tick` for a sender that is finalizing.
unfoldable pub tick_finalizing : XferSender → Instant → XferSender × List SendEvent
tick_finalizing s now =
    if expired s.finalize_at now s.cfg.finalize_timeout
    then (record s { state = done }, failed finalize_timed_out ∷ [])
    else keepalive_if (due_since false s.last_keepalive_at now s.cfg.tail_keepalive_interval) s now

unfoldable pub tick : XferSender → Instant → XferSender × List SendEvent
unfolding tick_finalizing
tick s now =
    if is_done s
    then (s, [])
    else if not s.got_ack && expired s.first_data_at now s.cfg.first_ack_timeout
    then (record s { state = done }, failed no_ack ∷ [])
    else (let (s', out) =
          keepalive_if
            (is_streaming s.state
              && s.paused
              && due_since true s.last_keepalive_at now s.cfg.tail_keepalive_interval)
            s now in
        let (s'', out') = if is_finalizing s'.state then tick_finalizing s' now else (s', []) in
        (s'', out ++ out'))
