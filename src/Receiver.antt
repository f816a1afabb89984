-- ===== src/Receiver.antt =====
-- protofish4-proto/src/xfer/receiver.rs. A method that takes `out` returns what it pushes.
pub mod Runs
pub mod Release
pub mod Invariant
pub mod Methods
pub mod Streams
pub mod Arrival
pub mod Delivery
pub mod Genuine
pub mod Provenance
pub mod Ends
pub mod Announced
pub mod Final
pub mod Following
pub mod Completion
pub mod Asking
pub mod Nacks
pub mod Events
use protofish4_rs.Base.{
  ℕ, zero, suc, ◌+◌, ◌-◌, List, [], ◌∷◌, ◌++◌, Option, none, some, Bool, true, false, not, ◌||◌,
  ◌&&◌, ◌==◌, ltb, leb, if◌then◌else◌, length, min,
}
use protofish4_rs.Types.{
  XferSeq, TimestampMs, Instant, Duration, duration_since, from_secs, RelAbortReason,
  unrecoverable_gap, buffer_exhausted, stalled, sender_discarded, peer_gone, RelOutcome, complete,
  aborted, u16_mod,
}
use protofish4_rs.Codec.{max_nack_entries}
use protofish4_rs.Frame.{
  Body, body_data, body_end, body_end_ack, body_ack, body_nack, body_keepalive,
}
use protofish4_rs.Config.{ReceiverConfig, wants_unrel, nack_delay}
use protofish4_rs.Collections.Maps
use protofish4_rs.Gap
use protofish4_rs.Gap.{GapTracker}

pub record Frame : Type 0 where
  pub seq : XferSeq
  pub ts : TimestampMs
  pub payload : List ℕ

pub data RecvEvent : Type 0 where
  unreliable : Frame → RecvEvent
  reliable : Frame → RecvEvent
  send_nack : List XferSeq → RecvEvent
  -- `contiguous`, `highest`, `buffered_ms`.
  send_ack : XferSeq → XferSeq → ℕ → RecvEvent
  send_end_ack : RecvEvent
  rel_finished : RelOutcome → RecvEvent
  closed_event : RecvEvent

pub data RelState : Type 0 where
  streaming finished : RelState

pub record XferReceiver : Type 0 where
  pub cfg : ReceiverConfig
  pub gaps : GapTracker
  pub reorder : List (ℕ × Frame)
  pub reorder_bytes : ℕ
  pub rel_state : RelState
  pub rel_released : ℕ
  pub final_seq : Option XferSeq
  pub end_acked : Bool
  pub closed : Bool
  pub nacks : List (ℕ × (ℕ × Instant))
  pub sender_lost_below : ℕ
  pub last_packet_at : Instant
  pub last_ack_at : Instant
  pub last_rel_progress_at : Instant
  pub buffered_ms : ℕ

unfoldable pub new : ReceiverConfig → Instant → XferReceiver
new cfg now = record {
  cfg = cfg;
  gaps = Gap.new;
  reorder = [];
  reorder_bytes = 0;
  rel_state = streaming;
  rel_released = 0;
  final_seq = none;
  end_acked = false;
  closed = false;
  nacks = [];
  sender_lost_below = 0;
  last_packet_at = now;
  last_ack_at = now;
  last_rel_progress_at = now;
  buffered_ms = 0;
}

abbrev pub is_streaming : RelState → Bool
is_streaming streaming = true
is_streaming finished = false

abbrev pub set_buffered_ms : XferReceiver → ℕ → XferReceiver
set_buffered_ms r ms = record r { buffered_ms = ms }

-- What a method changes and pushes.
abbrev pub Step : Type 0
Step = XferReceiver × List RecvEvent

-- One method after another on the same `out`.
infixl 5 ◌⨾◌
abbrev pub ◌⨾◌ : Step → (XferReceiver → Step) → Step
(r, out) ⨾ f = let (r', more) = f r in (r', out ++ more)

unfoldable pub finish_rel : XferReceiver → RelOutcome → Step
finish_rel r outcome = if not (is_streaming r.rel_state) then (r, []) else (
  record r {
    rel_state = finished;
    reorder = [];
    reorder_bytes = 0;
    nacks = [];
    gaps = Gap.abandon r.gaps;
  },
  rel_finished outcome ∷ [],
)

-- The `while` of `release_contiguous`; `contiguous - rel_released` is enough fuel.
unfoldable pub release_loop : ℕ → ℕ → XferReceiver → Step
release_loop zero contiguous r = (r, [])
release_loop (suc fuel) contiguous r = elim (ltb r.rel_released contiguous) [
  | false ↦ (r, [])
  | true ↦ elim (Maps.get (r.rel_released + 1) r.reorder) [
    | none ↦ (r, [])
    | some frame ↦
        (let (r', out) = release_loop fuel contiguous (record r {
          reorder = Maps.remove (r.rel_released + 1) r.reorder;
          reorder_bytes = r.reorder_bytes - length frame.payload;
          rel_released = r.rel_released + 1;
          nacks = Maps.remove (r.rel_released + 1) r.nacks;
        }) in
          (r', reliable frame ∷ out))
  ]
]

-- `if released { self.last_rel_progress_at = now; }`
abbrev pub note_progress : Instant → Step → Step
note_progress now (r, []) = (r, [])
note_progress now (r, ev ∷ out) = (record r { last_rel_progress_at = now }, ev ∷ out)

unfoldable pub release_contiguous : XferReceiver → Instant → Step
release_contiguous r now =
    note_progress now (release_loop (r.gaps.contiguous - r.rel_released) r.gaps.contiguous r)

-- The three parts of `check_finish` once the final sequence number is known.
unfoldable pub finish_complete : XferReceiver → XferSeq → Instant → Step
finish_complete r final_seq now =
    if is_streaming r.rel_state && Gap.is_complete r.gaps final_seq
    then release_contiguous r now ⨾ (λ r'. finish_rel r' (complete final_seq))
    else (r, [])

unfoldable pub ack_end : XferReceiver → XferSeq → Step
ack_end r final_seq =
    if not r.end_acked && Gap.is_complete r.gaps final_seq
    then (record r { end_acked = true }, send_end_ack ∷ [])
    else (r, [])

unfoldable pub close_if_acked : XferReceiver → Step
close_if_acked r =
    if r.end_acked && not r.closed then (record r { closed = true }, closed_event ∷ []) else (r, [])

unfoldable pub check_finish_at : Option XferSeq → XferReceiver → Instant → Step
check_finish_at none r now = (r, [])
check_finish_at (some final_seq) r now =
    finish_complete r final_seq now ⨾ (λ r'. ack_end r' final_seq) ⨾ close_if_acked

unfoldable pub check_finish : XferReceiver → Instant → Step
unfolding check_finish_at
check_finish r now = check_finish_at r.final_seq r now

unfoldable pub maybe_ack : XferReceiver → Instant → Step
maybe_ack r now =
    if r.closed
    then (r, [])
    else if ltb (duration_since now r.last_ack_at) r.cfg.ack_interval
    then (r, [])
    else if r.gaps.highest == 0
    then (r, [])
    else (
      record r { last_ack_at = now },
      send_ack r.gaps.contiguous r.gaps.highest (min r.buffered_ms (u16_mod - 1)) ∷ [],
    )

abbrev pub play_if : Bool → Frame → List RecvEvent
play_if true frame = unreliable frame ∷ []
play_if false frame = []

-- The part of `on_data` for a fresh frame of a reliable stream that is still open.
unfoldable pub buffer_frame : XferReceiver → Frame → Instant → Step
buffer_frame r frame now =
    if ltb r.cfg.reorder_window (Gap.window_span r.gaps)
    then finish_rel r (aborted buffer_exhausted)
    else (let r' = record r {
      reorder_bytes = r.reorder_bytes + length frame.payload;
      reorder = Maps.insert frame.seq frame r.reorder;
    } in
        if ltb r'.cfg.max_reorder_bytes r'.reorder_bytes
        then finish_rel r' (aborted buffer_exhausted)
        else (release_contiguous r' now ⨾ (λ r''. check_finish r'' now)))

unfoldable pub on_data : XferReceiver → Frame → Instant → Step
on_data r frame now =
    let (gaps, fresh) = Gap.record_seq r.gaps frame.seq in
    let r' = record r { gaps = gaps } in
    let played = play_if (fresh && wants_unrel r.cfg.mode) frame in
    if not (is_streaming r.rel_state) || not fresh
    then (r', played)
    else (let (r'', out) = buffer_frame r' frame now in (r'', played ++ out))

unfoldable pub on_keepalive : XferReceiver → XferSeq → Step
on_keepalive r lost_below =
    if ltb r.sender_lost_below lost_below
    then (let r' = record r { sender_lost_below = lost_below } in
        if is_streaming r.rel_state && ltb r.gaps.contiguous lost_below
        then finish_rel r' (aborted sender_discarded)
        else (r', []))
    else (r, [])

unfoldable pub on_body : XferReceiver → XferSeq → Body → Instant → Step
on_body r seq (body_data ts payload) now =
    on_data r (record { seq = seq; ts = ts; payload = payload }) now
on_body r seq (body_end final_seq) now = check_finish (record r { final_seq = some final_seq }) now
on_body r seq (body_keepalive lost_below) now =
    on_keepalive r lost_below ⨾ (λ r'. check_finish r' now)
on_body r seq (body_ack contiguous highest buffered_ms) now = (r, [])
on_body r seq (body_nack missing) now = (r, [])
on_body r seq body_end_ack now = (r, [])

unfoldable pub handle : XferReceiver → XferSeq → Body → Instant → Step
handle r seq body now =
    on_body (record r { last_packet_at = now }) seq body now ⨾ (λ r'. maybe_ack r' now)

-- The entry of a gap: `entry(seq).or_insert((0, now - 3600 s))`.
abbrev pub nack_entry : Option (ℕ × Instant) → Instant → ℕ × Instant
nack_entry none now = (0, now - from_secs 3600)
nack_entry (some entry) now = entry

-- The `for` of `emit_nacks`: the bookkeeping, what to ask for, and whether a budget is exhausted.
unfoldable pub nack_loop :
    ReceiverConfig
    → ℕ
    → Instant
    → List XferSeq
    → List (ℕ × (ℕ × Instant))
    → List XferSeq
    → List (ℕ × (ℕ × Instant)) × List XferSeq × Bool
nack_loop cfg lost now [] nacks ask = (nacks, ask, false)
nack_loop cfg lost now (seq ∷ missing) nacks ask =
    let (attempts, asked_at) = nack_entry (Maps.get seq nacks) now in
    let kept = Maps.insert seq (attempts, asked_at) nacks in
    let asked = Maps.insert seq (attempts + 1, now) nacks in
    let again = nack_loop cfg lost now missing asked (ask ++ (seq ∷ [])) in
    let wait = nack_loop cfg lost now missing kept ask in
    if leb seq lost
    then (nacks, ask, true)
    else if leb cfg.max_nack_attempts attempts
    then (kept, ask, true)
    else if leb (nack_delay cfg attempts) (duration_since now asked_at)
    then again
    else wait

abbrev pub nack_if_any : List XferSeq → List RecvEvent
nack_if_any [] = []
nack_if_any (seq ∷ ask) = send_nack (seq ∷ ask) ∷ []

unfoldable pub emit_nacks : XferReceiver → Instant → Step
emit_nacks r now =
    let (nacks, ask, exhausted) =
      nack_loop r.cfg r.sender_lost_below now (Gap.missing r.gaps max_nack_entries) r.nacks [] in
    let r' = record r { nacks = nacks } in
    if exhausted then finish_rel r' (aborted unrecoverable_gap) else (r', nack_if_any ask)

-- The part of `tick` that watches the reliable stream.
unfoldable pub watch_rel : XferReceiver → Instant → Step
watch_rel r now =
    if not (is_streaming r.rel_state)
    then (r, [])
    else if ltb r.cfg.rel_stall_timeout (duration_since now r.last_rel_progress_at)
    then finish_rel r (aborted stalled)
    else emit_nacks r now

unfoldable pub tick : XferReceiver → Instant → Step
tick r now =
    if r.closed
    then (r, [])
    else if ltb r.cfg.idle_timeout (duration_since now r.last_packet_at)
    then finish_rel r (aborted peer_gone) ⨾ (λ r'. (record r' { closed = true }, closed_event ∷ []))
    else (watch_rel r now ⨾ (λ r'. maybe_ack r' now))
