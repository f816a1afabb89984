-- ===== src/Runtime/Entry.antt =====
-- `Entry` of protofish4/src/receiver.rs: one transfer on an endpoint. A method that sends on a channel
-- returns what it sent; the channels' answers and the clock are the parameter `World`.
pub mod Runs
pub mod Shown
pub mod Applying
pub mod Following
pub mod Streams
pub mod Numbering
use protofish4_rs.Base.{
  ℕ, ◌+◌, ◌%◌, suc, List, [], ◌∷◌, ◌++◌, Option, none, some, Bool, true, false, Result, ok, err,
  ◌>>=◌, leb, max, if◌then◌else◌,
}
use protofish4_rs.Types.{
  XferSeq, TimestampMs, Instant, Duration, ControlSeq, first_control_seq, next_control_seq,
  duration_since, from_secs, u64_mod, RelOutcome, recv, send, UuidApi,
}
use protofish4_rs.Frame.{Body, body_kind, body_nack, body_ack, body_end_ack}
use protofish4_rs.Failure.{Fallible}
use protofish4_rs.Codec.{encode_body, decode_body}
use protofish4_rs.Header.{Header}
use protofish4_rs.Crypto.{AeadApi, seal, open_datagram}
use protofish4_rs.Config.{ReceiverConfig}
use protofish4_rs.Receiver
use protofish4_rs.Receiver.{
  XferReceiver, RecvEvent, unreliable, reliable, send_nack, send_ack, send_end_ack, rel_finished,
  closed_event,
}
use protofish4_rs.Runtime.Feedback.{
  BufferFeedback, default_feedback, set_playhead_ms, ack_buffered_ms,
}

-- A payload frame delivered to the application.
pub record Frame : Type 0 where
  pub seq : XferSeq
  pub ts : TimestampMs
  pub payload : List ℕ

abbrev pub to_frame : Receiver.Frame → Frame
to_frame f = record { seq = f.seq; ts = f.ts; payload = f.payload }

-- What the outside answers while the `i`-th event of a call is applied: the clock, whether the
-- playback channel takes a frame now, and whether the other one, after waiting for room, takes it.
pub record World : Type 0 where
  pub now : ℕ → Instant
  pub unrel_ready : ℕ → Bool
  pub rel_open : ℕ → Bool

-- What goes out on the three channels of `Streams`.
pub data Delivery : Type 0 where
  played : Frame → Delivery
  stored : Frame → Delivery
  told : RelOutcome → Delivery

-- `outcome_tx` says whether the entry still has the sender of the outcome.
pub record Entry (Key Addr : Type 0) : Type 0 where
  pub key : Key
  pub state : XferReceiver
  pub peer : Option Addr
  pub control_seq : ControlSeq
  pub outcome_tx : Bool
  pub feedback : BufferFeedback
  pub newest_data_ms : ℕ
  pub dropped_unrel : ℕ
  pub last_drop_warn : Option Instant

abbrev pub drop_warn_interval : Duration
drop_warn_interval = from_secs 5

-- `Result::ok`.
abbrev pub to_option {ℓ μ} : {E : Type μ} {A : Type ℓ} → Result E A → Option A
to_option (ok a) = some a
to_option (err e) = none

-- `is_none_or(|last| now.duration_since(last) >= DROP_WARN_INTERVAL)`.
abbrev pub warn_due : Option Instant → Instant → Bool
warn_due none now = true
warn_due (some last) now = leb drop_warn_interval (duration_since now last)

-- What one event, or a list of them, changes, delivers and replies.
abbrev pub Applied : Type 0 → Type 0 → Type 0
Applied Key Addr = Entry Key Addr × List Delivery × List (List ℕ)

module _ {Key Addr : Type 0} where
  -- The entry that `arm` makes.
  unfoldable pub armed : Key → ReceiverConfig → Instant → Entry Key Addr
  armed key cfg now = record {
    key = key;
    state = Receiver.new cfg now;
    peer = none;
    control_seq = first_control_seq;
    outcome_tx = true;
    feedback = default_feedback now;
    newest_data_ms = 0;
    dropped_unrel = 0;
    last_drop_warn = none;
  }

  -- A playback frame that the channel refused.
  unfoldable pub note_drop : Entry Key Addr → Instant → Entry Key Addr
  note_drop e now = record e {
    dropped_unrel = (e.dropped_unrel + 1) % u64_mod;
    last_drop_warn = if warn_due e.last_drop_warn now then some now else e.last_drop_warn;
  }

  -- `if let Some(d) = …  { out.push(d); }`.
  abbrev pub reply_if : Entry Key Addr × Option (List ℕ) → Applied Key Addr
  reply_if (e, none) = (e, [], [])
  reply_if (e, some d) = (e, [], d ∷ [])

  -- `if let Some(tx) = entry.outcome_tx.take() { let _ = tx.send(outcome); }`.
  unfoldable pub take_outcome : Entry Key Addr → RelOutcome → Applied Key Addr
  take_outcome e outcome =
      (record e { outcome_tx = false }, (if e.outcome_tx then told outcome ∷ [] else []), [])

abbrev pub learn_peer {ℓ} : {Addr : Type ℓ} → Option Addr → Addr → Option Addr
learn_peer none from = some from
learn_peer (some peer) from = some peer

module _ {Uuid Key : Type 0} (uuid : UuidApi Uuid) (aead : AeadApi Key) where
  -- The tag, the direction and the body of a datagram: what `on_datagram` asks of it.
  unfoldable pub open_body : Key → List ℕ → Fallible Uuid (XferSeq × Body)
  open_body key datagram = do
    (header, plaintext) ← open_datagram uuid aead key datagram send
    body ← decode_body header.kind plaintext
    ok (header.seq, body)

-- `SessionKey`, `Uuid` and the address of a peer.
module _ {Uuid Key Addr : Type 0} (uuid : UuidApi Uuid) (aead : AeadApi Key) where
  -- `Entry::seal`.
  unfoldable pub seal_body : Entry Key Addr → Uuid → Body → Entry Key Addr × Option (List ℕ)
  seal_body e id body =
      let header : Header Uuid = record {
        kind = body_kind body;
        request_id = id;
        seq = e.control_seq;
      } in
      (
        record e { control_seq = next_control_seq e.control_seq },
        to_option (encode_body body >>= seal uuid aead e.key header recv),
      )

  -- The body of the loop of `Endpoint::apply`.
  unfoldable pub apply_event : Entry Key Addr → Uuid → RecvEvent → World → ℕ → Applied Key Addr
  apply_event e id (unreliable f) w i =
      let e' = record e { newest_data_ms = max e.newest_data_ms f.ts } in
      if w.unrel_ready i
      then (e', played (to_frame f) ∷ [], [])
      else (note_drop e' (w.now i), [], [])
  apply_event e id (reliable f) w i =
      let e' = record e { newest_data_ms = max e.newest_data_ms f.ts } in
      (e', (if w.rel_open i then stored (to_frame f) ∷ [] else []), [])
  apply_event e id (send_nack missing) w i = reply_if (seal_body e id (body_nack missing))
  apply_event e id (send_ack contiguous highest buffered_ms) w i =
      let ms = ack_buffered_ms e.feedback buffered_ms e.newest_data_ms (w.now i) in
      reply_if (seal_body e id (body_ack contiguous highest ms))
  apply_event e id send_end_ack w i = reply_if (seal_body e id body_end_ack)
  apply_event e id (rel_finished outcome) w i = take_outcome e outcome
  apply_event e id closed_event w i = (e, [], [])

  -- `Endpoint::apply`; `i` counts the events of the call.
  unfoldable pub apply_from : Entry Key Addr → Uuid → List RecvEvent → World → ℕ → Applied Key Addr
  apply_from e id [] w i = (e, [], [])
  apply_from e id (ev ∷ events) w i =
      let (e', ds, out) = apply_event e id ev w i in
      let (e'', ds', out') = apply_from e' id events w (suc i) in (e'', ds ++ ds', out ++ out')

  unfoldable pub apply : Entry Key Addr → Uuid → List RecvEvent → World → Applied Key Addr
  apply e id events w = apply_from e id events w 0

  -- The part of `on_datagram` behind the tag, at that instant.
  unfoldable pub on_packet :
      Entry Key Addr → Uuid → XferSeq → Body → Addr → Instant → World → Applied Key Addr
  on_packet e id seq body from now w =
      let (state, events) = Receiver.handle e.state seq body now in
      apply (record e { peer = learn_peer e.peer from; state = state }) id events w

  -- The part of `tick` for one entry.
  unfoldable pub on_tick : Entry Key Addr → Uuid → Instant → World → Applied Key Addr
  on_tick e id now w =
      let (state, events) = Receiver.tick e.state now in
      apply (record e { state = state }) id events w

  -- A report on the entry's clone of `Streams::feedback`.
  abbrev pub on_report : Entry Key Addr → ℕ → Instant → Entry Key Addr
  on_report e ms now = record e { feedback = set_playhead_ms e.feedback ms now }
