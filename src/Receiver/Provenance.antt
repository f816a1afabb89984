-- ===== src/Receiver/Provenance.antt =====
-- Where the frames that a receiver delivers come from (protofish4-proto/src/xfer/receiver.rs).
use protofish4_rs.Base.{
  ◌+◌, ◌≡◌, ◌⊎◌, inl, inr, refl, List, [], ◌∷◌, some, Bool, true, false, arith, Bool-cases, length,
  ◌&&◌,
}
use protofish4_rs.Types.{
  XferSeq, Instant, aborted, peer_gone, sender_discarded, buffer_exhausted, unrecoverable_gap,
  stalled,
}
use protofish4_rs.Codec.{max_nack_entries}
use protofish4_rs.Config.{ReceiverConfig, wants_unrel}
use protofish4_rs.Frame.{
  Body, body_data, body_end, body_end_ack, body_ack, body_nack, body_keepalive,
}
use protofish4_rs.Collections.Maps
use protofish4_rs.Gap
use protofish4_rs.Receiver
use protofish4_rs.Receiver.{
  Frame, XferReceiver, RecvEvent, unreliable, reliable, Step, ◌⨾◌, set_buffered_ms, finish_rel,
  release_loop, note_progress, release_contiguous, finish_complete, ack_end, close_if_acked,
  check_finish_at, check_finish, maybe_ack, play_if, buffer_frame, on_data, on_keepalive, on_body,
  handle, nack_loop, nack_if_any, emit_nacks, watch_rel, tick, closed_event,
}
use protofish4_rs.Receiver.Streams.{watch_cases, tick_cases}
use protofish4_rs.Receiver.Arrival.{buffer_cases, on_data_cases}
use protofish4_rs.Receiver.Runs.{Call, handle_call, tick_call, buffered_call, step, run}
use protofish4_rs.Receiver.Genuine.{
  delivered, AllFrames, AllHeld, Genuine, held-insert, Genuine-⨾, finish_rel-Genuine,
  release_contiguous-Genuine, check_finish-Genuine, maybe_ack-Genuine,
}

-- The frames that a list of calls brings in.
abbrev pub brought : List (Call × Instant) → List Frame
brought [] = []
brought ((handle_call seq (body_data ts payload), now) ∷ calls) =
    record { seq = seq; ts = ts; payload = payload } ∷ brought calls
brought (_ ∷ calls) = brought calls

abbrev pub Among : List Frame → Frame → Type 0
Among [] f = ⊥
Among (g ∷ gs) f = (f ≡ g) ⊎ Among gs f

module _ (P : Frame → Type 0) where
  on_keepalive-Genuine :
      (r : XferReceiver) (lost : XferSeq) → AllHeld P r.reorder → Genuine P (on_keepalive r lost)
  unfolding on_keepalive
  on_keepalive-Genuine r lost h = ground (
    arith,
    finish_rel-Genuine P (record r { sender_lost_below = lost }) (aborted sender_discarded) h,
  )

  buffer_frame-Genuine :
      (r : XferReceiver) (f : Frame) (now : Instant)
      → P f
      → AllHeld P r.reorder
      → Genuine P (buffer_frame r f now)
  buffer_frame-Genuine r f now p h =
      let w : XferReceiver = record r {
        reorder_bytes = r.reorder_bytes + length f.payload;
        reorder = Maps.insert f.seq f r.reorder;
      } in
      let kept : AllHeld P w.reorder = held-insert P f.seq f r.reorder p h in
      elim (buffer_cases r w f now refl) [
        | inl e ↦ rw e (finish_rel-Genuine P r (aborted buffer_exhausted) h)
        | inr (inl e) ↦ rw e (finish_rel-Genuine P w (aborted buffer_exhausted) kept)
        | inr (inr (e, a, b)) ↦ rw e (
            Genuine-⨾ P (release_contiguous w now) (λ r'. check_finish r' now)
              (release_contiguous-Genuine P w now kept)
              (check_finish-Genuine P (release_contiguous w now).0 now))
      ]

  play_if-Genuine : (b : Bool) (f : Frame) → P f → AllFrames P (delivered (play_if b f))
  play_if-Genuine true f p = (p, tt)
  play_if-Genuine false f p = tt

  on_data-Genuine :
      (r : XferReceiver) (f : Frame) (now : Instant)
      → P f
      → AllHeld P r.reorder
      → Genuine P (on_data r f now)
  on_data-Genuine r f now p h =
      let q : XferReceiver = record r { gaps = (Gap.record_seq r.gaps f.seq).0 } in
      let b : Bool = (Gap.record_seq r.gaps f.seq).1 && wants_unrel r.cfg.mode in
      elim (on_data_cases r f now) [
        | inl (s, e) ↦ rw e (h, play_if-Genuine b f p)
        | inr (inl (s, e)) ↦ rw e (h, play_if-Genuine b f p)
        | inr (inr (s, t, e)) ↦ rw e (
            Genuine-⨾ P (q, play_if b f) (λ r'. buffer_frame r' f now) (h, play_if-Genuine b f p)
              (buffer_frame-Genuine q f now p))
      ]

  -- What a body brings in.
  abbrev Brings : XferSeq → Body → Type 0
  Brings seq (body_data ts payload) = P (record { seq = seq; ts = ts; payload = payload })
  Brings seq _ = Unit

  on_body-Genuine :
      (r : XferReceiver) (seq : XferSeq) (body : Body) (now : Instant)
      → Brings seq body
      → AllHeld P r.reorder
      → Genuine P (on_body r seq body now)
  unfolding on_body
  on_body-Genuine r seq (body_data ts payload) now p h =
      on_data-Genuine r (record { seq = seq; ts = ts; payload = payload }) now p h
  on_body-Genuine r seq (body_end final) now p h =
      check_finish-Genuine P (record r { final_seq = some final }) now h
  on_body-Genuine r seq (body_keepalive lost) now p h =
      Genuine-⨾ P (on_keepalive r lost) (λ r'. check_finish r' now) (on_keepalive-Genuine r lost h)
        (check_finish-Genuine P (on_keepalive r lost).0 now)
  on_body-Genuine r seq (body_ack c hi b) now p h = (h, tt)
  on_body-Genuine r seq (body_nack m) now p h = (h, tt)
  on_body-Genuine r seq body_end_ack now p h = (h, tt)

  handle-Genuine :
      (r : XferReceiver) (seq : XferSeq) (body : Body) (now : Instant)
      → Brings seq body
      → AllHeld P r.reorder
      → Genuine P (handle r seq body now)
  unfolding handle
  handle-Genuine r seq body now p h =
      let q : XferReceiver = record r { last_packet_at = now } in
      Genuine-⨾ P (on_body q seq body now) (λ r'. maybe_ack r' now)
        (on_body-Genuine q seq body now p h) (maybe_ack-Genuine P (on_body q seq body now).0 now)

  nack_if_any-Genuine : (ask : List XferSeq) → AllFrames P (delivered (nack_if_any ask))
  nack_if_any-Genuine [] = tt
  nack_if_any-Genuine (s ∷ ask) = tt

  emit_nacks-Genuine :
      (r : XferReceiver) (now : Instant) → AllHeld P r.reorder → Genuine P (emit_nacks r now)
  unfolding emit_nacks
  emit_nacks-Genuine r now h =
      let (nacks, ask, exhausted) =
        nack_loop r.cfg r.sender_lost_below now (Gap.missing r.gaps max_nack_entries) r.nacks [] in
      elim (Bool-cases exhausted) [
        | inl e ↦
            rw e (finish_rel-Genuine P (record r { nacks = nacks }) (aborted unrecoverable_gap) h)
        | inr e ↦ rw e (h, nack_if_any-Genuine ask)
      ]

  watch_rel-Genuine :
      (r : XferReceiver) (now : Instant) → AllHeld P r.reorder → Genuine P (watch_rel r now)
  watch_rel-Genuine r now h = elim (watch_cases r now) [
    | inl e ↦ rw e (h, tt)
    | inr (s, inl e) ↦ rw e (finish_rel-Genuine P r (aborted stalled) h)
    | inr (s, inr e) ↦ rw e (emit_nacks-Genuine r now h)
  ]

  tick-Genuine : (r : XferReceiver) (now : Instant) → AllHeld P r.reorder → Genuine P (tick r now)
  tick-Genuine r now h = elim (tick_cases r now) [
    | inl e ↦ rw e (h, tt)
    | inr (inl e) ↦ rw e (
        Genuine-⨾ P (finish_rel r (aborted peer_gone))
          (λ r'. (record r' { closed = true }, closed_event ∷ []))
          (finish_rel-Genuine P r (aborted peer_gone) h) (λ k. (k, tt)))
    | inr (inr e) ↦ rw e (
        Genuine-⨾ P (watch_rel r now) (λ r'. maybe_ack r' now) (watch_rel-Genuine r now h)
          (maybe_ack-Genuine P (watch_rel r now).0 now))
  ]

  step-Genuine :
      (r : XferReceiver) (call : Call) (now : Instant) (calls : List (Call × Instant))
      → AllFrames P (brought ((call, now) ∷ calls))
      → AllHeld P r.reorder
      → Genuine P (step r call now) × AllFrames P (brought calls)
  unfolding step
  step-Genuine r (handle_call seq (body_data ts payload)) now calls p h =
      (handle-Genuine r seq (body_data ts payload) now p.0 h, p.1)
  step-Genuine r (handle_call seq (body_end final)) now calls p h =
      (handle-Genuine r seq (body_end final) now tt h, p)
  step-Genuine r (handle_call seq (body_keepalive lost)) now calls p h =
      (handle-Genuine r seq (body_keepalive lost) now tt h, p)
  step-Genuine r (handle_call seq (body_ack c hi b)) now calls p h =
      (handle-Genuine r seq (body_ack c hi b) now tt h, p)
  step-Genuine r (handle_call seq (body_nack m)) now calls p h =
      (handle-Genuine r seq (body_nack m) now tt h, p)
  step-Genuine r (handle_call seq body_end_ack) now calls p h =
      (handle-Genuine r seq body_end_ack now tt h, p)
  step-Genuine r tick_call now calls p h = (tick-Genuine r now h, p)
  step-Genuine r (buffered_call ms) now calls p h = ((h, tt), p)

  run-Genuine :
      (r : XferReceiver) (calls : List (Call × Instant))
      → AllFrames P (brought calls)
      → AllHeld P r.reorder
      → Genuine P (run r calls)
  unfolding run
  run-Genuine r [] p h = (h, tt)
  run-Genuine r ((call, now) ∷ calls) p h =
      let (first, more) = step-Genuine r call now calls p h in
      Genuine-⨾ P (step r call now) (λ r'. run r' calls) first
        (run-Genuine (step r call now).0 calls more)

All-Among : (fs gs : List Frame) → ((f : Frame) → Among fs f → Among gs f) → AllFrames (Among gs) fs
All-Among [] gs w = tt
All-Among (f ∷ fs) gs w = (w f (inl refl), All-Among fs gs (λ g a. w g (inr a)))

-- Over any run of a new receiver, every frame that it delivers, on either stream, is one that a
-- `Data` packet of the run brought in, with its sequence number, timestamp and payload unchanged.
pub run_genuine :
    (cfg : ReceiverConfig) (start : Instant) (calls : List (Call × Instant))
    → AllFrames (Among (brought calls)) (delivered (run (Receiver.new cfg start) calls).1)
unfolding Receiver.new
run_genuine cfg start calls =
    (run-Genuine (Among (brought calls)) (Receiver.new cfg start) calls
      (All-Among (brought calls) (brought calls) (λ f a. a)) tt).1
