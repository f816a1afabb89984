-- ===== src/Receiver/Announced.antt =====
-- Where the end that a receiver reports comes from (protofish4-proto/src/xfer/receiver.rs).
use protofish4_rs.Base.{
  ◌+◌, inl, inr, refl, List, [], ◌∷◌, some, Bool, true, false, arith, Bool-cases, length, ◌&&◌,
}
use protofish4_rs.Types.{
  XferSeq, Instant, aborted, peer_gone, sender_discarded, buffer_exhausted, unrecoverable_gap,
  stalled,
}
use protofish4_rs.Codec.{max_nack_entries}
use protofish4_rs.Config.{ReceiverConfig, wants_unrel}
use protofish4_rs.Frame.{
  Body, body_data, body_end, body_end_ack, body_ack, body_nack, body_keepalive,
}
use protofish4_rs.Collections.Maps
use protofish4_rs.Gap
use protofish4_rs.Gap.Counted.{record_seq-Ok}
use protofish4_rs.Receiver
use protofish4_rs.Receiver.{
  Frame, XferReceiver, RecvEvent, unreliable, reliable, rel_finished, Step, ◌⨾◌, set_buffered_ms,
  finish_rel, release_loop, note_progress, release_contiguous, finish_complete, ack_end,
  close_if_acked, check_finish_at, check_finish, maybe_ack, play_if, buffer_frame, on_data,
  on_keepalive, on_body, handle, nack_loop, nack_if_any, emit_nacks, watch_rel, tick, closed_event,
}
use protofish4_rs.Receiver.Streams.{watch_cases, tick_cases}
use protofish4_rs.Receiver.Arrival.{buffer_cases, on_data_cases}
use protofish4_rs.Receiver.Runs.{Call, handle_call, tick_call, buffered_call, step, run}
use protofish4_rs.Receiver.Ends.{
  Sound-⨾, finish_rel-Sound, release_contiguous-Sound, check_finish-Sound, maybe_ack-Sound, Sound,
  Known, AllOk,
}

module _ (Q P : XferSeq → Type 0) where
  -- The frame that a packet is, and the end that it announces.
  abbrev pub Announces : XferSeq → Body → Type 0
  Announces seq (body_data ts payload) = P seq
  Announces seq (body_end f) = Q f
  Announces seq _ = Unit

  play_if-Ok : (b : Bool) (f : Frame) → AllOk Q P (play_if b f)
  play_if-Ok true f = tt
  play_if-Ok false f = tt

  nack_if_any-Ok : (ask : List XferSeq) → AllOk Q P (nack_if_any ask)
  nack_if_any-Ok [] = tt
  nack_if_any-Ok (s ∷ ask) = tt

  -- Every frame and every end that a list of calls brings in is such a one.
  abbrev pub AllAnnounce : List (Call × Instant) → Type 0
  AllAnnounce [] = Unit
  AllAnnounce ((handle_call seq body, now) ∷ calls) = Announces seq body × AllAnnounce calls
  AllAnnounce (_ ∷ calls) = AllAnnounce calls

module _ (N : Type 0) (Q P : XferSeq → Type 0) where
  on_keepalive-Sound :
      (r : XferReceiver) (lost : XferSeq) → Known N Q P r → Sound N Q P (on_keepalive r lost)
  unfolding on_keepalive
  on_keepalive-Sound r lost h = ground (
    arith,
    h,
    finish_rel-Sound N Q P (record r { sender_lost_below = lost }) (aborted sender_discarded) h tt,
  )

  buffer_frame-Sound :
      (r : XferReceiver) (f : Frame) (now : Instant)
      → Known N Q P r
      → Sound N Q P (buffer_frame r f now)
  buffer_frame-Sound r f now h =
      let w : XferReceiver = record r {
        reorder_bytes = r.reorder_bytes + length f.payload;
        reorder = Maps.insert f.seq f r.reorder;
      } in
      elim (buffer_cases r w f now refl) [
        | inl e ↦ rw e (finish_rel-Sound N Q P r (aborted buffer_exhausted) h tt)
        | inr (inl e) ↦ rw e (finish_rel-Sound N Q P w (aborted buffer_exhausted) h tt)
        | inr (inr (e, a, b)) ↦ rw e (
            Sound-⨾ N Q P (release_contiguous w now) (λ r'. check_finish r' now)
              (release_contiguous-Sound N Q P w now h)
              (check_finish-Sound N Q P (release_contiguous w now).0 now))
      ]

  on_data-Sound :
      (r : XferReceiver) (f : Frame) (now : Instant)
      → P f.seq
      → Known N Q P r
      → Sound N Q P (on_data r f now)
  on_data-Sound r f now p h =
      let q : XferReceiver = record r { gaps = (Gap.record_seq r.gaps f.seq).0 } in
      let b : Bool = (Gap.record_seq r.gaps f.seq).1 && wants_unrel r.cfg.mode in
      let k : Known N Q P q = (h.0, record_seq-Ok P r.gaps f.seq p h.1) in
      elim (on_data_cases r f now) [
        | inl (s, e) ↦ rw e (k, play_if-Ok Q P b f)
        | inr (inl (s, e)) ↦ rw e (k, play_if-Ok Q P b f)
        | inr (inr (s, t, e)) ↦ rw e (
            Sound-⨾ N Q P (q, play_if b f) (λ r'. buffer_frame r' f now) (k, play_if-Ok Q P b f)
              (buffer_frame-Sound q f now))
      ]

  on_body-Sound :
      (r : XferReceiver) (seq : XferSeq) (body : Body) (now : Instant)
      → Announces Q P seq body
      → Known N Q P r
      → Sound N Q P (on_body r seq body now)
  unfolding on_body
  on_body-Sound r seq (body_data ts payload) now q h =
      on_data-Sound r (record { seq = seq; ts = ts; payload = payload }) now q h
  on_body-Sound r seq (body_end final) now q h =
      check_finish-Sound N Q P (record r { final_seq = some final }) now (q, h.1)
  on_body-Sound r seq (body_keepalive lost) now q h =
      Sound-⨾ N Q P (on_keepalive r lost) (λ r'. check_finish r' now) (on_keepalive-Sound r lost h)
        (check_finish-Sound N Q P (on_keepalive r lost).0 now)
  on_body-Sound r seq (body_ack c hi b) now q h = (h, tt)
  on_body-Sound r seq (body_nack m) now q h = (h, tt)
  on_body-Sound r seq body_end_ack now q h = (h, tt)

  handle-Sound :
      (r : XferReceiver) (seq : XferSeq) (body : Body) (now : Instant)
      → Announces Q P seq body
      → Known N Q P r
      → Sound N Q P (handle r seq body now)
  unfolding handle
  handle-Sound r seq body now q h =
      let p : XferReceiver = record r { last_packet_at = now } in
      Sound-⨾ N Q P (on_body p seq body now) (λ r'. maybe_ack r' now)
        (on_body-Sound p seq body now q h) (maybe_ack-Sound N Q P (on_body p seq body now).0 now)

  emit_nacks-Sound :
      (r : XferReceiver) (now : Instant) → Known N Q P r → Sound N Q P (emit_nacks r now)
  unfolding emit_nacks
  emit_nacks-Sound r now h =
      let (nacks, ask, exhausted) =
        nack_loop r.cfg r.sender_lost_below now (Gap.missing r.gaps max_nack_entries) r.nacks [] in
      elim (Bool-cases exhausted) [
        | inl e ↦
            rw e
              (finish_rel-Sound N Q P (record r { nacks = nacks }) (aborted unrecoverable_gap) h tt)
        | inr e ↦ rw e (h, nack_if_any-Ok Q P ask)
      ]

  watch_rel-Sound :
      (r : XferReceiver) (now : Instant) → Known N Q P r → Sound N Q P (watch_rel r now)
  watch_rel-Sound r now h = elim (watch_cases r now) [
    | inl e ↦ rw e (h, tt)
    | inr (s, inl e) ↦ rw e (finish_rel-Sound N Q P r (aborted stalled) h tt)
    | inr (s, inr e) ↦ rw e (emit_nacks-Sound r now h)
  ]

  tick-Sound : (r : XferReceiver) (now : Instant) → Known N Q P r → Sound N Q P (tick r now)
  tick-Sound r now h = elim (tick_cases r now) [
    | inl e ↦ rw e (h, tt)
    | inr (inl e) ↦ rw e (
        Sound-⨾ N Q P (finish_rel r (aborted peer_gone))
          (λ r'. (record r' { closed = true }, closed_event ∷ []))
          (finish_rel-Sound N Q P r (aborted peer_gone) h tt) (λ k. (k, tt)))
    | inr (inr e) ↦ rw e (
        Sound-⨾ N Q P (watch_rel r now) (λ r'. maybe_ack r' now) (watch_rel-Sound r now h)
          (maybe_ack-Sound N Q P (watch_rel r now).0 now))
  ]

  pub run-Sound :
      (r : XferReceiver) (calls : List (Call × Instant))
      → AllAnnounce Q P calls
      → Known N Q P r
      → Sound N Q P (run r calls)
  unfolding run step
  run-Sound r [] q h = (h, tt)
  run-Sound r ((handle_call seq body, now) ∷ calls) q h =
      Sound-⨾ N Q P (handle r seq body now) (λ r'. run r' calls) (handle-Sound r seq body now q.0 h)
        (run-Sound (handle r seq body now).0 calls q.1)
  run-Sound r ((tick_call, now) ∷ calls) q h =
      Sound-⨾ N Q P (tick r now) (λ r'. run r' calls) (tick-Sound r now h)
        (run-Sound (tick r now).0 calls q)
  run-Sound r ((buffered_call ms, now) ∷ calls) q h =
      Sound-⨾ N Q P (set_buffered_ms r ms, []) (λ r'. run r' calls) (h, tt)
        (run-Sound (set_buffered_ms r ms) calls q)

module _ (Q P : XferSeq → Type 0) where
  -- Over any run of a new receiver, whatever holds of every frame and of every end that its packets
  -- brought in: `complete f` is reported only of such an end, and the end is acknowledged only after
  -- every frame up to such an end came, each being such a frame, whether or not the reliable stream
  -- was aborted meanwhile.
  pub run_announced :
      (cfg : ReceiverConfig) (start : Instant) (calls : List (Call × Instant))
      → AllAnnounce Q P calls
      → AllOk Q P (run (Receiver.new cfg start) calls).1
  unfolding Receiver.new Gap.new
  run_announced cfg start calls q =
      (run-Sound Unit Q P (Receiver.new cfg start) calls q (
        tt,
        (
          λ t low high. absurd (omega (arith, low, high)),
          λ t there. absurd (ground (arith, there)),
        ),
      )).1
