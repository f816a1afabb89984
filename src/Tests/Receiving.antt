-- ===== src/Tests/Receiving.antt =====
-- A receiver at concrete runs (protofish4-proto/src/xfer/receiver.rs).
use protofish4_rs.Base.{◌-◌, ◌≤◌, ◌≡◌, refl, ◌⊎◌, List, [], ◌∷◌, none, false, arith, count_up}
use protofish4_rs.Types.{Instant, XferSeq, RelOutcome, complete, from_secs}
use protofish4_rs.Frame.{body_data, body_end}
use protofish4_rs.Config.{audio_engine}
use protofish4_rs.Receiver
use protofish4_rs.Receiver.{XferReceiver, RecvEvent, streaming, finished, emit_nacks}
use protofish4_rs.Receiver.Nacks.{Looked, emit_nacks_lem}
use protofish4_rs.Receiver.Events.{reliable_seqs, outcomes}
use protofish4_rs.Receiver.Release.{payload_bytes}
use protofish4_rs.Receiver.Runs.{Call, handle_call, tick_call, buffered_call, run, AllFit}
use protofish4_rs.Receiver.Genuine.{delivered, AllFrames}
use protofish4_rs.Receiver.Provenance.{brought, Among, run_genuine}
use protofish4_rs.Receiver.Announced.{AllAnnounce, run_announced}
use protofish4_rs.Receiver.Ends.{AllOk}
use protofish4_rs.Receiver.Delivery.{run_in_order, run_ends_once, run_bounded}

-- Frames 1, 3, 3 and the end, a tick, then the missing frame 2, which completes the stream.
abbrev some_calls : List (Call × Instant)
some_calls =
    (handle_call 1 (body_data 0 (11 ∷ [])), from_secs 4000)
    ∷ (handle_call 3 (body_data 40 (33 ∷ [])), from_secs 4000)
    ∷ (handle_call 3 (body_data 40 (33 ∷ [])), from_secs 4000)
    ∷ (buffered_call 20, from_secs 4000)
    ∷ (handle_call 1 (body_end 3), from_secs 4001)
    ∷ (tick_call, from_secs 4002)
    ∷ (handle_call 2 (body_data 20 (22 ∷ [])), from_secs 4003)
    ∷ (tick_call, from_secs 4004)
    ∷ []

some_calls-AllFit : AllFit some_calls
some_calls-AllFit = ground arith

run_in_order_example :
    reliable_seqs (run (Receiver.new audio_engine (from_secs 4000)) some_calls).1
    ≡ count_up 1 (run (Receiver.new audio_engine (from_secs 4000)) some_calls).0.rel_released
run_in_order_example = run_in_order audio_engine (from_secs 4000) some_calls some_calls-AllFit

run_ends_once_example :
    let (r, out) = run (Receiver.new audio_engine (from_secs 4000)) some_calls in
    ((r.rel_state ≡ streaming) × (outcomes out ≡ []))
    ⊎ ((r.rel_state ≡ finished)
        × ((o : RelOutcome) × (outcomes out ≡ o ∷ [])
            × ((f : XferSeq) → o ≡ complete f → f ≤ r.rel_released)))
run_ends_once_example = run_ends_once audio_engine (from_secs 4000) some_calls some_calls-AllFit

run_bounded_example :
    let r = (run (Receiver.new audio_engine (from_secs 4000)) some_calls).0 in
    (r.rel_state ≡ streaming
      → (r.reorder_bytes ≡ payload_bytes r.reorder)
        × (r.reorder_bytes ≤ r.cfg.max_reorder_bytes)
        × (r.rel_released ≡ r.gaps.contiguous)
        × (r.gaps.highest - r.gaps.contiguous ≤ r.cfg.reorder_window))
    × (r.rel_state ≡ finished → (r.reorder ≡ []) × (r.reorder_bytes ≡ 0) × (r.nacks ≡ []))
run_bounded_example = run_bounded audio_engine (from_secs 4000) some_calls some_calls-AllFit

-- A receiver that is still open.
abbrev open_receiver : XferReceiver
open_receiver = record {
  cfg = audio_engine;
  gaps = record { contiguous = 1; ahead = []; highest = 1 };
  reorder = [];
  reorder_bytes = 0;
  rel_state = streaming;
  rel_released = 1;
  final_seq = none;
  end_acked = false;
  closed = false;
  nacks = [];
  sender_lost_below = 0;
  last_packet_at = from_secs 4000;
  last_ack_at = from_secs 4000;
  last_rel_progress_at = from_secs 4000;
  buffered_ms = 0;
}

-- Frame 2, then frame 1, then the end.
abbrev short_calls : List (Call × Instant)
short_calls =
    (handle_call 2 (body_data 20 (22 ∷ [])), 10)
    ∷ (handle_call 1 (body_data 0 (11 ∷ [])), 11)
    ∷ (handle_call 1 (body_end 2), 12)
    ∷ []

run_genuine_example :
    AllFrames
      (Among (brought some_calls))
      (delivered (run (Receiver.new audio_engine (from_secs 4000)) some_calls).1)
run_genuine_example = run_genuine audio_engine (from_secs 4000) some_calls

some_calls-AllAnnounce : AllAnnounce (λ (f : XferSeq). f ≡ 3) (λ (t : XferSeq). t ≤ 3) some_calls
some_calls-AllAnnounce = ground arith

run_announced_example :
    AllOk
      (λ (f : XferSeq). f ≡ 3)
      (λ (t : XferSeq). t ≤ 3)
      (run (Receiver.new audio_engine (from_secs 4000)) some_calls).1
run_announced_example =
    run_announced (λ (f : XferSeq). f ≡ 3) (λ (t : XferSeq). t ≤ 3) audio_engine (from_secs 4000)
      some_calls some_calls-AllAnnounce

-- Frames 1 and 3, and the look that finds the gap between them.
abbrev gap_calls : List (Call × Instant)
gap_calls =
    (handle_call 1 (body_data 0 (11 ∷ [])), from_secs 4000)
    ∷ (handle_call 3 (body_data 40 (33 ∷ [])), from_secs 4000)
    ∷ []

gap_calls_open :
    (run (Receiver.new audio_engine (from_secs 4000)) gap_calls).0.rel_state ≡ streaming
unfolding run protofish4_rs.Receiver.Runs.step Receiver.handle Receiver.maybe_ack Receiver.on_body
    Receiver.on_data Receiver.check_finish Receiver.close_if_acked Receiver.ack_end
    Receiver.finish_complete Receiver.new protofish4_rs.Gap.record_seq protofish4_rs.Gap.new
    Receiver.buffer_frame protofish4_rs.Gap.advance protofish4_rs.Collections.Sets.insert
    protofish4_rs.Collections.Sets.remove Receiver.release_contiguous Receiver.release_loop
    protofish4_rs.Collections.Maps.insert protofish4_rs.Collections.Maps.remove
    protofish4_rs.Collections.Maps.get Receiver.check_finish_at Receiver.finish_rel
gap_calls_open = refl

emit_nacks_lem_example :
    let r = (run (Receiver.new audio_engine (from_secs 4000)) gap_calls).0 in
    Looked r (from_secs 4001) (2 ∷ []) (emit_nacks r (from_secs 4001))
emit_nacks_lem_example =
    emit_nacks_lem audio_engine (from_secs 4000) gap_calls (from_secs 4001) (ground arith)
      gap_calls_open
