-- ===== src/Tests/Sending.antt =====
-- A sender at concrete runs (protofish4-proto/src/xfer/sender.rs).
use protofish4_rs.Base.{ℕ, ◌+◌, ◌≤◌, ◌≡◌, List, [], ◌∷◌, none, some, false, arith, count_up, length}
use protofish4_rs.Types.{Instant, payload_class, control_class, from_secs}
use protofish4_rs.Frame.{body_end_ack, body_ack, body_nack}
use protofish4_rs.Config.{default_sender}
use protofish4_rs.Sender
use protofish4_rs.Sender.{
  XferSender, SendEvent, emit, failed, no_ack, finalize_timed_out, State, streaming, finalizing,
  done, push_frame, tick,
}
use protofish4_rs.Sender.Runs.{
  Call, push_call, sealed_call, finish_call, handle_call, tick_call, step, run,
}
use protofish4_rs.Sender.Window.{IsSender, new-IsSender, step-IsSender}
use protofish4_rs.Sender.Deadlines.{Ticked, past, tick_deadlines}
use protofish4_rs.Sender.Frames.{pushed, IsStream, run-IsStream}
use protofish4_rs.Sender.Numbering.{sent, run_numbers}
use protofish4_rs.Sender.Nonces.{nonces, Distinct, run-nonces-Distinct}

-- Two frames, an acknowledgement of the first, a request for the second, the end, and a late tick.
abbrev some_calls : List (Call × Instant)
some_calls =
    (push_call 0 (1 ∷ 2 ∷ []), 10)
    ∷ (sealed_call 1 (9 ∷ []), 11)
    ∷ (push_call 20 (3 ∷ []), 12)
    ∷ (sealed_call 2 (8 ∷ []), 13)
    ∷ (handle_call (body_ack 1 1 40), 14)
    ∷ (handle_call (body_nack (2 ∷ [])), 15)
    ∷ (finish_call, 16)
    ∷ (tick_call, from_secs 6)
    ∷ (handle_call body_end_ack, from_secs 7)
    ∷ []

-- A new sender that has sent one frame, and that sender when it finalizes.
abbrev started_sender : XferSender
started_sender = record {
  cfg = default_sender;
  ring = record { entries = []; bytes = 0; max_frames = 4; max_bytes = 100; lost_below = 0 };
  state = streaming;
  next_seq = 2;
  control_counter = 0;
  acked_highest = 0;
  buffered_ms = 0;
  paused = false;
  first_data_at = some 10;
  got_ack = false;
  finalize_at = none;
  last_keepalive_at = none;
}

abbrev done_sender : XferSender
done_sender = record started_sender { state = done }

run_numbers_example :
    let out = (run (Sender.new default_sender) some_calls).1 in
    (n : ℕ) × (m : ℕ) × (sent payload_class out ≡ count_up 1 n)
    × (sent control_class out ≡ count_up 1 m)
    × (n ≤ length some_calls)
    × (m ≤ length some_calls)
run_numbers_example = run_numbers default_sender some_calls (omega arith)

run-nonces-Distinct_example : Distinct (nonces (run (Sender.new default_sender) some_calls).1)
run-nonces-Distinct_example = run-nonces-Distinct default_sender some_calls (omega arith)

step-IsSender_example : IsSender (step (Sender.new default_sender) finish_call 30).0
step-IsSender_example =
    step-IsSender (Sender.new default_sender) finish_call 30 (new-IsSender default_sender)

tick_deadlines_example :
    Ticked default_sender
      (past default_sender some_calls)
      (run (Sender.new default_sender) some_calls).0
      (from_secs 40)
tick_deadlines_example = tick_deadlines default_sender some_calls (from_secs 40)

run-IsStream_example :
    let (t, out) = run (Sender.new default_sender) some_calls in
    IsStream 1 (length (pushed out)) out × (t.next_seq ≡ 1 + length (pushed out))
run-IsStream_example = run-IsStream default_sender some_calls (omega arith)
