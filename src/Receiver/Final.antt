-- ===== src/Receiver/Final.antt =====
-- The end of the stream that a receiver of protofish4-proto/src/xfer/receiver.rs knows.
use protofish4_rs.Base.{◌≡◌, ap, List, [], ◌∷◌, Option, none, some}
use protofish4_rs.Types.{XferSeq, Instant}
use protofish4_rs.Frame.{body_data, body_end, body_end_ack, body_ack, body_nack, body_keepalive}
use protofish4_rs.Receiver.{
  XferReceiver, Step, set_buffered_ms, check_finish, maybe_ack, on_body, handle, tick,
}
use protofish4_rs.Receiver.Runs.{Call, handle_call, tick_call, buffered_call, step, run}
use protofish4_rs.Receiver.Ends.{Sound-⨾, check_finish-Sound, maybe_ack-Sound, Sound, FinalOk}
use protofish4_rs.Receiver.Announced.{AllAnnounce, run-Sound}

-- The calls bring in an end.
abbrev pub Ends : List (Call × Instant) → Type 0
Ends [] = ⊥
Ends ((handle_call seq (body_end f), now) ∷ calls) = Unit
Ends (_ ∷ calls) = Ends calls

abbrev pub IsSeq : XferSeq → Type 0
IsSeq t = Unit

module _ (n : XferSeq) where
  abbrev pub IsEnd : XferSeq → Type 0
  IsEnd f = f ≡ n

  handle-FinalOk :
      (r : XferReceiver) (seq f : XferSeq) (now : Instant)
      → f ≡ n
      → Sound ⊥ IsEnd IsSeq (handle r seq (body_end f) now)
  unfolding handle on_body
  handle-FinalOk r seq f now q =
      let p : XferReceiver = record r { last_packet_at = now; final_seq = some f } in
      Sound-⨾ ⊥ IsEnd IsSeq (check_finish p now) (λ r'. maybe_ack r' now)
        (check_finish-Sound ⊥ IsEnd IsSeq p now (q, (λ t low high. tt, λ t there. tt)))
        (maybe_ack-Sound ⊥ IsEnd IsSeq (check_finish p now).0 now)

  -- Once an end came, and every one is the same, that is the end that the receiver knows.
  run-FinalOk :
      (r : XferReceiver) (calls : List (Call × Instant))
      → AllAnnounce IsEnd IsSeq calls
      → Ends calls
      → FinalOk ⊥ IsEnd IsSeq (run r calls).0.final_seq
  unfolding run step
  run-FinalOk r [] q h = elim h [ ]
  run-FinalOk r ((handle_call seq (body_end f), now) ∷ calls) q h =
      let s : Step = handle r seq (body_end f) now in
      (run-Sound ⊥ IsEnd IsSeq s.0 calls q.1 (handle-FinalOk r seq f now q.0).0).0.0
  run-FinalOk r ((handle_call seq (body_data ts payload), now) ∷ calls) q h =
      run-FinalOk (handle r seq (body_data ts payload) now).0 calls q.1 h
  run-FinalOk r ((handle_call seq (body_keepalive l), now) ∷ calls) q h =
      run-FinalOk (handle r seq (body_keepalive l) now).0 calls q.1 h
  run-FinalOk r ((handle_call seq (body_ack c hi b), now) ∷ calls) q h =
      run-FinalOk (handle r seq (body_ack c hi b) now).0 calls q.1 h
  run-FinalOk r ((handle_call seq (body_nack m), now) ∷ calls) q h =
      run-FinalOk (handle r seq (body_nack m) now).0 calls q.1 h
  run-FinalOk r ((handle_call seq body_end_ack, now) ∷ calls) q h =
      run-FinalOk (handle r seq body_end_ack now).0 calls q.1 h
  run-FinalOk r ((tick_call, now) ∷ calls) q h = run-FinalOk (tick r now).0 calls q h
  run-FinalOk r ((buffered_call ms, now) ∷ calls) q h = run-FinalOk (set_buffered_ms r ms) calls q h

  pub run_final :
      (r : XferReceiver) (calls : List (Call × Instant))
      → AllAnnounce IsEnd IsSeq calls
      → Ends calls
      → (run r calls).0.final_seq ≡ some n
  run_final r calls q h = is_end (run r calls).0.final_seq (run-FinalOk r calls q h)
    where
      is_end : (final : Option XferSeq) → FinalOk ⊥ IsEnd IsSeq final → final ≡ some n
      is_end none h = elim h [ ]
      is_end (some f) h = ap some h
