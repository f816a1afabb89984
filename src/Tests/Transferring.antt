-- ===== src/Tests/Transferring.antt =====
-- A transfer from end to end at a concrete run: one frame and the end, both delivered.
use protofish4_rs.Base.{
  ◌⊎◌, inr, ok, ℕ, ◌+◌, ◌≡◌, refl, inl, inr, List, [], ◌∷◌, ◌++◌, true, err, arith, length, Sublist,
}
use protofish4_rs.Types.{complete, Instant, from_secs, TimestampMs, RelAbortReason, aborted}
use protofish4_rs.Config.{default_sender, audio_engine}
use protofish4_rs.Sender as Xfer
use protofish4_rs.Collections.Tables
use protofish4_rs.Runtime.Entry
use protofish4_rs.Runtime.Entry.{open_body}
use protofish4_rs.Runtime.Tap.{connect, seal_packet}
use protofish4_rs.Runtime.Tap.Verbatim.{offered, run_ops}
use protofish4_rs.Runtime.Endpoint
use protofish4_rs.Runtime.Endpoint.Sections.{Section, receive_section, received, run, step, for_id}
use protofish4_rs.Runtime.Endpoint.Requests.{AllFair, Lives}
use protofish4_rs.Runtime.Transfer.{Faithful, numbered}
use protofish4_rs.Frame.{body_data, body_end}
use protofish4_rs.Runtime.Entry.Runs.{told_outcomes}
use protofish4_rs.Runtime.Entry.Shown.{stored_frames}
use protofish4_rs.Runtime.Tap.Counting.{AllTaken}
use protofish4_rs.Runtime.Transfer.Arrivals.{Authentic}
use protofish4_rs.Runtime.Transfer.Delivered.{transfer_delivers, transfer_whole, transfer_ends}
use protofish4_rs.Tests.Wire.{
  bytes_uuid, some_id, some_id-IsRequestId, clear_aead, clear_aead-Decrypts,
}
use protofish4_rs.Tests.Tapping.{some_key, quiet_net, new_tap, some_ops, connected}
use protofish4_rs.Tests.Serving.{
  is_there, there_not_none, armed_is_there, bytes_Eq, open_world, one_armed, arm_succeeds,
  frame_bytes,
}

-- The end of one frame, as that tap seals it.
abbrev end_bytes : List ℕ
end_bytes = 4 ∷ 1 ∷ (some_id ++ (0 ∷ 0 ∷ 0 ∷ 1 ∷ 70 ∷ 71 ∷ 0 ∷ 0 ∷ 0 ∷ 1 ∷ []))

went_out : (run_ops bytes_uuid clear_aead new_tap some_ops).1 ≡ frame_bytes ∷ end_bytes ∷ []
unfolding run_ops protofish4_rs.Runtime.Tap.send_frame protofish4_rs.Runtime.Tap.finish
    protofish4_rs.Runtime.Tap.dispatch_from protofish4_rs.Runtime.Tap.seal_packet
    protofish4_rs.Runtime.Tap.wait_done protofish4_rs.Runtime.Tap.pump_once
    protofish4_rs.Runtime.Tap.pump_packet protofish4_rs.Runtime.Tap.record_if
    protofish4_rs.Runtime.Tap.open_reply protofish4_rs.Crypto.open_datagram
    protofish4_rs.Crypto.open_sealed protofish4_rs.Header.parse protofish4_rs.Frame.kind_from_u8
    protofish4_rs.Codec.decode_body protofish4_rs.Codec.expect_len Xfer.handle Xfer.can_send
    Xfer.new Xfer.push_frame Xfer.finish Xfer.record_sealed Xfer.tick protofish4_rs.Ring.new
    protofish4_rs.Ring.push protofish4_rs.Crypto.seal protofish4_rs.Codec.encode_body
    protofish4_rs.Header.to_bytes
went_out = refl

-- The end overtakes the frame, a datagram of other_refused comes between, and the end comes again.
abbrev all_sections : List (Section (List ℕ) (List ℕ) ℕ × Instant)
all_sections =
    (receive_section end_bytes 9 open_world, from_secs 4001)
    ∷ (receive_section (7 ∷ 7 ∷ []) 3 open_world, from_secs 4001)
    ∷ (receive_section frame_bytes 9 open_world, from_secs 4002)
    ∷ []

all_sections-AllFair : AllFair all_sections
all_sections-AllFair =
    ((ground arith, λ i. refl), ((ground arith, λ i. refl), ((ground arith, λ i. refl), tt)))

other_refused :
    open_body bytes_uuid clear_aead some_key (7 ∷ 7 ∷ [])
    ≡ err (protofish4_rs.Failure.truncated 22 2)
unfolding open_body protofish4_rs.Crypto.open_datagram protofish4_rs.Header.parse
other_refused = refl

after_end :
    is_there (
      Tables.get some_id
        (step bytes_uuid clear_aead one_armed
          (receive_section end_bytes 9 open_world)
          (from_secs 4001)).0)
    ≡ true
unfolding run step protofish4_rs.Runtime.Endpoint.receive protofish4_rs.Runtime.Entry.on_packet
    protofish4_rs.Runtime.Entry.apply protofish4_rs.Runtime.Entry.apply_from
    protofish4_rs.Runtime.Entry.open_body protofish4_rs.Crypto.request_id_of
    protofish4_rs.Header.peek_request_id protofish4_rs.Crypto.open_datagram
    protofish4_rs.Crypto.open_sealed protofish4_rs.Header.parse protofish4_rs.Frame.kind_from_u8
    protofish4_rs.Codec.decode_body protofish4_rs.Codec.expect_len protofish4_rs.Codec.take_u64
    protofish4_rs.Codec.take_u32 protofish4_rs.Codec.get_range Tables.get Tables.insert bytes_Eq
    protofish4_rs.Runtime.Entry.armed
after_end = refl

after_other :
    is_there (
      Tables.get some_id
        (step bytes_uuid clear_aead
          (step bytes_uuid clear_aead one_armed
            (receive_section end_bytes 9 open_world)
            (from_secs 4001)).0
          (receive_section (7 ∷ 7 ∷ []) 3 open_world)
          (from_secs 4001)).0)
    ≡ true
unfolding run step protofish4_rs.Runtime.Endpoint.receive protofish4_rs.Runtime.Entry.on_packet
    protofish4_rs.Runtime.Entry.apply protofish4_rs.Runtime.Entry.apply_from
    protofish4_rs.Runtime.Entry.open_body protofish4_rs.Crypto.request_id_of
    protofish4_rs.Header.peek_request_id protofish4_rs.Crypto.open_datagram
    protofish4_rs.Crypto.open_sealed protofish4_rs.Header.parse protofish4_rs.Frame.kind_from_u8
    protofish4_rs.Codec.decode_body protofish4_rs.Codec.expect_len protofish4_rs.Codec.take_u64
    protofish4_rs.Codec.take_u32 protofish4_rs.Codec.get_range Tables.get Tables.insert bytes_Eq
    protofish4_rs.Runtime.Entry.armed
after_other = refl

all_sections-Lives : Lives bytes_uuid clear_aead some_id one_armed all_sections
all_sections-Lives = (
  there_not_none _ armed_is_there,
  (there_not_none _ after_end, (there_not_none _ after_other, tt)),
)

all_sections-Authentic :
    Authentic bytes_uuid clear_aead some_key
      (run_ops bytes_uuid clear_aead new_tap some_ops).1
      (received all_sections)
all_sections-Authentic = rw went_out (
  inl (inr (inl refl)),
  (inr (protofish4_rs.Failure.truncated 22 2, other_refused), (inl (inl refl), tt)),
)

ops_taken : AllTaken bytes_uuid clear_aead new_tap some_ops
unfolding protofish4_rs.Runtime.Tap.send_frame protofish4_rs.Runtime.Tap.dispatch_from
    protofish4_rs.Runtime.Tap.seal_packet protofish4_rs.Runtime.Tap.record_if Xfer.new
    Xfer.push_frame Xfer.can_send protofish4_rs.Crypto.seal protofish4_rs.Codec.encode_body
    protofish4_rs.Header.to_bytes
ops_taken = (refl, tt)

transfer_delivers_example :
    let t = (run_ops bytes_uuid clear_aead new_tap some_ops).0 in
    (frames : List (TimestampMs × List ℕ)) × Sublist frames (offered some_ops)
    × (t.state.next_seq ≡ 1 + length frames)
    × Faithful frames (for_id some_id (run bytes_uuid clear_aead one_armed all_sections).1)
transfer_delivers_example =
    transfer_delivers quiet_net bytes_uuid clear_aead ("sink" ∷ []) some_id some_key default_sender
      new_tap some_ops [] one_armed audio_engine (from_secs 4000) all_sections clear_aead-Decrypts
      some_id-IsRequestId connected (omega arith) (omega arith, tt) arm_succeeds
      all_sections-AllFair all_sections-Lives all_sections-Authentic

transfer_whole_example :
    Faithful
      ((20, 5 ∷ 6 ∷ []) ∷ [])
      (for_id some_id (run bytes_uuid clear_aead one_armed all_sections).1)
transfer_whole_example =
    transfer_whole quiet_net bytes_uuid clear_aead ("sink" ∷ []) some_id some_key default_sender
      new_tap some_ops [] one_armed audio_engine (from_secs 4000) all_sections clear_aead-Decrypts
      some_id-IsRequestId connected (omega arith) (omega arith, tt) ops_taken arm_succeeds
      all_sections-AllFair all_sections-Lives all_sections-Authentic

frame_sealed :
    seal_packet bytes_uuid clear_aead some_key some_id 1 (body_data 20 (5 ∷ 6 ∷ []))
    ≡ ok frame_bytes
unfolding seal_packet protofish4_rs.Crypto.seal protofish4_rs.Codec.encode_body
    protofish4_rs.Header.to_bytes
frame_sealed = refl

end_sealed : seal_packet bytes_uuid clear_aead some_key some_id 1 (body_end 1) ≡ ok end_bytes
unfolding seal_packet protofish4_rs.Crypto.seal protofish4_rs.Codec.encode_body
    protofish4_rs.Header.to_bytes
end_sealed = refl

transfer_ends_example :
    let ds = for_id some_id (run bytes_uuid clear_aead one_armed all_sections).1 in
    ((reason : RelAbortReason) × (told_outcomes ds ≡ aborted reason ∷ []))
    ⊎ ((told_outcomes ds ≡ complete 1 ∷ [])
        × (stored_frames ds ≡ numbered 1 ((20, 5 ∷ 6 ∷ []) ∷ [])))
transfer_ends_example =
    transfer_ends quiet_net bytes_uuid clear_aead ("sink" ∷ []) some_id some_key default_sender
      new_tap some_ops [] one_armed audio_engine (from_secs 4000) all_sections 1 clear_aead-Decrypts
      some_id-IsRequestId connected (omega arith) (omega arith, tt) ops_taken arm_succeeds
      all_sections-AllFair all_sections-Lives all_sections-Authentic
      (inr (inr (inl frame_sealed)), tt) (omega arith) (inl end_sealed)

-- All of it is delivered.
run_completes :
    for_id some_id (run bytes_uuid clear_aead one_armed all_sections).1
    ≡ Entry.played (record { seq = 1; ts = 20; payload = 5 ∷ 6 ∷ [] })
      ∷ Entry.stored (record { seq = 1; ts = 20; payload = 5 ∷ 6 ∷ [] })
      ∷ Entry.told (complete 1)
      ∷ []
unfolding run step protofish4_rs.Runtime.Endpoint.receive protofish4_rs.Runtime.Entry.on_packet
    protofish4_rs.Runtime.Entry.apply protofish4_rs.Runtime.Entry.apply_from
    protofish4_rs.Runtime.Entry.open_body protofish4_rs.Crypto.request_id_of
    protofish4_rs.Header.peek_request_id protofish4_rs.Crypto.open_datagram
    protofish4_rs.Crypto.open_sealed protofish4_rs.Header.parse protofish4_rs.Frame.kind_from_u8
    protofish4_rs.Codec.decode_body protofish4_rs.Codec.expect_len protofish4_rs.Codec.take_u64
    protofish4_rs.Codec.take_u32 protofish4_rs.Codec.get_range Tables.get Tables.insert bytes_Eq
    protofish4_rs.Runtime.Entry.armed protofish4_rs.Receiver.handle protofish4_rs.Receiver.on_body
    protofish4_rs.Receiver.check_finish protofish4_rs.Receiver.finish_complete
    protofish4_rs.Receiver.new protofish4_rs.Gap.new protofish4_rs.Receiver.ack_end
    protofish4_rs.Receiver.close_if_acked protofish4_rs.Receiver.maybe_ack
    protofish4_rs.Receiver.on_data protofish4_rs.Gap.record_seq Entry.apply_event
    protofish4_rs.Receiver.buffer_frame protofish4_rs.Gap.advance
    protofish4_rs.Collections.Sets.insert protofish4_rs.Receiver.release_contiguous
    protofish4_rs.Receiver.release_loop protofish4_rs.Collections.Maps.insert
    protofish4_rs.Collections.Maps.remove protofish4_rs.Collections.Maps.get
    protofish4_rs.Collections.Sets.remove protofish4_rs.Receiver.check_finish_at
    protofish4_rs.Receiver.finish_rel Entry.seal_body Entry.take_outcome
    protofish4_rs.Codec.encode_body protofish4_rs.Crypto.seal protofish4_rs.Header.to_bytes
run_completes = refl
