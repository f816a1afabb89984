-- ===== src/Tests/Tapping.antt =====
-- A tap of protofish4/src/sender.rs at concrete runs. Keys and datagrams are lists of bytes, addresses
-- and errors of the socket are numbers.
use protofish4_rs.Base.{
  ℕ, true, ◌+◌, ◌<◌, ◌≡◌, refl, ◌⊎◌, inl, inr, List, [], ◌∷◌, ◌++◌, Option, none, some, ok, err,
  arith, Any, length, ◌≤◌, Sublist,
}
use protofish4_rs.Types.{Instant, from_secs}
use protofish4_rs.Frame.{Body, body_data, body_end_ack, body_kind, kind_name}
use protofish4_rs.Failure.{wrong_direction}
use protofish4_rs.Crypto.{request_id_of}
use protofish4_rs.Config.{default_sender}
use protofish4_rs.Sender as Xfer
use protofish4_rs.Sender.{emit, resend, completed}
use protofish4_rs.Sender.Runs.{Call}
use protofish4_rs.Sender.Frames.{pushed}
use protofish4_rs.Sender.Nonces.{nonces, Distinct}
use protofish4_rs.Runtime.Failure.{Error, Fallible}
use protofish4_rs.Runtime.Entry.{open_body}
use protofish4_rs.Runtime.Tap.{
  Sender, Turn, arrived, timed_out, recv_failed, Drive, NetApi, seal_packet, dispatch_from,
  open_reply, finish, connect,
}
use protofish4_rs.Runtime.Tap.Waiting.{Waited, finish_lem, finish_ends}
use protofish4_rs.Runtime.Tap.Dispatching.{Breaks}
use protofish4_rs.Runtime.Tap.Packets.{Encrypts, open_body-seal_packet}
use protofish4_rs.Runtime.Tap.Complete.{Exactly, dispatch_lem}
use protofish4_rs.Runtime.Tap.Sending.{Sends}
use protofish4_rs.Runtime.Tap.Verbatim.{
  weight, offered, Op, frame_op, finish_op, run_ops, run_ops-Sends,
}
use protofish4_rs.Tests.Wire.{
  bytes_uuid, some_id, some_id-IsRequestId, clear_aead, clear_aead-Decrypts,
}

abbrev pub some_key : List ℕ
some_key = 70 ∷ 71 ∷ []

-- A network in which every name stands for the address 9 and nothing fails.
abbrev pub quiet_net : NetApi ℕ ℕ
quiet_net = record {
  first_address = λ name. some 9;
  is_ipv4 = λ addr. true;
  any_v4 = 4;
  any_v6 = 6;
  bind = λ addr. none;
  connect = λ local peer. none;
}

abbrev all_sent : ℕ → Option ℕ
all_sent i = none

-- A tap after `connect`.
abbrev pub new_tap : Sender (List ℕ) (List ℕ) ℕ
new_tap = record { key = some_key; request_id = some_id; state = Xfer.new default_sender; peer = 9 }

pub connected : connect quiet_net ("sink" ∷ []) some_id some_key default_sender ≡ ok new_tap
unfolding protofish4_rs.Runtime.Tap.connect_first
connected = refl

-- A turn in which the receiver's `EndAck` arrives, and one without a packet, whose timers run late.
abbrev end_ack_bytes : List ℕ
end_ack_bytes = 4 ∷ 2 ∷ (some_id ++ (0 ∷ 0 ∷ 0 ∷ 0 ∷ 70 ∷ 71 ∷ []))

abbrev quiet_turn : Instant → Turn ℕ
quiet_turn now = record {
  input = timed_out;
  ticked_at = now;
  tried_at = now;
  tick_sends = all_sent;
  handle_sends = all_sent;
  try_sends = all_sent;
}

abbrev end_ack_turn : Turn ℕ
end_ack_turn = record (quiet_turn (from_secs 3)) { input = arrived end_ack_bytes }

end_ack_opens : open_reply bytes_uuid clear_aead some_key end_ack_bytes ≡ ok body_end_ack
unfolding open_reply protofish4_rs.Crypto.open_datagram protofish4_rs.Crypto.open_sealed
    protofish4_rs.Header.parse protofish4_rs.Frame.kind_from_u8 protofish4_rs.Codec.decode_body
    protofish4_rs.Codec.expect_len
end_ack_opens = refl

new_tap_streams : new_tap.state.state ≡ Xfer.streaming
unfolding Xfer.new
new_tap_streams = refl

finish_lem_example :
    let answer =
      (finish bytes_uuid clear_aead new_tap (from_secs 2) all_sent (end_ack_turn ∷ [])).2 in
    Waited bytes_uuid clear_aead
      (from_secs 2)
      new_tap.state.cfg.finalize_timeout
      new_tap
      (end_ack_turn ∷ [])
      answer
    ⊎ ((e : Error (List ℕ) ℕ ℕ) × (answer ≡ some (err e))
        × Breaks bytes_uuid clear_aead new_tap.key new_tap.request_id all_sent e)
finish_lem_example =
    finish_lem bytes_uuid clear_aead new_tap (from_secs 2) all_sent (end_ack_turn ∷ [])
      new_tap_streams

late_turn :
    Any
      (λ (t : Turn ℕ). from_secs 2 + new_tap.state.cfg.finalize_timeout < t.ticked_at)
      (quiet_turn (from_secs 3) ∷ quiet_turn (from_secs 40) ∷ [])
unfolding Xfer.new
late_turn = inr (inl (omega arith))

finish_ends_example :
    (answer : Fallible (List ℕ) ℕ ℕ Unit) × ((finish bytes_uuid clear_aead new_tap
        (from_secs 2)
        all_sent
        (quiet_turn (from_secs 3) ∷ quiet_turn (from_secs 40) ∷ [])).2
      ≡ some answer)
finish_ends_example =
    finish_ends bytes_uuid clear_aead new_tap (from_secs 2) all_sent
      (quiet_turn (from_secs 3) ∷ quiet_turn (from_secs 40) ∷ []) new_tap_streams late_turn

pub clear_aead-Encrypts : Encrypts bytes_uuid clear_aead
clear_aead-Encrypts key nonce msg aad short e = cc

abbrev some_frame : Body
some_frame = body_data 20 (5 ∷ 6 ∷ [])

open_body-seal_packet_example :
    (datagram : List ℕ) × (seal_packet bytes_uuid clear_aead some_key some_id 7 some_frame
      ≡ ok datagram)
    × (request_id_of bytes_uuid clear_aead datagram ≡ ok some_id)
    × (open_body bytes_uuid clear_aead some_key datagram ≡ ok (7, some_frame))
    × (open_reply bytes_uuid clear_aead some_key datagram
        ≡ err (wrong_direction (kind_name (body_kind some_frame))))
open_body-seal_packet_example =
    open_body-seal_packet bytes_uuid clear_aead new_tap 7 some_frame clear_aead-Encrypts
      clear_aead-Decrypts some_id-IsRequestId (omega arith) (omega arith, omega arith) refl

dispatch_lem_example :
    let events = emit 7 some_frame ∷ resend ((1 ∷ 2 ∷ []) ∷ []) ∷ completed ∷ [] in
    let r = dispatch_from bytes_uuid clear_aead new_tap events all_sent 0 in
    ((e : Error (List ℕ) ℕ ℕ) × (r.2 ≡ err e))
    ⊎ ((r.2 ≡ ok tt) × Exactly bytes_uuid clear_aead new_tap events r.1 r.0)
dispatch_lem_example =
    dispatch_lem bytes_uuid clear_aead
      (emit 7 some_frame ∷ resend ((1 ∷ 2 ∷ []) ∷ []) ∷ completed ∷ []) new_tap all_sent 0

-- A frame that is taken at once, and the end, confirmed at the first turn.
abbrev pub some_ops : List (Op ℕ)
some_ops =
    frame_op 20 (5 ∷ 6 ∷ []) (record { start = from_secs 1; sends = all_sent; turns = [] })
    ∷ finish_op (record { start = from_secs 2; sends = all_sent; turns = end_ack_turn ∷ [] })
    ∷ []

run_ops-Sends_example :
    let r = run_ops bytes_uuid clear_aead new_tap some_ops in
    (calls : List (Call × Instant)) × ((Xfer.Runs.run (Xfer.new default_sender) calls).0
      ≡ r.0.state)
    × (length calls ≤ weight some_ops)
    × Sublist (pushed (Xfer.Runs.run (Xfer.new default_sender) calls).1) (offered some_ops)
    × Sends bytes_uuid clear_aead some_key some_id []
        (Xfer.Runs.run (Xfer.new default_sender) calls).1
        r.1
    × Distinct (nonces (Xfer.Runs.run (Xfer.new default_sender) calls).1)
run_ops-Sends_example =
    run_ops-Sends quiet_net bytes_uuid clear_aead ("sink" ∷ []) some_id some_key default_sender
      new_tap some_ops connected (omega arith)

-- The tap after its transfer failed.
abbrev failed_tap : Sender (List ℕ) (List ℕ) ℕ
failed_tap = record new_tap { state = record (Xfer.new default_sender) { state = Xfer.done } }
