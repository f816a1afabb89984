-- ===== src/Tests/Serving.antt =====
-- An endpoint of protofish4/src/receiver.rs at concrete runs. Request ids, keys and datagrams are lists
-- of bytes, and addresses are numbers.
use protofish4_rs.Base.{
  ℕ, ◌+◌, ◌<◌, ◌≤◌, ◌≡◌, ◌≢◌, ◌↔◌, refl, ◌⊎◌, List, [], ◌∷◌, ◌++◌, Option, none, some, Bool, true,
  false, ◌&&◌, ◌==◌, ==_iff, ok, err, arith, min, ◌-◌, length,
}
use protofish4_rs.Types.{Instant, from_secs, u16_mod, u32_mod}
use protofish4_rs.Frame.{Body, body_data, body_ack, body_kind, kind_name}
use protofish4_rs.Failure.{wrong_direction}
use protofish4_rs.Config.{audio_engine}
use protofish4_rs.Collections.Tables
use protofish4_rs.Collections.Tables.{Eq}
use protofish4_rs.Receiver
use protofish4_rs.Receiver.Runs as Inner
use protofish4_rs.Runtime.Feedback.{
  default_feedback, set_playhead_ms, buffer_report_ttl, ack_buffered_ms, ack_buffered_ms_lem,
}
use protofish4_rs.Runtime.Entry.{World, Entry, armed, open_body, seal_body}
use protofish4_rs.Runtime.Entry.Runs
use protofish4_rs.Runtime.Entry.Runs.{Call, packet_call, tick_call}
use protofish4_rs.Runtime.Entry.Numbering.{Replies, run-Replies}
use protofish4_rs.Runtime.Endpoint.{Endpoint, arm, on_datagram, tick}
use protofish4_rs.Runtime.Endpoint.Sections.{
  step, Section, receive_section, report_section, received, run,
}
use protofish4_rs.Runtime.Endpoint.Requests.{AllFair, Lives, run_independent}
use protofish4_rs.Runtime.Endpoint.Independent.{After}
use protofish4_rs.Runtime.Endpoint.Serving.{
  Round, arrived, recv_failed, serve, IsServable, ServedBy,
}
use protofish4_rs.Runtime.Endpoint.Live.{IsLive, empty-IsLive, arm-IsLive, serve_lem}
use protofish4_rs.Runtime.Failure.{io}
use protofish4_rs.Runtime.Endpoint.Routing.{Routed, on_datagram_lem}
use protofish4_rs.Runtime.Tap.{open_reply}
use protofish4_rs.Runtime.Tap.Packets.{open_reply-seal_body}
use protofish4_rs.Tests.Wire.{
  bytes_uuid, some_id, some_id-IsRequestId, clear_aead, clear_aead-Decrypts,
}
use protofish4_rs.Tests.Tapping.{some_key, clear_aead-Encrypts}

abbrev same_bytes : List ℕ → List ℕ → Bool
same_bytes [] [] = true
same_bytes (x ∷ xs) (y ∷ ys) = (let rest = same_bytes xs ys in (x == y) && rest)
same_bytes _ _ = false

pub same_bytes_iff : (xs ys : List ℕ) → (same_bytes xs ys ≡ true) ↔ (xs ≡ ys)
same_bytes_iff [] [] = ground arith
same_bytes_iff [] (y ∷ ys) = ground arith
same_bytes_iff (x ∷ xs) [] = ground arith
same_bytes_iff (x ∷ xs) (y ∷ ys) = ground (arith, ==_iff x y, same_bytes_iff xs ys)

instance unfoldable pub bytes_Eq : Eq (List ℕ)
bytes_Eq = record { beq = same_bytes; beq_iff = same_bytes_iff }

-- The clock stands and every channel takes what is sent.
abbrev pub open_world : World
open_world = record { now = λ i. from_secs 4001; unrel_ready = λ i. true; rel_open = λ i. true }

-- The request of `some_id`, armed alone.
abbrev pub one_armed : Endpoint (List ℕ) (List ℕ) ℕ
one_armed = (some_id, armed some_key audio_engine (from_secs 4000)) ∷ []

pub arm_succeeds : arm {Io = ℕ} [] some_id some_key audio_engine (from_secs 4000) ≡ ok one_armed
unfolding arm Tables.get Tables.insert
arm_succeeds = refl

-- Frame 1 with two bytes, as the tap of that request seals it.
abbrev pub frame_bytes : List ℕ
frame_bytes =
    4 ∷ 0 ∷ (some_id ++ (0 ∷ 0 ∷ 0 ∷ 1 ∷ 70 ∷ 71 ∷ 0 ∷ 0 ∷ 0 ∷ 0 ∷ 0 ∷ 0 ∷ 0 ∷ 20 ∷ 5 ∷ 6 ∷ []))

frame_opens :
    open_body bytes_uuid clear_aead some_key frame_bytes ≡ ok (1, body_data 20 (5 ∷ 6 ∷ []))
unfolding open_body protofish4_rs.Crypto.open_datagram protofish4_rs.Crypto.open_sealed
    protofish4_rs.Header.parse protofish4_rs.Frame.kind_from_u8 protofish4_rs.Codec.decode_body
    protofish4_rs.Codec.expect_len protofish4_rs.Codec.take_u64 protofish4_rs.Codec.get_range
frame_opens = refl

abbrev some_sections : List (Section (List ℕ) (List ℕ) ℕ × Instant)
some_sections =
    (receive_section frame_bytes 9 open_world, from_secs 4001)
    ∷ (report_section some_id 20, from_secs 4002)
    ∷ []

some_sections-AllFair : AllFair some_sections
some_sections-AllFair = ((ground arith, λ i. refl), (tt, tt))

one_armed_found : Tables.get some_id one_armed ≡ some (armed some_key audio_engine (from_secs 4000))
unfolding Tables.get bytes_Eq
one_armed_found = refl

starts_small : (armed {Addr = ℕ} some_key audio_engine (from_secs 4000)).control_seq < u32_mod
unfolding armed
starts_small = omega arith

abbrev pub is_there : Option (Entry (List ℕ) ℕ) → Bool
is_there none = false
is_there (some x) = true

pub there_not_none : (o : Option (Entry (List ℕ) ℕ)) → is_there o ≡ true → o ≢ none
there_not_none o h e = ground arith

pub armed_is_there : is_there (Tables.get some_id one_armed) ≡ true
unfolding Tables.get bytes_Eq
armed_is_there = refl

frame_keeps :
    is_there (
      Tables.get some_id
        (step bytes_uuid clear_aead one_armed
          (receive_section frame_bytes 9 open_world)
          (from_secs 4001)).0)
    ≡ true
unfolding step protofish4_rs.Runtime.Endpoint.receive protofish4_rs.Runtime.Entry.on_packet
    protofish4_rs.Runtime.Entry.apply protofish4_rs.Runtime.Entry.apply_from
    protofish4_rs.Runtime.Entry.open_body protofish4_rs.Crypto.request_id_of
    protofish4_rs.Header.peek_request_id protofish4_rs.Crypto.open_datagram
    protofish4_rs.Crypto.open_sealed protofish4_rs.Header.parse protofish4_rs.Frame.kind_from_u8
    protofish4_rs.Codec.decode_body protofish4_rs.Codec.expect_len protofish4_rs.Codec.take_u64
    protofish4_rs.Codec.get_range Tables.get Tables.insert bytes_Eq armed
frame_keeps = refl

some_sections-Lives : Lives bytes_uuid clear_aead some_id one_armed some_sections
some_sections-Lives = (there_not_none _ armed_is_there, (there_not_none _ frame_keeps, tt))

run_independent_example :
    let x : Entry (List ℕ) ℕ = armed some_key audio_engine (from_secs 4000) in
    let r = run bytes_uuid clear_aead one_armed some_sections in
    After bytes_uuid clear_aead some_id x (received some_sections) r.0 r.1
run_independent_example =
    run_independent bytes_uuid clear_aead some_id (armed some_key audio_engine (from_secs 4000))
      one_armed some_sections one_armed_found some_sections-AllFair some_sections-Lives

on_datagram_lem_example :
    Routed bytes_uuid clear_aead one_armed frame_bytes 9
      (from_secs 4001)
      open_world
      (on_datagram bytes_uuid clear_aead one_armed frame_bytes 9 (from_secs 4001) open_world)
on_datagram_lem_example =
    on_datagram_lem bytes_uuid clear_aead one_armed frame_bytes 9 (from_secs 4001) open_world

-- A frame that leaves a gap, and a tick, which acknowledges and asks for the gap.
abbrev some_calls : List (Call ℕ × Instant)
some_calls =
    (packet_call 2 (body_data 20 (5 ∷ 6 ∷ [])) 9 open_world, from_secs 4001)
    ∷ (tick_call open_world, from_secs 4002)
    ∷ []

some_events :
    length
      (Inner.run (Receiver.new audio_engine (from_secs 4000)) (Runs.receiver_calls some_calls)).1
    ≡ 4
unfolding Inner.run Inner.step Receiver.handle Receiver.maybe_ack Receiver.on_body Receiver.on_data
    Receiver.check_finish Receiver.close_if_acked Receiver.ack_end Receiver.finish_complete
    Receiver.new protofish4_rs.Gap.record_seq protofish4_rs.Gap.new Receiver.buffer_frame
    protofish4_rs.Gap.advance protofish4_rs.Collections.Sets.insert
    protofish4_rs.Collections.Sets.remove Receiver.release_contiguous Receiver.release_loop
    protofish4_rs.Collections.Maps.insert protofish4_rs.Collections.Maps.remove
    protofish4_rs.Collections.Maps.get Receiver.check_finish_at Receiver.finish_rel Receiver.tick
    Receiver.watch_rel Receiver.emit_nacks Receiver.nack_loop protofish4_rs.Gap.missing
    protofish4_rs.Gap.missing_loop protofish4_rs.Gap.fill
some_events = refl

few_events :
    length
      (Inner.run (Receiver.new audio_engine (from_secs 4000)) (Runs.receiver_calls some_calls)).1
    < u32_mod
few_events = omega (arith, some_events)

run-Replies_example :
    Replies bytes_uuid some_id 0 u32_mod
      (Runs.run bytes_uuid clear_aead
        (armed some_key audio_engine (from_secs 4000))
        some_id
        some_calls).2
run-Replies_example =
    run-Replies bytes_uuid clear_aead some_key audio_engine (from_secs 4000) some_id some_calls
      some_id-IsRequestId few_events

open_reply-seal_body_example :
    let x : Entry (List ℕ) ℕ = armed some_key audio_engine (from_secs 4000) in
    let body = body_ack 3 5 40 in
    (datagram : List ℕ) × ((seal_body bytes_uuid clear_aead x some_id body).1 ≡ some datagram)
    × (open_reply bytes_uuid clear_aead x.key datagram ≡ ok body)
    × (open_body bytes_uuid clear_aead x.key datagram
        ≡ err (wrong_direction (kind_name (body_kind body))))
    × ((seal_body bytes_uuid clear_aead x some_id body).0.control_seq ≢ x.control_seq)
open_reply-seal_body_example =
    open_reply-seal_body bytes_uuid clear_aead (armed some_key audio_engine (from_secs 4000))
      some_id (body_ack 3 5 40) clear_aead-Encrypts clear_aead-Decrypts some_id-IsRequestId
      starts_small (ground arith) refl

ack_buffered_ms_lem_example :
    let ms =
      ack_buffered_ms
        (set_playhead_ms (default_feedback (from_secs 4000)) 500 (from_secs 4001))
        0
        800
        (from_secs 4002) in
    (ms < u16_mod)
    × (((from_secs 4002 ≤ from_secs 4001 + buffer_report_ttl)
          × (ms ≡ min (800 - 500) (u16_mod - 1)))
        ⊎ ((from_secs 4001 + buffer_report_ttl < from_secs 4002 + 1_000_000) × (ms ≡ 0)))
ack_buffered_ms_lem_example =
    ack_buffered_ms_lem (default_feedback (from_secs 4000)) 500 0 800 (from_secs 4001)
      (from_secs 4002) (omega arith) (omega arith) (omega arith)

-- Two datagrams, the second of nobody's, and then the socket fails.
abbrev some_rounds : List (Round ℕ ℕ)
some_rounds =
    arrived frame_bytes 9 (from_secs 4001) open_world
    ∷ arrived (7 ∷ 7 ∷ []) 3 (from_secs 4002) open_world
    ∷ recv_failed 5
    ∷ []

some_rounds-IsServable : IsServable some_rounds
some_rounds-IsServable = ((ground arith, λ i. refl), ((ground arith, λ i. refl), tt))

one_armed-IsLive : IsLive one_armed
one_armed-IsLive =
    arm-IsLive {Io = ℕ} [] one_armed some_id some_key audio_engine (from_secs 4000) arm_succeeds
      empty-IsLive

serve_lem_example :
    let (r, failure) = serve bytes_uuid clear_aead one_armed some_rounds in
    (failure ≡ some (io 5))
    × ServedBy bytes_uuid clear_aead one_armed (frame_bytes ∷ (7 ∷ 7 ∷ []) ∷ []) r
    × IsLive r.0
    × ((ids : List (List ℕ)) (now : Instant) (ws : List ℕ → World)
        → IsLive (tick bytes_uuid clear_aead r.0 ids now ws).0)
serve_lem_example =
    serve_lem bytes_uuid clear_aead some_rounds one_armed some_rounds-IsServable one_armed-IsLive
