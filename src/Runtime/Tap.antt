-- ===== src/Runtime/Tap.antt =====
-- protofish4/src/sender.rs: the tap side of one transfer. The socket is connected to the sink; what it
-- receives, whether it takes a datagram, and the clock come from outside, as the fields of `Turn`.
pub mod Dispatching
pub mod Declared
pub mod Answered
pub mod Turns
pub mod Waiting
pub mod Packets
pub mod Sending
pub mod Dispatched
pub mod Calls
pub mod Loops
pub mod Verbatim
pub mod Counting
pub mod Complete
pub mod Ended
use Prim.Native.String.{String}
use protofish4_rs.Base.{
  ℕ, suc, ◌+◌, List, [], ◌∷◌, ◌++◌, Option, none, some, Bool, true, false, ok, err, ◌>>=◌, length,
  if◌then◌else◌,
}
use protofish4_rs.Types.{XferSeq, TimestampMs, Instant, send, recv, UuidApi}
use protofish4_rs.Frame.{Body, body_data, body_kind}
use protofish4_rs.Failure as Proto
use protofish4_rs.Codec.{encode_body, decode_body}
use protofish4_rs.Header.{Header}
use protofish4_rs.Crypto.{AeadApi, seal, open_datagram}
use protofish4_rs.Config.{SenderConfig}
use protofish4_rs.Sender as Xfer
use protofish4_rs.Sender.{XferSender, SendEvent, emit, resend, completed, failed}
use protofish4_rs.Sender.Runs.{to_list}
use protofish4_rs.Runtime.Failure.{
  Error, io, proto, no_route_to_sink, no_ack, finalize_timeout, Fallible,
}

pub record Sender (Uuid Key Addr : Type 0) : Type 0 where
  pub key : Key
  pub request_id : Uuid
  pub state : XferSender
  pub peer : Addr

-- What a call leaves, what it sent, and what it returns.
abbrev pub Step : Type 0 → Type 0 → Type 0 → Type 0 → Type 0
Step Uuid Key Addr Io = Sender Uuid Key Addr × List (List ℕ) × Fallible Uuid Addr Io Unit

-- The same of a loop; `none` as long as it waits.
abbrev pub Loop : Type 0 → Type 0 → Type 0 → Type 0 → Type 0
Loop Uuid Key Addr Io = Sender Uuid Key Addr × List (List ℕ) × Option (Fallible Uuid Addr Io Unit)

-- How `timeout(TICK, socket.recv(…))` ends; a datagram is what `recv` wrote to the buffer.
pub data Input (Io : Type 0) : Type 0 where
  arrived : List ℕ → Input Io
  recv_failed : Io → Input Io
  timed_out : Input Io

-- One round of the receive-and-tick loop: the input, the instants at which
-- the timers run and a frame is tried again, and how the sends of the three end, in order.
pub record Turn (Io : Type 0) : Type 0 where
  pub input : Input Io
  pub ticked_at : Instant
  pub tried_at : Instant
  pub handle_sends : ℕ → Option Io
  pub tick_sends : ℕ → Option Io
  pub try_sends : ℕ → Option Io

-- `matches!(body, Body::Data { .. })`.
abbrev pub is_data : Body → Bool
is_data (body_data ts payload) = true
is_data _ = false

-- `for d in datagrams { self.socket.send(&d).await?; }`, with the datagrams that went out.
unfoldable pub send_each {ℓ} :
    {Io : Type ℓ} → List (List ℕ) → (ℕ → Option Io) → ℕ → List (List ℕ) × Option Io
send_each [] sends i = ([], none)
send_each (d ∷ ds) sends i = elim (sends i) [
  | some e ↦ ([], some e)
  | none ↦ (let (out, failure) = send_each ds sends (suc i) in (d ∷ out, failure))
]

module _ {Uuid Key Addr Io : Type 0} where
  -- `?` between two calls, and in front of a loop.
  abbrev pub and_then :
      Step Uuid Key Addr Io → (Sender Uuid Key Addr → Step Uuid Key Addr Io) → Step Uuid Key Addr Io
  and_then (s, out, err e) f = (s, out, err e)
  and_then (s, out, ok u) f = (let (s', out', r) = f s in (s', out ++ out', r))

  abbrev pub and_loop :
      Step Uuid Key Addr Io → (Sender Uuid Key Addr → Loop Uuid Key Addr Io) → Loop Uuid Key Addr Io
  and_loop (s, out, err e) f = (s, out, some (err e))
  and_loop (s, out, ok u) f = (let (s', out', r) = f s in (s', out ++ out', r))

module _ {Uuid Key Addr : Type 0} where
  -- `if is_data { self.state.record_sealed(seq, sealed); }`.
  unfoldable pub record_if : Bool → Sender Uuid Key Addr → XferSeq → List ℕ → Sender Uuid Key Addr
  record_if true s seq sealed = record s { state = Xfer.record_sealed s.state seq sealed }
  record_if false s seq sealed = s

module _ {Uuid Key : Type 0} (uuid : UuidApi Uuid) (aead : AeadApi Key) where
  -- `crypto::open` and `decode_body`.
  unfoldable pub open_reply : Key → List ℕ → Proto.Fallible Uuid Body
  open_reply key datagram = do
    (header, plaintext) ← open_datagram uuid aead key datagram recv
    decode_body header.kind plaintext

  -- The datagram of an `Emit`.
  unfoldable pub seal_packet : Key → Uuid → XferSeq → Body → Proto.Fallible Uuid (List ℕ)
  seal_packet key id seq body = do
    let header : Header Uuid = record { kind = body_kind body; request_id = id; seq = seq }
    plaintext ← encode_body body
    seal uuid aead key header send plaintext

module _ {Uuid Key Addr Io : Type 0} (uuid : UuidApi Uuid) (aead : AeadApi Key) where
  -- `dispatch`; `i` counts the sends.
  unfoldable pub dispatch_from :
      Sender Uuid Key Addr → List SendEvent → (ℕ → Option Io) → ℕ → Step Uuid Key Addr Io
  dispatch_from s [] sends i = (s, [], ok tt)
  dispatch_from s (emit seq body ∷ events) sends i =
      elim (seal_packet uuid aead s.key s.request_id seq body) [
        | err e ↦ (s, [], err (proto e))
        | ok sealed ↦ elim (sends i) [
          | some e ↦ (s, [], err (io e))
          | none ↦
              (let (s', out, r) =
                  dispatch_from (record_if (is_data body) s seq sealed) events sends (suc i) in
                (s', sealed ∷ out, r))
        ]
      ]
  dispatch_from s (resend datagrams ∷ events) sends i =
      let (out, failure) = send_each datagrams sends i in
      elim failure [
        | some e ↦ (s, out, err (io e))
        | none ↦
            (let (s', out', r) = dispatch_from s events sends (i + length datagrams) in
              (s', out ++ out', r))
      ]
  dispatch_from s (completed ∷ events) sends i = dispatch_from s events sends i
  dispatch_from s (failed Xfer.no_ack ∷ events) sends i = (s, [], err (no_ack s.peer))
  dispatch_from s (failed Xfer.finalize_timed_out ∷ events) sends i = (s, [], err finalize_timeout)

  abbrev pub dispatch :
      Sender Uuid Key Addr → XferSender × List SendEvent → (ℕ → Option Io) → Step Uuid Key Addr Io
  dispatch s (state, events) sends = dispatch_from (record s { state = state }) events sends 0

  -- The packet of a turn, if there is one that opens.
  unfoldable pub pump_packet : Sender Uuid Key Addr → Turn Io → Step Uuid Key Addr Io
  pump_packet s t = elim t.input [
    | arrived datagram ↦ elim (open_reply uuid aead s.key datagram) [
      | err e ↦ (s, [], ok tt)
      | ok body ↦ dispatch s (Xfer.handle s.state body) t.handle_sends
    ]
    | recv_failed e ↦ (s, [], err (io e))
    | timed_out ↦ (s, [], ok tt)
  ]

  abbrev pub pump_timers : Turn Io → Sender Uuid Key Addr → Step Uuid Key Addr Io
  pump_timers t s = dispatch s (Xfer.tick s.state t.ticked_at) t.tick_sends

  unfoldable pub pump_once : Sender Uuid Key Addr → Turn Io → Step Uuid Key Addr Io
  pump_once s t = and_then (pump_packet s t) (pump_timers t)

  -- `send_frame`: the first try at `now`, and one after each turn.
  unfoldable pub send_frame :
      Sender Uuid Key Addr
      → TimestampMs
      → List ℕ
      → Instant
      → (ℕ → Option Io)
      → List (Turn Io)
      → Loop Uuid Key Addr Io
  send_frame s ts payload now sends [] =
      let (state, tried) = Xfer.push_frame s.state ts payload now in
      elim tried [
        | some ev ↦ and_loop (dispatch s (state, ev ∷ []) sends) (λ s'. (s', [], some (ok tt)))
        | none ↦ (record s { state = state }, [], none)
      ]
  send_frame s ts payload now sends (t ∷ turns) =
      let (state, tried) = Xfer.push_frame s.state ts payload now in
      elim tried [
        | some ev ↦ and_loop (dispatch s (state, ev ∷ []) sends) (λ s'. (s', [], some (ok tt)))
        | none ↦
            and_loop (pump_once (record s { state = state }) t)
              (λ s'. send_frame s' ts payload t.tried_at t.try_sends turns)
      ]

  -- The `while` of `finish`.
  unfoldable pub wait_done : List (Turn Io) → Sender Uuid Key Addr → Loop Uuid Key Addr Io
  wait_done [] s = (s, [], if Xfer.is_done s.state then some (ok tt) else none)
  wait_done (t ∷ turns) s = elim (Xfer.is_done s.state) [
    | true ↦ (s, [], some (ok tt))
    | false ↦ and_loop (pump_once s t) (wait_done turns)
  ]

  unfoldable pub finish :
      Sender Uuid Key Addr → Instant → (ℕ → Option Io) → List (Turn Io) → Loop Uuid Key Addr Io
  finish s now sends turns =
      let (state, ev) = Xfer.finish s.state now in
      and_loop (dispatch s (state, to_list ev) sends) (wait_done turns)

-- `lookup_host` with `next`, and `bind` and `connect` of the socket, which say how they fail.
pub record NetApi (Addr Io : Type 0) : Type 0 where
  pub first_address : String → Option Addr
  pub is_ipv4 : Addr → Bool
  pub any_v4 : Addr
  pub any_v6 : Addr
  pub bind : Addr → Option Io
  pub connect : Addr → Addr → Option Io

module _ {Uuid Key Addr Io : Type 0} (net : NetApi Addr Io) where
  unfoldable pub connect_first :
      List String
      → List String
      → Uuid
      → Key
      → SenderConfig
      → Fallible Uuid Addr Io (Sender Uuid Key Addr)
  connect_first deliver_to [] id key cfg = err (no_route_to_sink deliver_to)
  connect_first deliver_to (authority ∷ rest) id key cfg = elim (net.first_address authority) [
    | none ↦ connect_first deliver_to rest id key cfg
    | some peer ↦
        (let local = if net.is_ipv4 peer then net.any_v4 else net.any_v6 in
          elim (net.bind local) [
            | some e ↦ err (io e)
            | none ↦ elim (net.connect local peer) [
              | some e ↦ err (io e)
              | none ↦ ok (record { key = key; request_id = id; state = Xfer.new cfg; peer = peer })
            ]
          ])
  ]

  abbrev pub connect :
      List String → Uuid → Key → SenderConfig → Fallible Uuid Addr Io (Sender Uuid Key Addr)
  connect deliver_to id key cfg = connect_first deliver_to deliver_to id key cfg

-- What the outside does during one call: the instant at which it starts, how its own sends end, and
-- the turns of its loop.
pub record Drive (Io : Type 0) : Type 0 where
  pub start : Instant
  pub sends : ℕ → Option Io
  pub turns : List (Turn Io)

module _ {Uuid Key Addr Io : Type 0} (net : NetApi Addr Io) (uuid : UuidApi Uuid)
    (aead : AeadApi Key) where
  -- `.await?` on a loop, and the rest of the function.
  abbrev and_wait :
      Loop Uuid Key Addr Io → (Sender Uuid Key Addr → Loop Uuid Key Addr Io) → Loop Uuid Key Addr Io
  and_wait (s, out, none) f = (s, out, none)
  and_wait (s, out, some (err e)) f = (s, out, some (err e))
  and_wait (s, out, some (ok u)) f = (let (s', out', r) = f s in (s', out ++ out', r))

  -- `send_all` behind `connect`.
  unfoldable pub send_rest :
      Sender Uuid Key Addr
      → List (TimestampMs × List ℕ × Drive Io)
      → Drive Io
      → Loop Uuid Key Addr Io
  send_rest s [] last = finish uuid aead s last.start last.sends last.turns
  send_rest s ((ts, payload, d) ∷ frames) last =
      and_wait (send_frame uuid aead s ts payload d.start d.sends d.turns)
        (λ s'. send_rest s' frames last)

  unfoldable pub send_all :
      List String
      → Uuid
      → Key
      → SenderConfig
      → List (TimestampMs × List ℕ × Drive Io)
      → Drive Io
      → Fallible Uuid Addr Io (Loop Uuid Key Addr Io)
  send_all deliver_to id key cfg frames last = do
    s ← connect net deliver_to id key cfg
    ok (send_rest s frames last)
