-- ===== src/Lib.antt =====
-- protofish4: a sealed datagram protocol that carries one audio stream twice, at once and unreliably
-- for playback, and in order and reliably for a cache. This library models the protocol crate
-- (protofish4-proto), which does no I/O: it is fed decrypted packets and a clock, and returns events;
-- and the runtime crate (protofish4), which binds it to sockets and channels.
--
-- How the parts interact. A sender numbers frames (xfer/sender.rs), the codec and the crypto module
-- seal them under a nonce made of direction, class and number, and the ring (xfer/retrans.rs) keeps the
-- sealed bytes for retransmission. A receiver (xfer/receiver.rs) tracks what arrived
-- (xfer/gap_tracker.rs), plays every fresh frame, buffers the ones above a gap, asks for what is
-- missing, and says how the reliable stream ended. On the side of the sink an endpoint keeps one
-- receiver per request in a table, opens each datagram under the key of the request it names, and turns
-- the receiver's events into channel messages and sealed replies. On the side of the tap a sender with
-- one connected socket drives the state machine: it sends, waits for replies or 20 ms, runs the timers.
--
-- Which file models which part (paths from protofish4-proto/src, or from the root for protofish4):
--   Types, Types/Bytes   types.rs: numbers, instants, directions; big-endian bytes
--   Failure              error.rs
--   Frame                frame/mod.rs and frame/tag.rs
--   Codec                codec.rs: `encode_body`, `decode_body` and their helpers
--   Header               header.rs: `Header::parse` is `parse`, and so on
--   Crypto               crypto.rs: the methods `SessionKey::seal` and `open` are `seal` and
--                        `open_sealed`, the functions `seal` and `open` are `seal` and `open_datagram`
--   Crypto/Replay        crypto.rs: `ReplayWindow`, with `get` and `set` as `get_seen` and `set_seen`
--   Config               config.rs
--   Collections          the standard library's `BTreeSet<u32>` and `BTreeMap<u32, V>`, as sorted lists
--   Gap                  xfer/gap_tracker.rs: `record` is `record_seq`
--   Ring                 xfer/retrans.rs: the `VecDeque` is a list, oldest first
--   Sender               xfer/sender.rs: `push_frame`, `record_sealed`, `finish`, `handle`, `tick`
--   Receiver             xfer/receiver.rs: `handle`, `tick`, `set_buffered_ms`; a method with an `out`
--                        parameter returns what it pushes, and `⨾` is one method after another
--   Collections/Tables   the standard library's `HashMap`, as an association list
--   Runtime/Feedback     protofish4/src/receiver.rs: `BufferFeedback` and `ack_buffered_ms`
--   Runtime/Failure      protofish4/src/error.rs
--   Runtime/Entry        protofish4/src/receiver.rs: `Entry`, `Endpoint::apply`, `Entry::seal`, which is
--                        `seal_body`, and the parts of `on_datagram` and `tick` for one entry
--   Runtime/Endpoint     protofish4/src/receiver.rs: `arm`, `disarm`, `on_datagram`, `tick`
--   Runtime/Tap          protofish4/src/sender.rs: `connect`, `send_frame`, `finish`, `pump_once`,
--                        `dispatch`, `send_all`
--   Sender/Deadlines     what the calls of a sender say of its deadlines, told apart from its fields
--   Receiver/Asking      the rounds of the loop of `emit_nacks`
--   Runtime/Transfer     the two ends of one transfer together
--   Base                 lists, results and Boolean tests that the parts share
--   Tests                each theorem at a concrete input
--
-- A method that takes `&mut self` is a function that returns the new record. `Sender.Runs` and
-- `Receiver.Runs` drive these functions by any list of calls of the public methods, each with its
-- instant. Getters are the fields of the records.
--
-- The runtime. What the outside decides is a parameter. A `World` says, event by event of one call,
-- what the clock shows and whether a channel takes a frame; a `Turn` says what one wait for a datagram
-- ends with, when the timers run, and how the sends end; a `NetApi` answers lookups, `bind` and
-- `connect`. A call that sends or delivers returns what it sent and delivered, in order. The tasks of
-- an endpoint share its table behind a lock, so that `Endpoint.Sections` takes each section under the
-- lock as one step and a run as any sequence of steps; `on_datagram` is two of them, the second being
-- the `disarm` of a finished request, and `Endpoint.Serving` takes the loop `run`, called `serve`,
-- apart into them; and the task that a dropped `ArmedRequest` spawns is one. `tick` takes the order in
-- which the `HashMap` iterates as an argument. A loop of a tap takes the turns that it may see and
-- returns nothing, `none`, as long as it waits.
--
-- The two ends together. `Runtime.Transfer` takes a tap from `connect` on with any calls, and an endpoint
-- from `arm` on with any sections. The network is a hypothesis on the datagrams that the endpoint
-- receives: each is one that the tap sent, in any order and any number of times, or it does not open
-- under the key of the request, which is what the cipher promises of anything else. `Faithful` is what
-- the two promise together; `OpensTo` and `Reaches` carry the packets of a request from the datagrams
-- through the table to the calls of its receiver, and `Ran` carries the frames from the calls of a tap
-- through its state machine to the datagrams.
--
-- Bounds. A u16, u32 or u64 is a natural number, and its width is a hypothesis where it matters;
-- `next_xfer_seq` saturates and `next_control_seq` and the control counter wrap. The additions of
-- xfer/gap_tracker.rs wrap at 2 ^ 32, as they do in a release build. `usize` does not wrap: every byte
-- count is bounded by a budget, and a single datagram. Instants are nanoseconds of a clock that began
-- more than an hour before the transfer, so that `now - 3600 s` of `emit_nacks` exists.
--
-- Fuel. Each loop runs on fuel that is an upper bound of its rounds, given where it is called: the size
-- of the set (`advance`), the distance to the next element (`fill`), the number of entries plus one
-- (`shrink`, `ack_loop`), the length of the prefix still to be released (`release_loop`). The theorems
-- about the functions that contain these loops hold with exactly that fuel.
--
-- Not modelled: the cipher ChaCha20-Poly1305 and the `uuid` crate, which are the parameters `AeadApi` and
-- `UuidApi`, with what is relied on as hypotheses; `RequestId::random` and `random_key`; the formatting
-- of values; and of the runtime the sockets, channels and tasks themselves (`Endpoint::bind`,
-- `local_addr`), which are I/O.
pub mod Base
pub mod Types
pub mod Failure
pub mod Frame
pub mod Codec
pub mod Header
pub mod Crypto
pub mod Collections
pub mod Gap
pub mod Ring
pub mod Config
pub mod Sender
pub mod Receiver
pub mod Runtime
pub mod Tests
