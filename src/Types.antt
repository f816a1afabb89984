-- ===== src/Types.antt =====
-- protofish4-proto/src/types.rs. The newtypes over integers are their numbers: an `XferSeq` or
-- a `ControlSeq` is a u32, a `TimestampMs` a u64. An `Instant` is a number of nanoseconds on a
-- clock whose origin lies more than an hour before the transfer, and a `Duration` a number of
-- nanoseconds. A `RequestId` wraps a `Uuid`, a type of another crate.
pub mod Bytes
use protofish4_rs.Base.{ℕ, suc, ◌+◌, ◌-◌, ◌*◌, ◌%◌, ◌^◌, Bool, leb, if◌then◌else◌, List}

abbrev pub u16_mod : ℕ
u16_mod = 2 ^ 16

abbrev pub u32_mod : ℕ
u32_mod = 2 ^ 32

abbrev pub u32_max : ℕ
u32_max = u32_mod - 1

abbrev pub u64_mod : ℕ
u64_mod = 2 ^ 64

abbrev pub XferSeq : Type 0
XferSeq = ℕ

-- The constant `XferSeq::FIRST`.
abbrev pub first_xfer_seq : XferSeq
first_xfer_seq = 1

-- `XferSeq::next` is `saturating_add(1)`.
abbrev pub next_xfer_seq : XferSeq → XferSeq
next_xfer_seq s = if leb u32_max s then u32_max else s + 1

abbrev pub ControlSeq : Type 0
ControlSeq = ℕ

abbrev pub first_control_seq : ControlSeq
first_control_seq = 0

-- `ControlSeq::next` is `wrapping_add(1)`.
abbrev pub next_control_seq : ControlSeq → ControlSeq
next_control_seq s = (s + 1) % u32_mod

abbrev pub TimestampMs : Type 0
TimestampMs = ℕ

abbrev pub Instant : Type 0
Instant = ℕ

abbrev pub Duration : Type 0
Duration = ℕ

abbrev pub from_millis : ℕ → Duration
from_millis n = n * 1_000_000

abbrev pub from_secs : ℕ → Duration
from_secs n = n * 1_000_000_000

-- `Instant::duration_since` is zero when the other instant is the later one.
abbrev pub duration_since : Instant → Instant → Duration
duration_since now earlier = now - earlier

-- Which end a packet came from.
pub data Direction : Type 0 where
  send recv : Direction

abbrev pub direction_to_u8 : Direction → ℕ
direction_to_u8 send = 0x00
direction_to_u8 recv = 0x01

abbrev pub peer : Direction → Direction
peer send = recv
peer recv = send

pub Direction-discrete : Discrete Direction
Direction-discrete = hlevel

-- Nonce counter space.
pub data SeqClass : Type 0 where
  payload_class control_class : SeqClass

abbrev pub seq_class_to_u8 : SeqClass → ℕ
seq_class_to_u8 payload_class = 0x00
seq_class_to_u8 control_class = 0x01

pub data RelAbortReason : Type 0 where
  unrecoverable_gap buffer_exhausted stalled sender_discarded peer_gone not_attempted :
      RelAbortReason

-- How a reliable stream ended.
pub data RelOutcome : Type 0 where
  complete : XferSeq → RelOutcome
  aborted : RelAbortReason → RelOutcome

-- A `RequestId` is its `Uuid`. What this code calls of the `uuid` crate: `Uuid::as_bytes` and
-- `Uuid::from_bytes`.
pub record UuidApi (Uuid : Type 0) : Type 0 where
  pub as_bytes : Uuid → List ℕ
  pub from_bytes : List ℕ → Uuid

abbrev pub request_id_len : ℕ
request_id_len = 16
