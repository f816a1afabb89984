-- ===== src/Frame.antt =====
-- protofish4-proto/src/frame/mod.rs and frame/tag.rs.
use Prim.Native.String.{String}
use protofish4_rs.Base.{ℕ, List, ok, err, ◌==◌, if◌then◌else◌}
use protofish4_rs.Types.{
  XferSeq, TimestampMs, Direction, send, recv, SeqClass, payload_class, control_class,
}
use protofish4_rs.Failure.{unknown_kind, Fallible}

pub data PacketKind : Type 0 where
  kind_data kind_end kind_end_ack kind_ack kind_nack kind_keepalive : PacketKind

-- The discriminants of the `repr(u8)` enum.
abbrev pub kind_to_u8 : PacketKind → ℕ
kind_to_u8 kind_data = 0x00
kind_to_u8 kind_end = 0x01
kind_to_u8 kind_end_ack = 0x02
kind_to_u8 kind_ack = 0x03
kind_to_u8 kind_nack = 0x04
kind_to_u8 kind_keepalive = 0x05

unfoldable pub kind_from_u8 : {Uuid : Type 0} → ℕ → Fallible Uuid PacketKind
kind_from_u8 v =
    if v == 0x00
    then ok kind_data
    else if v == 0x01
    then ok kind_end
    else if v == 0x02
    then ok kind_end_ack
    else if v == 0x03
    then ok kind_ack
    else if v == 0x04
    then ok kind_nack
    else if v == 0x05
    then ok kind_keepalive
    else err (unknown_kind v)

abbrev pub kind_name : PacketKind → String
kind_name kind_data = "Data"
kind_name kind_end = "End"
kind_name kind_end_ack = "EndAck"
kind_name kind_ack = "Ack"
kind_name kind_nack = "Nack"
kind_name kind_keepalive = "Keepalive"

-- `PacketKind::direction`.
abbrev pub kind_direction : PacketKind → Direction
kind_direction kind_data = send
kind_direction kind_end = send
kind_direction kind_keepalive = send
kind_direction kind_end_ack = recv
kind_direction kind_ack = recv
kind_direction kind_nack = recv

-- `PacketKind::seq_class`.
abbrev pub kind_seq_class : PacketKind → SeqClass
kind_seq_class kind_data = payload_class
kind_seq_class _ = control_class

-- The decrypted body of a packet; a payload is its bytes.
pub data Body : Type 0 where
  -- `ts`, `payload`.
  body_data : TimestampMs → List ℕ → Body
  -- `final_seq`.
  body_end : XferSeq → Body
  body_end_ack : Body
  -- `contiguous`, `highest`, `buffered_ms`.
  body_ack : XferSeq → XferSeq → ℕ → Body
  -- `missing`.
  body_nack : List XferSeq → Body
  -- `lost_below`.
  body_keepalive : XferSeq → Body

-- `Body::kind`.
abbrev pub body_kind : Body → PacketKind
body_kind (body_data ts payload) = kind_data
body_kind (body_end final_seq) = kind_end
body_kind body_end_ack = kind_end_ack
body_kind (body_ack contiguous highest buffered_ms) = kind_ack
body_kind (body_nack missing) = kind_nack
body_kind (body_keepalive lost_below) = kind_keepalive
