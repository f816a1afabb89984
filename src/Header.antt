-- ===== src/Header.antt =====
-- protofish4-proto/src/header.rs.
pub mod RoundTrip
use protofish4_rs.Base.{
  ℕ, List, ◌∷◌, [], ◌++◌, ok, err, ◌>>=◌, ltb, not, ◌==◌, if◌then◌else◌, length, take, drop, get_or,
}
use protofish4_rs.Types.{UuidApi}
use protofish4_rs.Types.Bytes.{to_be_bytes, from_be_bytes}
use protofish4_rs.Failure.{truncated, unsupported_version, Fallible}
use protofish4_rs.Frame.{PacketKind, kind_to_u8, kind_from_u8}

abbrev pub version : ℕ
version = 0x04

abbrev pub header_len : ℕ
header_len = 22

abbrev pub request_id_off : ℕ
request_id_off = 2

abbrev pub seq_off : ℕ
seq_off = 18

pub record Header (Uuid : Type 0) : Type 0 where
  pub kind : PacketKind
  pub request_id : Uuid
  pub seq : ℕ

module _ {Uuid : Type 0} (uuid : UuidApi Uuid) where
  -- `buf[from..to]` of a buffer that is long enough is `take (to - from) (drop from buf)`.
  unfoldable pub parse : List ℕ → Fallible Uuid (Header Uuid × List ℕ)
  parse buf =
      if ltb (length buf) header_len
      then err (truncated header_len (length buf))
      else if not (get_or buf 0 0 == version)
      then err (unsupported_version (get_or buf 0 0))
      else do
        kind ← kind_from_u8 (get_or buf 1 0)
        let id = take 16 (drop request_id_off buf)
        let seq = from_be_bytes (take 4 (drop seq_off buf))
        ok (record { kind = kind; request_id = uuid.from_bytes id; seq = seq }, drop header_len buf)

  -- The array is built in the order of its ranges.
  unfoldable pub to_bytes : Header Uuid → List ℕ
  to_bytes h = version ∷ kind_to_u8 h.kind ∷ (uuid.as_bytes h.request_id ++ to_be_bytes 4 h.seq)

  unfoldable pub peek_request_id : List ℕ → Fallible Uuid Uuid
  peek_request_id buf =
      if ltb (length buf) header_len
      then err (truncated header_len (length buf))
      else if not (get_or buf 0 0 == version)
      then err (unsupported_version (get_or buf 0 0))
      else ok (uuid.from_bytes (take 16 (drop request_id_off buf)))
