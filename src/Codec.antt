-- ===== src/Codec.antt =====
-- protofish4-proto/src/codec.rs. A buffer is its list of bytes.
pub mod RoundTrip
pub mod Canonical
use Prim.Native.String.{String}
use protofish4_rs.Base.{
  ℕ, zero, suc, ◌+◌, ◌*◌, ◌%◌, Option, some, none, List, [], ◌∷◌, ◌++◌, Result, ok, err, ok_or,
  ◌>>=◌, ◌>>◌, ltb, leb, if◌then◌else◌, length, take, drop,
}
use protofish4_rs.Types.{XferSeq, u16_mod}
use protofish4_rs.Types.Bytes.{to_be_bytes, from_be_bytes}
use protofish4_rs.Failure.{malformed_body, trailing_bytes, payload_too_large, Fallible}
use protofish4_rs.Frame.{
  PacketKind, kind_data, kind_end, kind_end_ack, kind_ack, kind_nack, kind_keepalive, kind_name,
  Body, body_data, body_end, body_end_ack, body_ack, body_nack, body_keepalive,
}

abbrev pub max_payload : ℕ
max_payload = 1024

abbrev pub max_nack_entries : ℕ
max_nack_entries = 128

-- The loop of `encode_body` over the missing sequence numbers.
abbrev pub encode_seqs : List XferSeq → List ℕ
encode_seqs [] = []
encode_seqs (seq ∷ missing) = to_be_bytes 4 seq ++ encode_seqs missing

-- `slice.get(from..to)`.
abbrev pub get_range : List ℕ → ℕ → ℕ → Option (List ℕ)
get_range buf at len = if leb (at + len) (length buf) then some (take len (drop at buf)) else none

module _ {Uuid : Type 0} where
  unfoldable pub encode_body : Body → Fallible Uuid (List ℕ)
  encode_body (body_data ts payload) =
      if ltb max_payload (length payload)
      then err (payload_too_large (length payload) max_payload)
      else ok (to_be_bytes 8 ts ++ payload)
  encode_body (body_end final_seq) = ok (to_be_bytes 4 final_seq)
  encode_body body_end_ack = ok []
  encode_body (body_ack contiguous highest buffered_ms) =
      ok (to_be_bytes 4 contiguous ++ (to_be_bytes 4 highest ++ to_be_bytes 2 buffered_ms))
  encode_body (body_nack missing) =
      if ltb max_nack_entries (length missing)
      then err (payload_too_large (length missing) max_nack_entries)
      else ok (to_be_bytes 2 (length missing % u16_mod) ++ encode_seqs missing)
  encode_body (body_keepalive lost_below) = ok (to_be_bytes 4 lost_below)

  unfoldable pub expect_len : List ℕ → ℕ → String → Fallible Uuid (Unit {0})
  expect_len buf want kind =
      if ltb (length buf) want
      then err (malformed_body kind "body shorter than the fixed layout")
      else if ltb want (length buf)
      then err (trailing_bytes kind)
      else ok tt

  unfoldable pub take_u16 : List ℕ → ℕ → String → Fallible Uuid ℕ
  take_u16 buf at kind = do
    b ← ok_or (get_range buf at 2) (malformed_body kind "truncated u16")
    ok (from_be_bytes b)

  unfoldable pub take_u32 : List ℕ → ℕ → String → Fallible Uuid ℕ
  take_u32 buf at kind = do
    b ← ok_or (get_range buf at 4) (malformed_body kind "truncated u32")
    ok (from_be_bytes b)

  unfoldable pub take_u64 : List ℕ → ℕ → String → Fallible Uuid ℕ
  take_u64 buf at kind = do
    b ← ok_or (get_range buf at 8) (malformed_body kind "truncated u64")
    ok (from_be_bytes b)

  -- `(i..i + left).map(take_u32 at 2 + i * 4).collect()`.
  unfoldable pub take_seqs : List ℕ → String → ℕ → ℕ → Fallible Uuid (List XferSeq)
  take_seqs buf kind zero i = ok []
  take_seqs buf kind (suc left) i = do
    seq ← take_u32 buf (2 + i * 4) kind
    rest ← take_seqs buf kind left (i + 1)
    ok (seq ∷ rest)

  unfoldable pub decode_body : PacketKind → List ℕ → Fallible Uuid Body
  decode_body kind_data buf = do
    ts ← take_u64 buf 0 (kind_name kind_data)
    let payload = drop 8 buf
    if ltb max_payload (length payload)
        then err (payload_too_large (length payload) max_payload)
        else ok (body_data ts payload)
  decode_body kind_end buf = do
    expect_len buf 4 (kind_name kind_end)
    final_seq ← take_u32 buf 0 (kind_name kind_end)
    ok (body_end final_seq)
  decode_body kind_end_ack buf = do expect_len buf 0 (kind_name kind_end_ack); ok body_end_ack
  decode_body kind_ack buf = do
    expect_len buf 10 (kind_name kind_ack)
    contiguous ← take_u32 buf 0 (kind_name kind_ack)
    highest ← take_u32 buf 4 (kind_name kind_ack)
    buffered_ms ← take_u16 buf 8 (kind_name kind_ack)
    ok (body_ack contiguous highest buffered_ms)
  decode_body kind_nack buf = do
    count ← take_u16 buf 0 (kind_name kind_nack)
    if ltb max_nack_entries count then err (payload_too_large count max_nack_entries) else do
      expect_len buf (2 + count * 4) (kind_name kind_nack)
      missing ← take_seqs buf (kind_name kind_nack) count 0
      ok (body_nack missing)
  decode_body kind_keepalive buf = do
    expect_len buf 4 (kind_name kind_keepalive)
    lost_below ← take_u32 buf 0 (kind_name kind_keepalive)
    ok (body_keepalive lost_below)
