-- ===== src/Codec/RoundTrip.antt =====
-- Decoding after encoding (`encode_body`, `decode_body` of protofish4-proto/src/codec.rs).
use Prim.Native.String.{String}
use protofish4_rs.Base.{
  ◌>>=◌, ℕ, ◌%◌, ◌+◌, ◌*◌, ◌≤◌, ◌<◌, ◌≡◌, refl, ap, List, [], ◌∷◌, ◌++◌, arith, ok, some, length,
  length-append, take_left, drop_left, All, append_assoc, le→leb,
}
use protofish4_rs.Types.{XferSeq, u16_mod, u32_mod, u64_mod}
use protofish4_rs.Types.Bytes.{
  to_be_bytes, from_be_bytes_two, from_be_bytes_four, from_be_bytes_eight,
}
use protofish4_rs.Frame.{
  Body, body_kind, body_data, body_end, body_end_ack, body_ack, body_nack, body_keepalive,
}
use protofish4_rs.Codec.{
  max_payload, max_nack_entries, encode_seqs, get_range, encode_body, expect_len, take_u16,
  take_u32, take_u64, take_seqs, decode_body,
}

-- A body whose integers fit their types and whose lists fit a packet.
abbrev pub IsEncodable : Body → Type 0
IsEncodable (body_data ts payload) = (ts < u64_mod) × (length payload ≤ max_payload)
IsEncodable (body_end final_seq) = final_seq < u32_mod
IsEncodable body_end_ack = Unit
IsEncodable (body_ack contiguous highest buffered_ms) =
    (contiguous < u32_mod) × (highest < u32_mod) × (buffered_ms < u16_mod)
IsEncodable (body_nack missing) =
    (length missing ≤ max_nack_entries) × All (λ (s : XferSeq). s < u32_mod) missing
IsEncodable (body_keepalive lost_below) = lost_below < u32_mod

-- What stands between `before` and `after` is read back.
get_range-append :
    (before mid after : List ℕ) (at len : ℕ)
    → length before ≡ at
    → length mid ≡ len
    → get_range (before ++ (mid ++ after)) at len ≡ some mid
get_range-append before mid after at len p q =
    rw (le→leb (at + len) (length (before ++ (mid ++ after))) fits)
      (rw (drop_left at before (mid ++ after) p) (ap some (take_left len mid after q)))
  where
    fits : at + len ≤ length (before ++ (mid ++ after))
    fits = omega (arith, length-append {0} before (mid ++ after), length-append {0} mid after)

pub length-encode_seqs :
    (missing : List XferSeq) → length (encode_seqs missing) ≡ length missing * 4
length-encode_seqs [] = refl
length-encode_seqs (s ∷ missing) = omega (arith, length-encode_seqs missing)

module _ {Uuid : Type 0} where
  take_u32-append :
      (before after : List ℕ) (n at : ℕ) (kind : String)
      → n < u32_mod
      → length before ≡ at
      → take_u32 {Uuid = Uuid} (before ++ (to_be_bytes 4 n ++ after)) at kind ≡ ok n
  unfolding take_u32
  take_u32-append before after n at kind h e =
      rw (get_range-append before (to_be_bytes 4 n) after at 4 e refl)
        (ap ok (from_be_bytes_four n h))

  -- The loop of `decode_body` reads back what the loop of `encode_body` wrote.
  take_seqs-encode_seqs :
      (before : List ℕ) (missing : List XferSeq) (i : ℕ) (kind : String)
      → length before ≡ 2 + i * 4
      → All (λ (s : XferSeq). s < u32_mod) missing
      → take_seqs {Uuid = Uuid} (before ++ encode_seqs missing) kind (length missing) i ≡ ok missing
  unfolding take_seqs
  take_seqs-encode_seqs before [] i kind e h = refl
  take_seqs-encode_seqs before (s ∷ missing) i kind e (p, h) =
      let ih : take_seqs {Uuid = Uuid} ((before ++ to_be_bytes 4 s) ++ encode_seqs missing) kind
            (length missing) (i + 1)
          ≡ ok missing =
        take_seqs-encode_seqs (before ++ to_be_bytes 4 s) missing (i + 1) kind
          (omega (arith, length-append {0} before (to_be_bytes 4 s))) h in
      rw (take_u32-append before (encode_seqs missing) s (2 + i * 4) kind p e)
        (rw (rw (append_assoc before (to_be_bytes 4 s) (encode_seqs missing)) at ih))

  decode-encode_ack :
      (contiguous highest buffered_ms : ℕ)
      → IsEncodable (body_ack contiguous highest buffered_ms)
      → (encode_body {Uuid = Uuid} (body_ack contiguous highest buffered_ms)
          >>= decode_body (body_kind (body_ack contiguous highest buffered_ms)))
        ≡ ok (body_ack contiguous highest buffered_ms)
  unfolding encode_body decode_body take_u32 take_u16 expect_len
  decode-encode_ack c h b p =
      ground (arith, from_be_bytes_four c, from_be_bytes_four h, from_be_bytes_two b)

  decode-encode_nack :
      (missing : List XferSeq)
      → IsEncodable (body_nack missing)
      → (encode_body {Uuid = Uuid} (body_nack missing)
          >>= decode_body (body_kind (body_nack missing)))
        ≡ ok (body_nack missing)
  unfolding encode_body decode_body take_u16 expect_len
  decode-encode_nack missing h =
      let e : length missing % u16_mod ≡ length missing = omega arith in
      rw e (
        ground (
          arith,
          from_be_bytes_two (length missing),
          length-encode_seqs missing,
          take_seqs-encode_seqs (to_be_bytes 2 (length missing)) missing 0 "Nack" refl h.1,
        ))

  -- Every body whose integers fit their types and whose lists fit a packet is encoded, and the
  -- decoder for its kind gives it back.
  pub decode-encode :
      (b : Body)
      → IsEncodable b
      → (encode_body {Uuid = Uuid} b >>= decode_body (body_kind b)) ≡ ok b
  unfolding encode_body decode_body take_u32 take_u64 expect_len
  decode-encode (body_data ts payload) h = ground (arith, from_be_bytes_eight ts h.0)
  decode-encode (body_end n) h = ground (arith, from_be_bytes_four n h)
  decode-encode body_end_ack h = refl
  decode-encode (body_ack c n b) h = decode-encode_ack c n b h
  decode-encode (body_nack missing) h = decode-encode_nack missing h
  decode-encode (body_keepalive n) h = ground (arith, from_be_bytes_four n h)
