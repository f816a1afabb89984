-- ===== src/Codec/Canonical.antt =====
-- Encoding after decoding (protofish4-proto/src/codec.rs).
use Prim.Native.String.{String}
use protofish4_rs.Base.{
  ℕ, zero, suc, ◌+◌, ◌*◌, ◌≤◌, ◌<◌, ◌≡◌, refl, List, [], ◌∷◌, ◌++◌, arith, ok, length, length-take,
  length-drop, take, drop, take-append-drop, drop-drop, take_all, drop_all, All, All-take, All-drop,
  append-nil, Result-cases, inl, inr,
}
use protofish4_rs.Types.{XferSeq, u16_mod, u32_mod, u64_mod}
use protofish4_rs.Types.Bytes.{
  IsByte, IsBytes, to_be_bytes, to_be_bytes_two, to_be_bytes_four, to_be_bytes_eight,
  from_be_bytes-lt,
}
use protofish4_rs.Frame.{
  PacketKind, Body, body_kind, kind_data, kind_end, kind_end_ack, kind_ack, kind_nack,
  kind_keepalive,
}
use protofish4_rs.Codec.{
  encode_seqs, encode_body, expect_len, take_u16, take_u32, take_u64, take_seqs, decode_body,
}

-- The body has the kind that the header named, and its encoding is the buffer.
abbrev Canonical : Type 0 → PacketKind → List ℕ → Body → Type 0
Canonical Uuid kind buf b = (body_kind b ≡ kind) × (encode_body {Uuid = Uuid} b ≡ ok buf)

slice-IsBytes : (buf : List ℕ) (at len : ℕ) → IsBytes buf → IsBytes (take len (drop at buf))
slice-IsBytes buf at len h = All-take IsByte len (drop at buf) (All-drop IsByte at buf h)

length-slice :
    (buf : List ℕ) (at len : ℕ) → at + len ≤ length buf → length (take len (drop at buf)) ≡ len
length-slice buf at len h = omega (arith, length-take {0} len (drop at buf), length-drop {0} at buf)

-- Ten bytes cut at 4 and 8.
three_slices :
    (buf : List ℕ)
    → length buf ≡ 10
    → take 4 buf ++ (take 4 (drop 4 buf) ++ take 2 (drop 8 buf)) ≡ buf
three_slices buf h = ground (
  arith,
  take-append-drop 4 buf,
  take-append-drop 4 (drop 4 buf),
  drop-drop 4 4 8 buf refl,
  take_all 2 (drop 8 buf),
  length-drop {0} 8 buf,
)

-- An integer that was read stands in the buffer in its big-endian form.
module _ {Uuid : Type 0} where
  take_u16-eq-ok :
      (buf : List ℕ) (at : ℕ) (kind : String) (n : ℕ)
      → IsBytes buf
      → take_u16 {Uuid = Uuid} buf at kind ≡ ok n
      → (at + 2 ≤ length buf) × (n < u16_mod) × (to_be_bytes 2 n ≡ take 2 (drop at buf))
  unfolding take_u16
  take_u16-eq-ok buf at kind n h e = ground (
    arith,
    length-slice buf at 2,
    slice-IsBytes buf at 2 h,
    to_be_bytes_two (take 2 (drop at buf)),
    from_be_bytes-lt (take 2 (drop at buf)),
  )

  take_u32-eq-ok :
      (buf : List ℕ) (at : ℕ) (kind : String) (n : ℕ)
      → IsBytes buf
      → take_u32 {Uuid = Uuid} buf at kind ≡ ok n
      → (at + 4 ≤ length buf) × (n < u32_mod) × (to_be_bytes 4 n ≡ take 4 (drop at buf))
  unfolding take_u32
  take_u32-eq-ok buf at kind n h e = ground (
    arith,
    length-slice buf at 4,
    slice-IsBytes buf at 4 h,
    to_be_bytes_four (take 4 (drop at buf)),
    from_be_bytes-lt (take 4 (drop at buf)),
  )

  take_u64-eq-ok :
      (buf : List ℕ) (at : ℕ) (kind : String) (n : ℕ)
      → IsBytes buf
      → take_u64 {Uuid = Uuid} buf at kind ≡ ok n
      → (at + 8 ≤ length buf) × (n < u64_mod) × (to_be_bytes 8 n ≡ take 8 (drop at buf))
  unfolding take_u64
  take_u64-eq-ok buf at kind n h e = ground (
    arith,
    length-slice buf at 8,
    slice-IsBytes buf at 8 h,
    to_be_bytes_eight (take 8 (drop at buf)),
    from_be_bytes-lt (take 8 (drop at buf)),
  )

  take_seqs-eq-ok :
      (buf : List ℕ) (kind : String) (left i : ℕ) (missing : List XferSeq)
      → IsBytes buf
      → take_seqs {Uuid = Uuid} buf kind left i ≡ ok missing
      → (length missing ≡ left)
        × All (λ (s : XferSeq). s < u32_mod) missing
        × (encode_seqs missing ++ drop (2 + (i + left) * 4) buf ≡ drop (2 + i * 4) buf)
  unfolding take_seqs
  take_seqs-eq-ok buf kind zero i missing h e = let z : i + 0 ≡ i = omega arith in ground arith
  take_seqs-eq-ok buf kind (suc left) i missing h e =
      elim (Result-cases (take_u32 {Uuid = Uuid} buf (2 + i * 4) kind)) [
        | inr (x, p) ↦ ground arith
        | inl (n, p) ↦ elim (Result-cases (take_seqs {Uuid = Uuid} buf kind left (i + 1))) [
          | inr (x, q) ↦ ground arith
          | inl (rest, q) ↦ ground (
            arith,
            take_u32-eq-ok buf (2 + i * 4) kind n h p,
            take_seqs-eq-ok buf kind left (i + 1) rest h q,
            take-append-drop 4 (drop (2 + i * 4) buf),
            drop-drop (2 + i * 4) 4 (2 + (i + 1) * 4) buf,
          )
        ]
      ]

  expect_len-eq-ok :
      (buf : List ℕ) (n : ℕ) (kind : String)
      → expect_len {Uuid = Uuid} buf n kind ≡ ok tt
      → length buf ≡ n
  unfolding expect_len
  expect_len-eq-ok buf n kind e = ground arith

  end-Canonical :
      (buf : List ℕ) (b : Body)
      → IsBytes buf
      → decode_body {Uuid = Uuid} kind_end buf ≡ ok b
      → Canonical Uuid kind_end buf b
  unfolding decode_body encode_body expect_len
  end-Canonical buf b h e = elim (Result-cases (take_u32 {Uuid = Uuid} buf 0 "End")) [
    | inr (x, p) ↦ ground arith
    | inl (n, p) ↦ ground (arith, take_u32-eq-ok buf 0 "End" n h p, take_all 4 buf)
  ]

  keepalive-Canonical :
      (buf : List ℕ) (b : Body)
      → IsBytes buf
      → decode_body {Uuid = Uuid} kind_keepalive buf ≡ ok b
      → Canonical Uuid kind_keepalive buf b
  unfolding decode_body encode_body expect_len
  keepalive-Canonical buf b h e = elim (Result-cases (take_u32 {Uuid = Uuid} buf 0 "Keepalive")) [
    | inr (x, p) ↦ ground arith
    | inl (n, p) ↦ ground (arith, take_u32-eq-ok buf 0 "Keepalive" n h p, take_all 4 buf)
  ]

  end_ack-Canonical :
      (buf : List ℕ) (b : Body)
      → IsBytes buf
      → decode_body {Uuid = Uuid} kind_end_ack buf ≡ ok b
      → Canonical Uuid kind_end_ack buf b
  unfolding decode_body encode_body expect_len
  end_ack-Canonical [] b h e = ground arith
  end_ack-Canonical (x ∷ buf) b h e = ground arith

  data-Canonical :
      (buf : List ℕ) (b : Body)
      → IsBytes buf
      → decode_body {Uuid = Uuid} kind_data buf ≡ ok b
      → Canonical Uuid kind_data buf b
  unfolding decode_body encode_body
  data-Canonical buf b h e = elim (Result-cases (take_u64 {Uuid = Uuid} buf 0 "Data")) [
    | inr (x, p) ↦ ground arith
    | inl (n, p) ↦ ground (arith, take_u64-eq-ok buf 0 "Data" n h p, take-append-drop 8 buf)
  ]

  ack-Canonical :
      (buf : List ℕ) (b : Body)
      → IsBytes buf
      → decode_body {Uuid = Uuid} kind_ack buf ≡ ok b
      → Canonical Uuid kind_ack buf b
  unfolding decode_body encode_body expect_len
  ack-Canonical buf b h e = elim (Result-cases (take_u32 {Uuid = Uuid} buf 0 "Ack")) [
    | inr (x, p) ↦ ground arith
    | inl (c, p) ↦ elim (Result-cases (take_u32 {Uuid = Uuid} buf 4 "Ack")) [
      | inr (x, q) ↦ ground arith
      | inl (n, q) ↦ elim (Result-cases (take_u16 {Uuid = Uuid} buf 8 "Ack")) [
        | inr (x, r) ↦ ground arith
        | inl (m, r) ↦ ground (
          arith,
          take_u32-eq-ok buf 0 "Ack" c h p,
          take_u32-eq-ok buf 4 "Ack" n h q,
          take_u16-eq-ok buf 8 "Ack" m h r,
          three_slices buf,
        )
      ]
    ]
  ]

  nack-Canonical :
      (buf : List ℕ) (b : Body)
      → IsBytes buf
      → decode_body {Uuid = Uuid} kind_nack buf ≡ ok b
      → Canonical Uuid kind_nack buf b
  unfolding decode_body encode_body expect_len
  nack-Canonical buf b h e = elim (Result-cases (take_u16 {Uuid = Uuid} buf 0 "Nack")) [
    | inr (x, p) ↦ ground arith
    | inl (n, p) ↦ elim (Result-cases (take_seqs {Uuid = Uuid} buf "Nack" n 0)) [
      | inr (x, q) ↦ ground arith
      | inl (missing, q) ↦ ground (
        arith,
        take_u16-eq-ok buf 0 "Nack" n h p,
        take_seqs-eq-ok buf "Nack" n 0 missing h q,
        drop_all (2 + n * 4) buf,
        append-nil (encode_seqs missing),
        take-append-drop 2 buf,
      )
    ]
  ]

  -- Whatever bytes the decoder accepts for a kind, the body has that kind and encodes to exactly
  -- those bytes: a body has one wire form.
  pub encode-decode :
      (kind : PacketKind) (buf : List ℕ) (b : Body)
      → IsBytes buf
      → decode_body {Uuid = Uuid} kind buf ≡ ok b
      → (body_kind b ≡ kind) × (encode_body {Uuid = Uuid} b ≡ ok buf)
  encode-decode kind_data buf b h e = data-Canonical buf b h e
  encode-decode kind_end buf b h e = end-Canonical buf b h e
  encode-decode kind_end_ack buf b h e = end_ack-Canonical buf b h e
  encode-decode kind_ack buf b h e = ack-Canonical buf b h e
  encode-decode kind_nack buf b h e = nack-Canonical buf b h e
  encode-decode kind_keepalive buf b h e = keepalive-Canonical buf b h e
