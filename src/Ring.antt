-- ===== src/Ring.antt =====
-- protofish4-proto/src/xfer/retrans.rs. The `VecDeque` is the list of its entries, oldest first.
pub mod Budget
pub mod Held
pub mod Entries
use protofish4_rs.Base.{
  ℕ, zero, suc, ◌+◌, ◌-◌, List, [], ◌∷◌, ◌++◌, Option, none, some, ◌||◌, true, false, ◌==◌, ltb,
  leb, if◌then◌else◌, length, max,
}
use protofish4_rs.Types.{XferSeq}

pub record RetransRing : Type 0 where
  pub entries : List (XferSeq × List ℕ)
  pub bytes : ℕ
  pub max_frames : ℕ
  pub max_bytes : ℕ
  pub lost_below : ℕ

unfoldable pub new : ℕ → ℕ → RetransRing
new max_frames max_bytes = record {
  entries = [];
  bytes = 0;
  max_frames = max max_frames 1;
  max_bytes = max max_bytes 1;
  lost_below = 0;
}

-- `none` when the ring is empty.
pub evict_entries : List (XferSeq × List ℕ) → RetransRing → Option (XferSeq × RetransRing)
evict_entries [] r = none
evict_entries ((seq, d) ∷ rest) r = some (
  seq,
  record r {
    entries = rest;
    bytes = r.bytes - length d;
    lost_below = if ltb r.lost_below seq then seq else r.lost_below;
  },
)

unfoldable pub evict_oldest : RetransRing → Option (XferSeq × RetransRing)
unfolding evict_entries
evict_oldest r = evict_entries r.entries r

-- The `while` of `push`; each round evicts an entry, so their number plus one is enough fuel.
unfoldable pub shrink : ℕ → RetransRing → RetransRing
shrink zero r = r
shrink (suc fuel) r = elim (ltb r.max_frames (length r.entries) || ltb r.max_bytes r.bytes) [
  | true ↦ elim (evict_oldest r) [ none ↦ r | some (seq, r') ↦ shrink fuel r' ]
  | false ↦ r
]

unfoldable pub push : RetransRing → XferSeq → List ℕ → RetransRing
push r seq sealed =
    let entries = r.entries ++ ((seq, sealed) ∷ []) in
    shrink (suc (length entries)) (record r { bytes = r.bytes + length sealed; entries = entries })

unfoldable pub find_seq : XferSeq → List (XferSeq × List ℕ) → Option (List ℕ)
find_seq seq [] = none
find_seq seq ((s, d) ∷ rest) = if s == seq then some d else find_seq seq rest

unfoldable pub get : RetransRing → XferSeq → Option (List ℕ)
unfolding find_seq
get r seq = find_seq seq r.entries

-- The `while` of `ack_through`: evict from the front up to `contiguous`.
unfoldable pub ack_loop : ℕ → ℕ → RetransRing → RetransRing
ack_loop zero contiguous r = r
ack_loop (suc fuel) contiguous r = elim r.entries [
  | [] ↦ r
  | (seq, d) ∷ rest ↦ elim (ltb contiguous seq) [
    | true ↦ r
    | false ↦ elim (evict_oldest r) [ none ↦ r | some (s, r') ↦ ack_loop fuel contiguous r' ]
  ]
]

unfoldable pub ack_through : RetransRing → XferSeq → RetransRing
ack_through r contiguous =
    let r' = ack_loop (suc (length r.entries)) contiguous r in
    record r' { lost_below = if ltb r'.lost_below contiguous then contiguous else r'.lost_below }
