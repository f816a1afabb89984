-- ===== src/Ring/Budget.antt =====
-- The budgets of the ring (protofish4-proto/src/xfer/retrans.rs).
use protofish4_rs.Base.{
  ℕ, zero, suc, ◌+◌, ◌-◌, ◌≤◌, ◌<◌, ◌≡◌, List, [], ◌∷◌, ◌++◌, ltb, if◌then◌else◌, length, arith,
}
use protofish4_rs.Types.{XferSeq}
use protofish4_rs.Ring.{RetransRing, new, evict_oldest, shrink, push, ack_loop, ack_through}

abbrev pub total_bytes : List (XferSeq × List ℕ) → ℕ
total_bytes [] = 0
total_bytes ((s, d) ∷ rest) = length d + total_bytes rest

total_bytes-append :
    (xs ys : List (XferSeq × List ℕ)) → total_bytes (xs ++ ys) ≡ total_bytes xs + total_bytes ys
total_bytes-append [] ys = omega arith
total_bytes-append ((s, d) ∷ rest) ys = omega (arith, total_bytes-append rest ys)

pub record IsInBudget (r : RetransRing) : Type 0 where
  pub counted : r.bytes ≡ total_bytes r.entries
  pub few_frames : length r.entries ≤ r.max_frames
  pub few_bytes : r.bytes ≤ r.max_bytes
  pub some_frame : 1 ≤ r.max_frames
  pub some_byte : 1 ≤ r.max_bytes

pub new-IsInBudget : (f b : ℕ) → IsInBudget (new f b)
unfolding new
new-IsInBudget f b = omega arith

-- The loop of `push` at a ring with those entries.
abbrev pub ring : List (XferSeq × List ℕ) → ℕ → ℕ → ℕ → ℕ → RetransRing
ring entries bytes max_frames max_bytes lost_below = record {
  entries = entries;
  bytes = bytes;
  max_frames = max_frames;
  max_bytes = max_bytes;
  lost_below = lost_below;
}

shrink-IsInBudget :
    (fuel : ℕ) (entries : List (XferSeq × List ℕ)) (b mf mb lost : ℕ)
    → length entries < fuel
    → b ≡ total_bytes entries
    → 1 ≤ mf
    → 1 ≤ mb
    → let r = shrink fuel (ring entries b mf mb lost) in
      IsInBudget r × (r.max_frames ≡ mf) × (r.max_bytes ≡ mb)
unfolding shrink evict_oldest
shrink-IsInBudget zero entries b mf mb lost f c p q = absurd (omega arith)
shrink-IsInBudget (suc fuel) [] b mf mb lost f c p q = ground arith
shrink-IsInBudget (suc fuel) ((s, d) ∷ rest) b mf mb lost f c p q =
    ground
      (arith, shrink-IsInBudget fuel rest (b - length d) mf mb (if ltb lost s then s else lost))

-- A push keeps a ring within both budgets of its configuration, with its bytes counted exactly,
-- whatever the size of the new datagram.
pub push-IsInBudget :
    (r : RetransRing) (seq : XferSeq) (sealed : List ℕ)
    → IsInBudget r
    → IsInBudget (push r seq sealed)
      × ((push r seq sealed).max_frames ≡ r.max_frames)
      × ((push r seq sealed).max_bytes ≡ r.max_bytes)
unfolding push
push-IsInBudget r seq sealed i =
    shrink-IsInBudget _ (r.entries ++ ((seq, sealed) ∷ [])) _ r.max_frames r.max_bytes r.lost_below
      (omega arith) (omega (arith, total_bytes-append r.entries ((seq, sealed) ∷ []))) i.some_frame
      i.some_byte

ack_loop-IsInBudget :
    (fuel contiguous : ℕ) (entries : List (XferSeq × List ℕ)) (b mf mb lost : ℕ)
    → IsInBudget (ring entries b mf mb lost)
    → let r = ack_loop fuel contiguous (ring entries b mf mb lost) in
      IsInBudget r × (r.max_frames ≡ mf) × (r.max_bytes ≡ mb)
unfolding ack_loop evict_oldest
ack_loop-IsInBudget zero c entries b mf mb lost i = ground arith
ack_loop-IsInBudget (suc fuel) c [] b mf mb lost i = ground arith
ack_loop-IsInBudget (suc fuel) c ((s, d) ∷ rest) b mf mb lost i =
    ground
      (arith, ack_loop-IsInBudget fuel c rest (b - length d) mf mb (if ltb lost s then s else lost))

pub ack_through-IsInBudget :
    (r : RetransRing) (c : XferSeq)
    → IsInBudget r
    → IsInBudget (ack_through r c)
      × ((ack_through r c).max_frames ≡ r.max_frames)
      × ((ack_through r c).max_bytes ≡ r.max_bytes)
unfolding ack_through
ack_through-IsInBudget r c i = ground (
  arith,
  ack_loop-IsInBudget (suc (length r.entries)) c r.entries r.bytes r.max_frames r.max_bytes
      r.lost_below i,
)
