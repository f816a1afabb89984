-- ===== src/Tests/Tracking.antt =====
-- The gap tracker and the ring at concrete runs (protofish4-proto/src/xfer/gap_tracker.rs, retrans.rs).
use protofish4_rs.Base.{
  ℕ, suc, ◌≤◌, ◌<◌, ◌≡◌, refl, List, [], ◌∷◌, none, some, true, false, not, ◌&&◌, ◌==◌, leb, ltb,
  if◌then◌else◌, arith,
}
use protofish4_rs.Types.{XferSeq}
use protofish4_rs.Collections.Sets.{contains, insert, remove}
use protofish4_rs.Gap
use protofish4_rs.Gap.{GapTracker, record_seq, missing}
use protofish4_rs.Gap.Arrivals.{IsTracker, arrived}
use protofish4_rs.Gap.Runs.{record_all, maximum, record_all-new}
use protofish4_rs.Ring.{RetransRing, push, get, ack_through}
use protofish4_rs.Ring.Budget.{IsInBudget}
use protofish4_rs.Ring.Held.{IsOrdered, push-Held, ack_through-Held}

-- 1, 4, 2, 4 arrived: 3 is missing, 4 is ahead.
abbrev some_seqs : List XferSeq
some_seqs = 1 ∷ 4 ∷ 2 ∷ 4 ∷ []

abbrev some_tracker : GapTracker
some_tracker = record { contiguous = 2; ahead = 4 ∷ []; highest = 4 }

some_seqs_recorded : record_all Gap.new some_seqs ≡ some_tracker
unfolding record_all record_seq Gap.new Gap.advance insert remove
some_seqs_recorded = refl

some_tracker-IsTracker : IsTracker some_tracker
some_tracker-IsTracker = ground arith

record_all-new_example :
    let g = record_all Gap.new some_seqs in
    ((t : ℕ) → arrived g t ≡ (not (t == 0) && contains t some_seqs))
    × ((t : ℕ) → 0 < t → t ≤ g.contiguous → contains t some_seqs ≡ true)
    × (contains (suc g.contiguous) some_seqs ≡ false)
    × (g.highest ≡ maximum 0 some_seqs)
record_all-new_example = record_all-new some_seqs (ground arith)

-- Two frames of at most four bytes in all; 5 and 6 are held.
abbrev some_ring : RetransRing
some_ring = record {
  entries = (5, 50 ∷ []) ∷ (6, 60 ∷ 61 ∷ []) ∷ [];
  bytes = 3;
  max_frames = 2;
  max_bytes = 4;
  lost_below = 4;
}

some_ring-IsInBudget : IsInBudget some_ring
some_ring-IsInBudget = ground arith

some_ring-IsOrdered : IsOrdered 6 some_ring
some_ring-IsOrdered = ground arith

push-Held_example :
    let r' = push some_ring 7 (70 ∷ []) in
    IsOrdered 7 r'
    × (4 ≤ r'.lost_below)
    × ((t : XferSeq)
        → get r' t ≡ (
            if leb t r'.lost_below
            then none
            else if 7 == t
            then some (70 ∷ [])
            else get some_ring t))
push-Held_example = push-Held some_ring 7 (70 ∷ []) 6 some_ring-IsOrdered (omega arith)

ack_through-Held_example :
    let r' = ack_through some_ring 5 in
    IsOrdered 6 r'
    × (r'.lost_below ≡ (if ltb 4 5 then 5 else 4))
    × ((t : XferSeq) → get r' t ≡ (if leb t r'.lost_below then none else get some_ring t))
ack_through-Held_example = ack_through-Held some_ring 5 6 some_ring-IsOrdered (omega arith)
