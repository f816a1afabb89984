-- ===== src/Gap/Runs.antt =====
-- `GapTracker::record` of protofish4-proto/src/xfer/gap_tracker.rs over a sequence of arrivals.
use protofish4_rs.Base.{
  ℕ, suc, ◌≤◌, ◌<◌, ◌≡◌, refl, ◌∙◌, List, [], ◌∷◌, true, false, ◌||◌, ◌&&◌, not, arith, ◌==◌, All,
  ap, ltb, if◌then◌else◌,
}
use protofish4_rs.Types.{XferSeq, u32_mod}
use protofish4_rs.Collections.Sets.{contains}
use protofish4_rs.Gap.{GapTracker, new, record_seq}
use protofish4_rs.Gap.Arrivals.{
  IsTracker, arrived, new-IsTracker, record_seq-IsTracker, arrived-record_seq, highest-record_seq,
  prefix_maximal,
}

-- The tracker that a sequence of `record` calls leaves.
unfoldable pub record_all : GapTracker → List XferSeq → GapTracker
record_all g [] = g
record_all g (s ∷ seqs) = record_all (record_seq g s).0 seqs

abbrev pub IsU32s : List XferSeq → Type 0
IsU32s = All (λ (s : XferSeq). s < u32_mod)

pub record_all-IsTracker :
    (g : GapTracker) (seqs : List XferSeq)
    → IsTracker g
    → IsU32s seqs
    → IsTracker (record_all g seqs)
unfolding record_all
record_all-IsTracker g [] i h = i
record_all-IsTracker g (s ∷ seqs) i h =
    record_all-IsTracker (record_seq g s).0 seqs (record_seq-IsTracker s i h.0) h.1

arrived-record_all :
    (g : GapTracker) (seqs : List XferSeq) (t : ℕ)
    → IsTracker g
    → IsU32s seqs
    → arrived (record_all g seqs) t ≡ ((not (t == 0) && contains t seqs) || arrived g t)
unfolding record_all
arrived-record_all g [] t i h = ground arith
arrived-record_all g (s ∷ seqs) t i h =
    arrived-record_all (record_seq g s).0 seqs t (record_seq-IsTracker s i h.0) h.1
    ∙ ground (arith, arrived-record_seq g s t i h.0)

abbrev pub maximum : ℕ → List ℕ → ℕ
maximum m [] = m
maximum m (x ∷ xs) = maximum (if ltb m x then x else m) xs

highest-record_all :
    (g : GapTracker) (seqs : List XferSeq)
    → IsTracker g
    → IsU32s seqs
    → (record_all g seqs).highest ≡ maximum g.highest seqs
unfolding record_all
highest-record_all g [] i h = refl
highest-record_all g (s ∷ seqs) i h =
    highest-record_all (record_seq g s).0 seqs (record_seq-IsTracker s i h.0) h.1
    ∙ ap (λ (m : ℕ). maximum m seqs) (highest-record_seq g s i)

-- After any arrivals of 32-bit numbers, in any order and with repetitions: a number counts as arrived exactly if it
-- is among them and is not 0; every number from 1 to `contiguous` is among them and the next one
-- is not; and `highest` is the greatest of them.
pub record_all-new :
    (seqs : List XferSeq)
    → IsU32s seqs
    → let g = record_all new seqs in
      ((t : ℕ) → arrived g t ≡ (not (t == 0) && contains t seqs))
      × ((t : ℕ) → 0 < t → t ≤ g.contiguous → contains t seqs ≡ true)
      × (contains (suc g.contiguous) seqs ≡ false)
      × (g.highest ≡ maximum 0 seqs)
record_all-new seqs h =
    let g = record_all new seqs in
    let i : IsTracker g = record_all-IsTracker new seqs new-IsTracker h in
    let same : (t : ℕ) → arrived g t ≡ (not (t == 0) && contains t seqs) =
      λ t. arrived-record_all new seqs t new-IsTracker h ∙ unfold new in ground arith in
    (
      same,
      λ t p q. ground (arith, same t),
      ground (arith, same (suc g.contiguous), prefix_maximal g i),
      highest-record_all new seqs new-IsTracker h ∙ unfold new in refl,
    )
