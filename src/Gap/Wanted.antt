-- ===== src/Gap/Wanted.antt =====
-- `GapTracker::missing` of protofish4-proto/src/xfer/gap_tracker.rs told from the arrivals alone.
use native.Mathlib.Decide.{dec_le}
use protofish4_rs.Base.{
  ℕ, zero, suc, ◌+◌, ◌-◌, ◌≤◌, ◌<◌, ◌≡◌, refl, sym, ap, ◌∙◌, ◌⊎◌, inl, inr, List, [], ◌∷◌, ◌++◌,
  true, arith, ltb, if◌then◌else◌, take,
}
use protofish4_rs.Types.{XferSeq}
use protofish4_rs.Collections.Sets.{contains, Above, Below}
use protofish4_rs.Gap.{GapTracker, new, missing}
use protofish4_rs.Gap.Arrivals.{IsTracker, arrived, new-IsTracker}
use protofish4_rs.Gap.Runs.{record_all, record_all-IsTracker, record_all-new, maximum, IsU32s}
use protofish4_rs.Gap.Missing.{absent, absent-add, last_or, missing_lem}

-- The greatest of some numbers is one of them, or what stood for it.
maximum_cases : (m : ℕ) (xs : List ℕ) → (maximum m xs ≡ m) ⊎ (contains (maximum m xs) xs ≡ true)
maximum_cases m [] = inl refl
maximum_cases m (x ∷ xs) =
    let k : ℕ = if ltb m x then x else m in
    head_or_tail k m x (maximum k xs) xs (ground arith) (maximum_cases k xs)
  where
    head_or_tail :
        (k m x top : ℕ) (xs : List ℕ)
        → (k ≡ x) ⊎ (k ≡ m)
        → (top ≡ k) ⊎ (contains top xs ≡ true)
        → (top ≡ m) ⊎ (contains top (x ∷ xs) ≡ true)
    head_or_tail k m x top xs p q = ground arith

-- In ascending order the greatest element stands last.
last_or-contains :
    (d lo hi : ℕ) (xs : List ℕ)
    → Above lo xs
    → Below hi xs
    → contains hi xs ≡ true
    → last_or d xs ≡ hi
last_or-contains d lo hi [] a b h = cc
last_or-contains d lo hi (x ∷ []) a b h = ground arith
last_or-contains d lo hi (x ∷ y ∷ xs) a b h =
    last_or-contains x x hi (y ∷ xs) a.1 b.1 (ground arith)

empty-Above : (lo hi : ℕ) (xs : List ℕ) → Above lo xs → Below hi xs → hi ≤ lo → xs ≡ []
empty-Above lo hi [] a b h = refl
empty-Above lo hi (x ∷ xs) a b h = absurd (omega arith)

-- Whose arrivals are all counted, its furthest one is the last of the set, or the prefix's end.
last_or-highest :
    (g : GapTracker)
    → IsTracker g
    → (g.highest ≡ 0) ⊎ (arrived g g.highest ≡ true)
    → last_or g.contiguous g.ahead ≡ g.highest
last_or-highest g i h = elim (dec_le g.highest g.contiguous) [
  | yes p ↦
      let none_ahead : g.ahead ≡ [] =
        empty-Above (suc g.contiguous) g.highest g.ahead i.above i.below (omega arith) in
      let prefix : g.contiguous ≤ g.highest = i.prefix_le in
      ap (last_or g.contiguous) none_ahead ∙ omega arith
  | no p ↦
      last_or-contains g.contiguous (suc g.contiguous) g.highest g.ahead i.above i.below
        (ground arith)
]

-- Sets with the same elements in a range lack the same.
absent-same :
    (e n : ℕ) (xs ys : List ℕ)
    → ((t : ℕ) → e ≤ t → t < e + n → contains t xs ≡ contains t ys)
    → absent e n xs ≡ absent e n ys
absent-same e zero xs ys same = refl
absent-same e (suc n) xs ys same =
    let rest : absent (suc e) n xs ≡ absent (suc e) n ys =
      absent-same (suc e) n xs ys (λ t p q. same t (omega arith) (omega arith)) in
    rw (same e (omega arith) (omega arith), rest) refl

absent-all :
    (e n : ℕ) (xs : List ℕ)
    → ((t : ℕ) → e ≤ t → t < e + n → contains t xs ≡ true)
    → absent e n xs ≡ []
absent-all e zero xs all = refl
absent-all e (suc n) xs all =
    rw (all e (omega arith) (omega arith))
      (absent-all (suc e) n xs (λ t p q. all t (omega arith) (omega arith)))

-- The numbers from 1 to the greatest arrival that are not among the arrivals, in ascending order.
abbrev pub wanted : List XferSeq → List XferSeq
wanted seqs = absent 1 (maximum 0 seqs) seqs

-- `missing` after some arrivals is what is wanted, cut at the limit.
pub missing-record_all :
    (seqs : List XferSeq) (limit : ℕ)
    → IsU32s seqs
    → missing (record_all new seqs) limit ≡ take limit (wanted seqs)
missing-record_all seqs limit h =
    let g : GapTracker = record_all new seqs in
    let i : IsTracker g = record_all-IsTracker new seqs new-IsTracker h in
    let (same, below, next, top) = record_all-new seqs h in
    let known : (g.highest ≡ 0) ⊎ (arrived g g.highest ≡ true) = elim (maximum_cases 0 seqs) [
      | inl p ↦ inl (top ∙ p)
      | inr p ↦ ground (arith, same g.highest, ap (λ t. contains t seqs) top)
    ] in
    let last : last_or g.contiguous g.ahead ≡ g.highest = last_or-highest g i known in
    let n : ℕ = g.highest - g.contiguous in
    let past : absent (suc g.contiguous) n g.ahead ≡ absent (suc g.contiguous) n seqs =
      absent-same (suc g.contiguous) n g.ahead seqs (λ t p q. ground (arith, same t)) in
    let prefix : absent 1 g.contiguous seqs ≡ [] =
      absent-all 1 g.contiguous seqs (λ t p q. below t (omega arith) (omega arith)) in
    let split : absent 1 g.highest seqs
        ≡ absent 1 g.contiguous seqs ++ absent (suc g.contiguous) n seqs =
      absent-add 1 (suc g.contiguous) g.contiguous n g.highest seqs (omega arith)
        (omega (arith, i.prefix_le)) in
    missing_lem g limit i
    ∙ ap (take limit) (
        ap (λ (m : ℕ). absent (suc g.contiguous) (m - g.contiguous) g.ahead) last
        ∙ past
        ∙ sym (ap (λ xs. xs ++ absent (suc g.contiguous) n seqs) prefix)
        ∙ sym split
        ∙ ap (λ (m : ℕ). absent 1 m seqs) top)
