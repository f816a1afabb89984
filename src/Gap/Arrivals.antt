-- ===== src/Gap/Arrivals.antt =====
-- The set of numbers that a `GapTracker` of protofish4-proto/src/xfer/gap_tracker.rs stands for.
use native.Mathlib.Decide.{dec_le}
use protofish4_rs.Base.{
  ap, ◌∙◌, subst, ◌⊎◌, inl, inr, ℕ, zero, suc, ◌+◌, ◌%◌, ◌≤◌, ◌<◌, ◌≡◌, refl, List, [], ◌∷◌, Bool,
  true, false, ◌||◌, ◌&&◌, not, arith, ◌==◌, ltb, leb, if◌then◌else◌, length,
}
use protofish4_rs.Types.{XferSeq, u32_mod}
use protofish4_rs.Collections.Sets.{
  contains, insert, remove, Above, Below, Above-weaken, Below-weaken, contains_below,
  contains_above, contains-insert, insert-Above, insert-Below,
}
use protofish4_rs.Gap.{GapTracker, new, advance, record_seq, abandon}

-- Whether a sequence number has arrived.
abbrev pub arrived : GapTracker → ℕ → Bool
arrived g t = not (t == 0) && (leb t g.contiguous || contains t g.ahead)

-- The set lies strictly above the first number that is missing, and `highest` bounds all.
pub record IsTracker (g : GapTracker) : Type 0 where
  pub above : Above (suc g.contiguous) g.ahead
  pub below : Below g.highest g.ahead
  pub prefix_le : g.contiguous ≤ g.highest
  pub fits : g.highest < u32_mod

pub new-IsTracker : IsTracker new
unfolding new
new-IsTracker = ground arith

pub abandon-IsTracker : {g : GapTracker} → IsTracker g → IsTracker (abandon g)
abandon-IsTracker i = ground arith

-- A round of the loop that finds the next number, and one that does not.
advance_hit :
    (fuel c : ℕ) (ahead : List ℕ)
    → contains ((c + 1) % u32_mod) ahead ≡ true
    → advance (suc fuel) c ahead
      ≡ advance fuel ((c + 1) % u32_mod) (remove ((c + 1) % u32_mod) ahead)
unfolding advance
advance_hit fuel c ahead h = rw (h, advance)

advance_miss :
    (fuel c : ℕ) (ahead : List ℕ)
    → contains ((c + 1) % u32_mod) ahead ≡ false
    → advance (suc fuel) c ahead ≡ (c, ahead)
unfolding advance
advance_miss fuel c ahead h = rw (h, advance)

remove_head : (x : ℕ) (xs : List ℕ) → remove x (x ∷ xs) ≡ xs
unfolding remove
remove_head x xs = ground arith

pub advance_nil : (fuel c : ℕ) → advance fuel c [] ≡ (c, [])
advance_nil zero c = unfold advance in refl
advance_nil (suc fuel) c = advance_miss fuel c [] refl

-- The least element is the next number, or the loop is over.
pub advance_step :
    (fuel c x : ℕ) (xs : List ℕ)
    → c < x
    → Above x xs
    → x < u32_mod
    → ((x ≡ suc c) × (advance (suc fuel) c (x ∷ xs) ≡ advance fuel x xs))
      ⊎ ((suc c < x) × (advance (suc fuel) c (x ∷ xs) ≡ (c, x ∷ xs)))
advance_step fuel c x xs h a fits = elim (dec_le x (suc c)) [
  | yes p ↦
      let e : (c + 1) % u32_mod ≡ x = omega arith in
      inl (
        omega arith,
        advance_hit fuel c (x ∷ xs) (ground arith)
            ∙ ap (λ (n : ℕ). advance fuel n (remove n (x ∷ xs))) e
            ∙ ap (advance fuel x) (remove_head x xs),
      )
  | no p ↦
      let next : suc c ≡ (c + 1) % u32_mod = omega arith in
      let later : Above (suc c) (x ∷ xs) = (omega arith, a) in
      let none_there : contains (suc c) (x ∷ xs) ≡ false =
        contains_below (suc c) (suc c) (x ∷ xs) (omega arith) later in
      inr (
        omega arith,
        advance_miss fuel c (x ∷ xs) (subst (λ n. contains n (x ∷ xs) ≡ false) next none_there),
      )
]

-- What the loop leaves: the prefix grew over elements of the set, nothing was lost, and the next
-- number is missing.
abbrev pub Advanced : ℕ → ℕ → List ℕ → ℕ × List ℕ → Type 0
Advanced hi c ahead (c', ahead') =
    (c ≤ c')
    × (c' ≤ hi)
    × Above (suc c') ahead'
    × Below hi ahead'
    × ((t : ℕ) → (leb t c' || contains t ahead') ≡ (leb t c || contains t ahead))

pub advance-Advanced :
    (fuel c hi : ℕ) (ahead : List ℕ)
    → length ahead ≤ fuel
    → Above c ahead
    → c ≤ hi
    → Below hi ahead
    → hi < u32_mod
    → Advanced hi c ahead (advance fuel c ahead)
advance-Advanced zero c hi [] len a le b fits =
    unfold advance in (omega arith, le, tt, tt, λ t. refl)
advance-Advanced zero c hi (x ∷ xs) len a le b fits = absurd (omega arith)
advance-Advanced (suc fuel) c hi [] len a le b fits =
    rw (advance_nil (suc fuel) c) (omega arith, le, tt, tt, λ t. refl)
advance-Advanced (suc fuel) c hi (x ∷ xs) len a le b fits =
    elim (advance_step fuel c x xs a.0 a.1 (omega arith)) [
      | inl (e, p) ↦
          let (grows, most, above, below, same) =
            advance-Advanced fuel x hi xs (omega arith) a.1 b.0 b.1 fits in
          rw p (omega arith, most, above, below, λ t. same t ∙ ground arith)
      | inr (later, p) ↦ rw p (omega arith, le, (later, a.1), b, λ t. refl)
    ]

-- What the loop leaves of a set that a number was put into.
insert-Advanced :
    (g : GapTracker) (s : XferSeq)
    → IsTracker g
    → s < u32_mod
    → g.contiguous < s
    → let ahead = insert s g.ahead in
      Advanced
        (if ltb g.highest s then s else g.highest)
        g.contiguous
        ahead
        (advance (length ahead) g.contiguous ahead)
insert-Advanced g s i fits past =
    let hi = if ltb g.highest s then s else g.highest in
    let ahead = insert s g.ahead in
    let old : g.highest ≤ hi = ground arith in
    advance-Advanced (length ahead) g.contiguous hi ahead (omega arith)
      (insert-Above g.contiguous s g.ahead past
        (Above-weaken g.contiguous (suc g.contiguous) g.ahead (omega arith) i.above))
      (ground arith)
      (insert-Below hi s g.ahead (ground arith) (Below-weaken g.highest hi g.ahead old i.below))
      (ground arith)

pub record_seq-IsTracker :
    {g : GapTracker} (s : XferSeq) → IsTracker g → s < u32_mod → IsTracker (record_seq g s).0
unfolding record_seq
record_seq-IsTracker {g} s i fits = ground (arith, insert-Advanced g s i fits)

-- After `record` of a 32-bit number by a well-formed tracker exactly the new number, if it is not
-- 0, and the old ones have arrived.
pub arrived-record_seq :
    (g : GapTracker) (s : XferSeq) (t : ℕ)
    → IsTracker g
    → s < u32_mod
    → arrived (record_seq g s).0 t ≡ ((t == s && not (t == 0)) || arrived g t)
unfolding record_seq
arrived-record_seq g s t i fits = ground (
  arith,
  insert-Advanced g s i fits,
  λ (past : g.contiguous < s). (insert-Advanced g s i fits past).4 t,
  contains-insert t s g.ahead,
)

-- `highest` is the greatest number seen, a repeated one included.
pub highest-record_seq :
    (g : GapTracker) (s : XferSeq)
    → IsTracker g
    → (record_seq g s).0.highest ≡ (if ltb g.highest s then s else g.highest)
unfolding record_seq
highest-record_seq g s i = ground (arith, contains_above s g.highest g.ahead)

pub arrived-le-highest : (g : GapTracker) (t : ℕ) → IsTracker g → arrived g t ≡ true → t ≤ g.highest
arrived-le-highest g t i h = ground (arith, contains_above t g.highest g.ahead)

-- The number after the prefix has not arrived.
pub prefix_maximal : (g : GapTracker) → IsTracker g → arrived g (suc g.contiguous) ≡ false
prefix_maximal g i = ground (arith, contains_below (suc g.contiguous) (suc g.contiguous) g.ahead)

-- A number is recorded as fresh exactly when it is not 0 and has not arrived.
pub record_seq_fresh :
    (g : GapTracker) (s : XferSeq) → (record_seq g s).1 ≡ (not (s == 0) && not (arrived g s))
unfolding record_seq
record_seq_fresh g s = ground arith

-- A fresh number went into the set, and the loop ran over it.
pub record_seq-advance :
    (g : GapTracker) (s : XferSeq)
    → (record_seq g s).1 ≡ true
    → (g.contiguous < s)
      × (contains s g.ahead ≡ false)
      × ◌≡◌ {A = ℕ × List ℕ}
          (advance (length (insert s g.ahead)) g.contiguous (insert s g.ahead))
          ((record_seq g s).0.contiguous, (record_seq g s).0.ahead)
      × (g.highest ≤ (record_seq g s).0.highest)
      × (s ≤ (record_seq g s).0.highest)
unfolding record_seq
record_seq-advance g s h = ground arith

pub record_seq_grows :
    (g : GapTracker) (s : XferSeq)
    → IsTracker g
    → s < u32_mod
    → g.contiguous ≤ (record_seq g s).0.contiguous
unfolding record_seq
record_seq_grows g s i fits = ground (arith, insert-Advanced g s i fits)

-- A number that is not fresh changes nothing.
pub record_seq_stale :
    (g : GapTracker) (s : XferSeq) → (record_seq g s).1 ≡ false → (record_seq g s).0 ≡ g
unfolding record_seq
record_seq_stale g s h = ground arith
