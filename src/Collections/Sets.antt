-- ===== src/Collections/Sets.antt =====
-- `BTreeSet<u32>`.
use protofish4_rs.Base.{
  ℕ, suc, ◌≤◌, ◌<◌, ◌≡◌, refl, List, [], ◌∷◌, Bool, false, ◌||◌, arith, ◌==◌, ltb, if◌then◌else◌,
  length,
}

abbrev pub contains : ℕ → List ℕ → Bool
contains s [] = false
contains s (x ∷ xs) = s == x || contains s xs

unfoldable pub insert : ℕ → List ℕ → List ℕ
insert s [] = s ∷ []
insert s (x ∷ xs) =
    let rest = insert s xs in if ltb s x then s ∷ x ∷ xs else if s == x then x ∷ xs else x ∷ rest

unfoldable pub remove : ℕ → List ℕ → List ℕ
remove s [] = []
remove s (x ∷ xs) = let rest = remove s xs in if s == x then xs else x ∷ rest

-- In ascending order, every element above `lo`.
abbrev pub Above : ℕ → List ℕ → Type 0
Above lo [] = Unit
Above lo (x ∷ xs) = (lo < x) × Above x xs

-- Every element at most `hi`.
abbrev pub Below : ℕ → List ℕ → Type 0
Below hi [] = Unit
Below hi (x ∷ xs) = (x ≤ hi) × Below hi xs

pub Above-weaken : (lo hi : ℕ) (xs : List ℕ) → lo ≤ hi → Above hi xs → Above lo xs
Above-weaken lo hi [] h a = tt
Above-weaken lo hi (x ∷ xs) h a = (omega arith, a.1)

pub Below-weaken : (lo hi : ℕ) (xs : List ℕ) → lo ≤ hi → Below lo xs → Below hi xs
Below-weaken lo hi [] h b = tt
Below-weaken lo hi (x ∷ xs) h b = (omega arith, Below-weaken lo hi xs h b.1)

pub contains_below : (t lo : ℕ) (xs : List ℕ) → t ≤ lo → Above lo xs → contains t xs ≡ false
contains_below t lo [] h a = refl
contains_below t lo (x ∷ xs) h a = ground (arith, contains_below t x xs)

pub contains_above : (t hi : ℕ) (xs : List ℕ) → hi < t → Below hi xs → contains t xs ≡ false
contains_above t hi [] h b = refl
contains_above t hi (x ∷ xs) h b = ground (arith, contains_above t hi xs)

pub contains-insert : (t s : ℕ) (xs : List ℕ) → contains t (insert s xs) ≡ (t == s || contains t xs)
unfolding insert
contains-insert t s [] = refl
contains-insert t s (x ∷ xs) = ground (arith, contains-insert t s xs)

pub insert-Above : (lo s : ℕ) (xs : List ℕ) → lo < s → Above lo xs → Above lo (insert s xs)
unfolding insert
insert-Above lo s [] h a = (h, tt)
insert-Above lo s (x ∷ xs) h a = ground (arith, insert-Above x s xs)

pub insert-Below : (hi s : ℕ) (xs : List ℕ) → s ≤ hi → Below hi xs → Below hi (insert s xs)
unfolding insert
insert-Below hi s [] h b = (h, tt)
insert-Below hi s (x ∷ xs) h b = ground (arith, insert-Below hi s xs)

pub length-insert : (s : ℕ) (xs : List ℕ) → length (insert s xs) ≤ suc (length xs)
unfolding insert
length-insert s [] = omega arith
length-insert s (x ∷ xs) = ground (arith, length-insert s xs)
