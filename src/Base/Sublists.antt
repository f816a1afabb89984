-- ===== src/Base/Sublists.antt =====
-- Some of the elements of a list, in its order.
use Prim.Native.Nat.{◌≤◌}
use mathlib.Core.Path.{◌≡◌, refl}
use mathlib.Core.Logic.{◌⊎◌, inl, inr}
use mathlib.Core.List.{List, [], ◌∷◌, ◌++◌}
use native.Mathlib.Omega.{arith}
use protofish4_rs.Base.Lists.{length}

-- The elements of the first list are among those of the second, in the same order.
abbrev pub Sublist : {A : Type 0} → List A → List A → Type 0
Sublist [] ys = Unit
Sublist (x ∷ xs) [] = ⊥
Sublist (x ∷ xs) (y ∷ ys) = ((x ≡ y) × Sublist xs ys) ⊎ Sublist (x ∷ xs) ys

pub Sublist-right : {A : Type 0} (xs ys zs : List A) → Sublist xs zs → Sublist xs (ys ++ zs)
Sublist-right [] ys zs h = tt
Sublist-right (x ∷ xs) [] zs h = h
Sublist-right (x ∷ xs) (y ∷ ys) zs h = inr (Sublist-right (x ∷ xs) ys zs h)

pub Sublist-left : {A : Type 0} (xs ys zs : List A) → Sublist xs ys → Sublist xs (ys ++ zs)
Sublist-left [] ys zs h = tt
Sublist-left (x ∷ xs) [] zs h = elim h [ ]
Sublist-left (x ∷ xs) (y ∷ ys) zs (inl (e, h)) = inl (e, Sublist-left xs ys zs h)
Sublist-left (x ∷ xs) (y ∷ ys) zs (inr h) = inr (Sublist-left (x ∷ xs) ys zs h)

pub Sublist-append :
    {A : Type 0} (xs ys zs ws : List A)
    → Sublist xs ys
    → Sublist zs ws
    → Sublist (xs ++ zs) (ys ++ ws)
Sublist-append [] ys zs ws h k = Sublist-right zs ys ws k
Sublist-append (x ∷ xs) [] zs ws h k = elim h [ ]
Sublist-append (x ∷ xs) (y ∷ ys) zs ws (inl (e, h)) k = inl (e, Sublist-append xs ys zs ws h k)
Sublist-append (x ∷ xs) (y ∷ ys) zs ws (inr h) k = inr (Sublist-append (x ∷ xs) ys zs ws h k)

-- A sublist of the same length is the list.
pub Sublist-length :
    {A : Type 0} (xs ys : List A)
    → Sublist xs ys
    → (length {0} xs ≤ length {0} ys) × (length {0} xs ≡ length {0} ys → xs ≡ ys)
Sublist-length [] [] h = (omega arith, λ e. refl)
Sublist-length [] (y ∷ ys) h = (omega arith, λ e. absurd (omega (arith, e)))
Sublist-length (x ∷ xs) [] h = elim h [ ]
Sublist-length (x ∷ xs) (y ∷ ys) (inl (p, h)) =
    let (a, b) = Sublist-length xs ys h in (omega arith, λ e. rw (p, b (omega (arith, e))) refl)
Sublist-length (x ∷ xs) (y ∷ ys) (inr h) =
    let (a, b) = Sublist-length (x ∷ xs) ys h in (omega arith, λ e. absurd (omega (arith, e)))
