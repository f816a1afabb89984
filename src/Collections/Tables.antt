-- ===== src/Collections/Tables.antt =====
-- `HashMap<K, V>`: an association list in which each key stands once. `K: Eq` is the instance.
use protofish4_rs.Base.{
  ◌≡◌, ◌↔◌, refl, List, [], ◌∷◌, Option, none, some, Bool, true, arith, if◌then◌else◌,
}

pub record Eq {ℓ} (K : Type ℓ) : Type ℓ where
  pub beq : K → K → Bool
  pub beq_iff : (a b : K) → (beq a b ≡ true) ↔ (a ≡ b)

infix 50 ◌=?◌
abbrev pub ◌=?◌ {ℓ} : {K : Type ℓ} ⦃e : Eq K⦄ → K → K → Bool
◌=?◌ ⦃e⦄ = e.beq

module _ {ℓ} {K V : Type ℓ} ⦃e : Eq K⦄ where
  unfoldable pub get : K → List (K × V) → Option V
  get k [] = none
  get k ((j, v) ∷ m) = if k =? j then some v else get k m

  unfoldable pub insert : K → V → List (K × V) → List (K × V)
  insert k v [] = (k, v) ∷ []
  insert k v ((j, w) ∷ m) = let rest = insert k v m in if k =? j then (k, v) ∷ m else (j, w) ∷ rest

  -- Every pair of that key: there is one at most.
  unfoldable pub remove : K → List (K × V) → List (K × V)
  remove k [] = []
  remove k ((j, w) ∷ m) = let rest = remove k m in if k =? j then rest else (j, w) ∷ rest

  pub get-insert :
      (k j : K) (v : V) (m : List (K × V))
      → get j (insert k v m) ≡ (if j =? k then some v else get j m)
  unfolding get insert
  get-insert k j v [] = refl
  get-insert k j v ((i, w) ∷ m) =
      ground (arith, e.beq_iff j k, e.beq_iff k i, e.beq_iff j i, get-insert k j v m)

  pub get-remove :
      (k j : K) (m : List (K × V)) → get j (remove k m) ≡ (if j =? k then none else get j m)
  unfolding get remove
  get-remove k j [] = ground arith
  get-remove k j ((i, w) ∷ m) =
      ground (arith, e.beq_iff j k, e.beq_iff k i, e.beq_iff j i, get-remove k j m)
