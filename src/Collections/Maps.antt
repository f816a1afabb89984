-- ===== src/Collections/Maps.antt =====
-- `BTreeMap<u32, V>`.
use protofish4_rs.Collections.Sets.{insert as set_insert, remove as set_remove}
use protofish4_rs.Base.{
  ℕ, ◌≡◌, refl, arith, List, [], ◌∷◌, Option, some, none, ◌==◌, ltb, if◌then◌else◌,
}

module _ {ℓ} {V : Type ℓ} where
  abbrev pub get : ℕ → List (ℕ × V) → Option V
  get k [] = none
  get k ((j, v) ∷ m) = if k == j then some v else get k m

  unfoldable pub insert : ℕ → V → List (ℕ × V) → List (ℕ × V)
  insert k v [] = (k, v) ∷ []
  insert k v ((j, w) ∷ m) =
      let rest = insert k v m in
      if ltb k j then (k, v) ∷ (j, w) ∷ m else if k == j then (k, v) ∷ m else (j, w) ∷ rest

  unfoldable pub remove : ℕ → List (ℕ × V) → List (ℕ × V)
  remove k [] = []
  remove k ((j, w) ∷ m) = let rest = remove k m in if k == j then m else (j, w) ∷ rest

  abbrev pub keys : List (ℕ × V) → List ℕ
  keys [] = []
  keys ((k, v) ∷ m) = k ∷ keys m

  -- On its keys a map is a set.
  pub keys-insert : (k : ℕ) (v : V) (m : List (ℕ × V)) → keys (insert k v m) ≡ set_insert k (keys m)
  unfolding insert set_insert
  keys-insert k v [] = refl
  keys-insert k v ((j, w) ∷ m) = ground (arith, keys-insert k v m)

  pub keys-remove : (k : ℕ) (m : List (ℕ × V)) → keys (remove k m) ≡ set_remove k (keys m)
  unfolding remove set_remove
  keys-remove k [] = refl
  keys-remove k ((j, w) ∷ m) = ground (arith, keys-remove k m)
