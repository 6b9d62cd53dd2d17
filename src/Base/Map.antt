-- ===== src/Base/Map.antt =====
-- `HashMap<Token, V>` as an association list with one entry for each key.
use casket.Base.{
  ℕ, suc, ◌+◌, ◌≤◌, ◌≡◌, refl, ◌≢◌, Bool, true, false, Option, none, some, List, [], ◌∷◌, arith,
  ◌==◌, if◌then◌else◌, length,
}

abbrev pub Map {ℓ} : Type ℓ → Type ℓ
Map V = List (ℕ × V)

module _ {V : Type 0} where
  abbrev pub lookup : ℕ → Map V → Option V
  lookup k [] = none
  lookup k ((j, v) ∷ m) = if j == k then some v else lookup k m

  abbrev pub insert : ℕ → V → Map V → Map V
  insert k v [] = (k, v) ∷ []
  insert k v ((j, w) ∷ m) = if j == k then (k, v) ∷ m else (j, w) ∷ insert k v m

  abbrev pub remove : ℕ → Map V → Map V
  remove k [] = []
  remove k ((j, w) ∷ m) = if j == k then m else (j, w) ∷ remove k m

  abbrev pub contains : ℕ → Map V → Bool
  contains k m = elim (lookup k m) [ none ↦ false | some _ ↦ true ]

  -- No key has two entries.
  abbrev pub IsMap : Map V → Type 0
  IsMap [] = Unit
  IsMap ((k, v) ∷ m) = (lookup k m ≡ none) × IsMap m

  pub lookup-insert :
      (k j : ℕ) (v : V) (m : Map V)
      → lookup j (insert k v m) ≡ (if k == j then some v else lookup j m)
  lookup-insert k j v [] = refl
  lookup-insert k j v ((i, w) ∷ m) = ground (arith, lookup-insert k j v m)

  pub lookup-remove_ne : (k j : ℕ) (m : Map V) → j ≢ k → lookup j (remove k m) ≡ lookup j m
  lookup-remove_ne k j [] h = refl
  lookup-remove_ne k j ((i, w) ∷ m) h = ground (arith, lookup-remove_ne k j m)

  pub lookup-remove_self : (k : ℕ) (m : Map V) → IsMap m → lookup k (remove k m) ≡ none
  lookup-remove_self k [] h = refl
  lookup-remove_self k ((i, w) ∷ m) h = ground (arith, lookup-remove_self k m h.1)

  pub lookup-remove :
      (k j : ℕ) (m : Map V)
      → IsMap m
      → lookup j (remove k m) ≡ (if k == j then none else lookup j m)
  lookup-remove k j m h = ground (arith, lookup-remove_self k m h, lookup-remove_ne k j m)

  pub insert-IsMap : (k : ℕ) (v : V) (m : Map V) → IsMap m → IsMap (insert k v m)
  insert-IsMap k v [] h = (refl, tt)
  insert-IsMap k v ((i, w) ∷ m) h = ground (arith, insert-IsMap k v m h.1, lookup-insert k i v m)

  pub remove-IsMap : (k : ℕ) (m : Map V) → IsMap m → IsMap (remove k m)
  remove-IsMap k [] h = tt
  remove-IsMap k ((i, w) ∷ m) h = ground (arith, remove-IsMap k m h.1, lookup-remove_ne k i m)

  pub length-remove :
      (k : ℕ) (v : V) (m : Map V) → lookup k m ≡ some v → suc (length (remove k m)) ≡ length m
  length-remove k v [] h = cc
  length-remove k v ((i, w) ∷ m) h = ground (arith, length-remove k v m)

  pub length-remove-le : (k : ℕ) (m : Map V) → length (remove k m) ≤ length m
  length-remove-le k [] = omega arith
  length-remove-le k ((i, w) ∷ m) = ground (arith, length-remove-le k m)

  pub length-insert-le : (k : ℕ) (v : V) (m : Map V) → length (insert k v m) ≤ length m + 1
  length-insert-le k v [] = omega arith
  length-insert-le k v ((i, w) ∷ m) = ground (arith, length-insert-le k v m)

  -- A key that has an entry keeps the number of entries.
  pub length-insert_known :
      (k : ℕ) (v w : V) (m : Map V) → lookup k m ≡ some w → length (insert k v m) ≡ length m
  length-insert_known k v w [] h = cc
  length-insert_known k v w ((i, u) ∷ m) h = ground (arith, length-insert_known k v w m)
