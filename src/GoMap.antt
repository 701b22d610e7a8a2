-- ===== src/GoMap.antt =====
-- Go's `map[string]V`: an association list. Where the program ranges over a map, Go's order is
-- unspecified; the model takes the list's, and the theorems on such loops do not depend on it.
pub mod Laws
use goredis_main.Prelude.{
  ℕ, suc, ◌≡◌, true, false, Bool, List, [], ◌∷◌, Option, none, some, Bytes, bytes_eq, length, map,
  is_some, if◌then◌else◌,
}

abbrev pub Map {ℓ} : Type ℓ → Type ℓ
Map V = List (Bytes × V)

module _ {ℓ} {V : Type ℓ} where
  -- v, ok := m[k]
  unfoldable pub lookup : Bytes → Map V → Option V
  lookup k [] = none
  lookup k ((j, v) ∷ m) = if bytes_eq j k then some v else lookup k m

  -- m[k] = v
  unfoldable pub insert : Bytes → V → Map V → Map V
  insert k v [] = (k, v) ∷ []
  insert k v ((j, w) ∷ m) = if bytes_eq j k then (k, v) ∷ m else (j, w) ∷ insert k v m

  -- delete(m, k)
  unfoldable pub delete : Bytes → Map V → Map V
  delete k [] = []
  delete k ((j, w) ∷ m) = let rest = delete k m in if bytes_eq j k then rest else (j, w) ∷ rest

  -- _, ok := m[k]
  abbrev pub has : Bytes → Map V → Bool
  has k m = is_some (lookup k m)

  -- len(m)
  abbrev pub size : Map V → ℕ
  size m = length m

  abbrev pub keys_of : Map V → List Bytes
  keys_of m = map (λ e. e.0) m

  abbrev pub values_of : Map V → List V
  values_of m = map (λ e. e.1) m

  -- No key twice, as in every Go map.
  abbrev pub Distinct : Map V → Type ℓ
  Distinct [] = Unit
  Distinct ((k, v) ∷ m) = (is_some (lookup k m) ≡ false) × Distinct m
