-- ===== src/GoMap/Laws.antt =====
-- The laws of Go's maps: what a write changes, which keys there are, and how many.
use goredis_main.Prelude.{
  suc, ◌<◌, ◌≡◌, refl, subst, inl, inr, Bool-cases, false, [], ◌∷◌, none, some, Bytes, bytes_eq,
  bytes_eq_iff, bytes_eq_refl, arith, if◌then◌else◌,
}
use goredis_main.GoMap.{Map, lookup, insert, delete, has, size, Distinct}

module _ {ℓ} {V : Type ℓ} where
  pub lookup-insert :
      (k j : Bytes) (v : V) (m : Map V)
      → lookup j (insert k v m) ≡ (if bytes_eq k j then some v else lookup j m)
  unfolding lookup insert
  lookup-insert k j v [] = refl
  lookup-insert k j v ((i, w) ∷ m) =
      ground (arith, bytes_eq_iff k j, bytes_eq_iff i k, bytes_eq_iff i j, lookup-insert k j v m)

  pub lookup-delete :
      (k j : Bytes) (m : Map V)
      → lookup j (delete k m) ≡ (if bytes_eq k j then none else lookup j m)
  unfolding lookup delete
  lookup-delete k j [] = ground arith
  lookup-delete k j ((i, w) ∷ m) =
      ground (arith, lookup-delete k j m, bytes_eq_iff i k, bytes_eq_iff i j, bytes_eq_iff k j)

  pub insert-Distinct : (k : Bytes) (v : V) (m : Map V) → Distinct m → Distinct (insert k v m)
  unfolding lookup insert
  insert-Distinct k v [] d = (refl, tt)
  insert-Distinct k v ((i, w) ∷ m) d =
      ground (
        arith,
        insert-Distinct k v m d.1,
        lookup-insert k i v m,
        bytes_eq_iff i k,
        bytes_eq_iff k i,
      )

  pub delete-Distinct : (k : Bytes) (m : Map V) → Distinct m → Distinct (delete k m)
  unfolding lookup delete
  delete-Distinct k [] d = tt
  delete-Distinct k ((i, w) ∷ m) d =
      ground
        (arith, delete-Distinct k m d.1, lookup-delete k i m, bytes_eq_iff i k, bytes_eq_iff k i)

  pub size-insert :
      (k : Bytes) (v : V) (m : Map V)
      → size (insert k v m) ≡ (if has k m then size m else suc (size m))
  unfolding lookup insert
  size-insert k v [] = refl
  size-insert k v ((i, w) ∷ m) = ground (arith, size-insert k v m)

  -- A key that is not there leaves the map alone.
  pub delete_absent : (k : Bytes) (m : Map V) → has k m ≡ false → delete k m ≡ m
  unfolding lookup delete
  delete_absent k [] h = refl
  delete_absent k ((i, w) ∷ m) h = ground (arith, delete_absent k m)

  pub size-delete :
      (k : Bytes) (m : Map V)
      → Distinct m
      → (if has k m then suc (size (delete k m)) else size (delete k m)) ≡ size m
  unfolding lookup delete
  size-delete k [] d = refl
  size-delete k ((i, w) ∷ m) d =
      ground (arith, size-delete k m d.1, delete_absent k m, bytes_eq_iff i k)

-- Properties of all values of a map.
module _ {ℓ κ} {V : Type ℓ} (P : V → Type κ) where
  abbrev pub AllValues : Map V → Type κ
  AllValues [] = Unit
  AllValues ((k, v) ∷ m) = P v × AllValues m

  pub insert-AllValues :
      (k : Bytes) (v : V) (m : Map V) → P v → AllValues m → AllValues (insert k v m)
  unfolding insert
  insert-AllValues k v [] p h = (p, tt)
  insert-AllValues k v ((j, w) ∷ m) p h = elim (Bool-cases (bytes_eq j k)) [
    | inl e ↦ rw e (p, h.1)
    | inr e ↦ rw e (h.0, insert-AllValues k v m p h.1)
  ]

  pub delete-AllValues : (k : Bytes) (m : Map V) → AllValues m → AllValues (delete k m)
  unfolding delete
  delete-AllValues k [] h = tt
  delete-AllValues k ((j, w) ∷ m) h = elim (Bool-cases (bytes_eq j k)) [
    | inl e ↦ rw e (delete-AllValues k m h.1)
    | inr e ↦ rw e (h.0, delete-AllValues k m h.1)
  ]

  pub lookup-AllValues : (k : Bytes) (m : Map V) {v : V} → AllValues m → lookup k m ≡ some v → P v
  unfolding lookup
  lookup-AllValues k [] h e = cc
  lookup-AllValues k ((j, w) ∷ m) {v} h e = elim (Bool-cases (bytes_eq j k)) [
    | inl same ↦ subst P {x = w} {y = v} (ground arith) h.0
    | inr other ↦ lookup-AllValues k m h.1 (rw other at e)
  ]

module _ {ℓ} {V : Type ℓ} where
  -- Of two writes to one key the second stays.
  pub insert-insert : (k : Bytes) (v w : V) (m : Map V) → insert k v (insert k w m) ≡ insert k v m
  unfolding insert
  insert-insert k v w [] = rw (bytes_eq_refl k)
  insert-insert k v w ((j, u) ∷ m) = elim (Bool-cases (bytes_eq j k)) [
    | inl e ↦ rw (e, bytes_eq_refl k)
    | inr e ↦ rw (e, e, insert-insert k v w m)
  ]

module _ {ℓ} {V : Type ℓ} where
  pub size-insert_pos : (k : Bytes) (v : V) (m : Map V) → 0 < size (insert k v m)
  unfolding insert
  size-insert_pos k v [] = omega arith
  size-insert_pos k v ((j, w) ∷ m) = ground arith
