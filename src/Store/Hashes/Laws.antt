-- ===== src/Store/Hashes/Laws.antt =====
-- internal/store/hash.go: the counts that HSET and HDEL report, and what they leave. SRem and ZRem run
-- the same loop as HDel.
use goredis_main.Prelude.{
  ℕ, suc, ◌+◌, ◌≡◌, refl, ap, ◌∙◌, List, [], ◌∷◌, Option, none, some, Bytes, bytes_eq, bytes_eq_iff,
  arith, if◌then◌else◌, Bool-cases, inl, inr,
}
use goredis_main.GoMap.{Map, lookup, insert, delete, has, size, Distinct}
use goredis_main.GoMap.Laws.{
  lookup-insert, lookup-delete, size-insert, size-delete, delete-Distinct,
}
use goredis_main.Store.Keyspace.Laws.{listed}
use goredis_main.Store.Hashes.{set_fields, remove_all}

-- The value that a write of all `fields` leaves under f: the last one given.
abbrev pub written : Bytes → Map Bytes → Option Bytes → Option Bytes
written f [] o = o
written f ((g, v) ∷ fields) o = written f fields (if bytes_eq g f then some v else o)

-- The loop of HSET keeps count: the fields there are after it are those before and the number it
-- reports; under each field stands the value written last, or else the one that was there.
pub set_fields_lem :
    (fields h : Map Bytes) (n : ℕ)
    → (size (set_fields fields h n).0 + n ≡ size h + (set_fields fields h n).1)
      × ((f : Bytes) → lookup f (set_fields fields h n).0 ≡ written f fields (lookup f h))
unfolding set_fields
set_fields_lem [] h n = (refl, λ f. refl)
set_fields_lem ((g, v) ∷ fields) h n =
    let (sz, look) = set_fields_lem fields (insert g v h) (if has g h then n else suc n) in
    (
      ground (arith, sz, size-insert g v h),
      λ f. look f ∙ ap (written f fields) (lookup-insert g f v h),
    )

module _ {ℓ} {V : Type ℓ} where
  remove_one :
      (g : Bytes) (h : Map V) (n : ℕ)
      → Distinct h
      → Distinct (if has g h then delete g h else h)
        × (size (if has g h then delete g h else h) + (if has g h then suc n else n) ≡ size h + n)
        × ((f : Bytes)
            → lookup f (if has g h then delete g h else h)
              ≡ (if bytes_eq g f then none else lookup f h))
  remove_one g h n d = elim (Bool-cases (has g h)) [
    | inl e ↦
        rw e (delete-Distinct g h d, ground (arith, e, size-delete g h d), λ f. lookup-delete g f h)
    | inr e ↦ rw e (d, refl, λ f. ground (arith, e, bytes_eq_iff g f))
  ]

  -- On a map with no key twice the loop of HDel, SRem and ZRem keeps count: the entries that are left and those that it reports
  -- make up those there were; what is listed is gone, and the rest is as it was.
  pub remove_all_lem :
      (fields : List Bytes) (h : Map V) (n : ℕ)
      → Distinct h
      → (size (remove_all fields h n).0 + (remove_all fields h n).1 ≡ size h + n)
        × ((f : Bytes)
            → lookup f (remove_all fields h n).0 ≡ (if listed f fields then none else lookup f h))
  unfolding remove_all
  remove_all_lem [] h n d = (refl, λ f. refl)
  remove_all_lem (g ∷ fields) h n d =
      let (d', sz, look) = remove_one g h n d in
      let (szs, looks) =
        remove_all_lem fields (if has g h then delete g h else h) (if has g h then suc n else n)
          d' in
      (szs ∙ sz, λ f. ground (arith, looks f, look f))
