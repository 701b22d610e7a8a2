-- ===== src/Store/Sets/Invariant.antt =====
-- The set operations keep a store well-formed.
use goredis_main.Prelude.{
  ℕ, ◌+◌, ◌<◌, ◌≡◌, true, List, [], ◌∷◌, Option, Bytes, length, arith, if_intro,
}
use goredis_main.Prelude.Int.{ℤ}
use goredis_main.GoMap.{Map, lookup, insert, has, size, Distinct}
use goredis_main.GoMap.Laws.{insert-Distinct, size-insert_pos}
use goredis_main.Store.{kind_set, set, set_of, Entry, Store, Result}
use goredis_main.Store.Cases.{
  FindCases, MakeCases, refused, missing, created, found, find_kind-cases, make_kind-cases,
}
use goredis_main.Store.Invariant.{
  IsValid, put-IsValid, put-put-IsValid, get_locked-EntryOk, set_of-Distinct,
}
use goredis_main.Store.Hashes.Invariant.{MapOk, remove_all-Distinct, keep_or_drop-IsValid}
use goredis_main.Store.Sets.{add_members, sadd_into, sadd, srem_entry, srem}

-- A key that is there makes the map non-empty.
size_of_has : (k : Bytes) (m : Map (Unit {0})) → has k m ≡ true → 0 < size m
unfolding lookup
size_of_has k [] h = cc
size_of_has k (x ∷ m) h = omega arith

add_members-MapOk :
    (xs : List Bytes) (m : Map (Unit {0})) (n : ℕ)
    → Distinct m
    → 0 < size m + length xs
    → MapOk (add_members xs m n).0
unfolding add_members
add_members-MapOk [] m n d p = (d, omega arith)
add_members-MapOk (x ∷ xs) m n d p =
    let (d', p') =
      if_intro (λ m'. Distinct m' × (0 < size m' + length xs)) (has x m) m (insert x tt m)
        (λ t. (d, omega (arith, size_of_has x m t)))
        (λ _. (insert-Distinct x tt m d, omega (arith, size-insert_pos x tt m))) in
    add_members-MapOk xs _ _ d' p'

module _ (s : Store) (now : ℤ) (key : Bytes) (v : IsValid s) (members : List Bytes) where
  sadd_into-IsValid :
      {r : Store × Result Entry}
      → 0 < length members
      → MakeCases (set []) s now key r
      → IsValid (sadd_into key members r).0
  unfolding sadd_into
  sadd_into-IsValid p (refused e _ _) = v
  sadd_into-IsValid p (created _) =
      put-put-IsValid key _ _ s (add_members-MapOk members [] 0 tt (omega arith)) v
  sadd_into-IsValid p (found e h _) =
      let d = set_of-Distinct e.payload (get_locked-EntryOk s now key v h) in
      put-IsValid key _ s (add_members-MapOk members (set_of e.payload) 0 d (omega arith)) v

  pub sadd-IsValid : 0 < length members → IsValid (sadd s now key members).0
  unfolding sadd
  sadd-IsValid p = sadd_into-IsValid p (make_kind-cases (set []) s now key)

  srem_entry-IsValid :
      {r : Result (Option Entry)}
      → FindCases kind_set s now key r
      → IsValid (srem_entry key members s r).0
  unfolding srem_entry
  srem_entry-IsValid (refused e _ _) = v
  srem_entry-IsValid (missing _) = v
  srem_entry-IsValid (found e h _) =
      let d = set_of-Distinct e.payload (get_locked-EntryOk s now key v h) in
      keep_or_drop-IsValid set key e s _ (λ m p. p)
        (remove_all-Distinct members (set_of e.payload) 0 d) v

  pub srem-IsValid : IsValid (srem s now key members).0
  unfolding srem
  srem-IsValid = srem_entry-IsValid (find_kind-cases kind_set s now key)
