-- ===== src/Store/ZSets/Invariant.antt =====
-- The sorted-set operations keep a store well-formed.
use goredis_main.Prelude.{ℕ, ◌+◌, ◌<◌, List, [], ◌∷◌, Option, Bytes, arith}
use goredis_main.Prelude.Int.{ℤ}
use goredis_main.GoMap.{Map, insert, size, Distinct}
use goredis_main.GoMap.Laws.{insert-Distinct, size-insert_pos}
use goredis_main.Store.{kind_zset, zset, scores_of, Entry, Store, Result}
use goredis_main.Store.Cases.{
  FindCases, MakeCases, refused, missing, created, found, find_kind-cases, make_kind-cases,
}
use goredis_main.Store.Invariant.{
  IsValid, put-IsValid, put-put-IsValid, get_locked-EntryOk, scores_of-Distinct,
}
use goredis_main.Store.Hashes.Invariant.{MapOk, remove_all-Distinct, keep_or_drop-IsValid}
use goredis_main.Store.ZSets.{set_scores, zadd_into, zadd, zrem_entry, zrem}

set_scores-MapOk :
    (members z : Map ℕ) (n : ℕ)
    → Distinct z
    → 0 < size z + size members
    → MapOk (set_scores members z n).0
unfolding set_scores
set_scores-MapOk [] z n d p = (d, omega arith)
set_scores-MapOk ((m, sc) ∷ members) z n d p =
    set_scores-MapOk members (insert m sc z) _ (insert-Distinct m sc z d)
      (omega (arith, size-insert_pos m sc z))

module _ (s : Store) (now : ℤ) (key : Bytes) (v : IsValid s) where
  zadd_into-IsValid :
      (members : Map ℕ) {r : Store × Result Entry}
      → 0 < size members
      → MakeCases (zset []) s now key r
      → IsValid (zadd_into key members r).0
  unfolding zadd_into
  zadd_into-IsValid members p (refused e _ _) = v
  zadd_into-IsValid members p (created _) =
      put-put-IsValid key _ _ s (set_scores-MapOk members [] 0 tt (omega arith)) v
  zadd_into-IsValid members p (found e h _) =
      let d = scores_of-Distinct e.payload (get_locked-EntryOk s now key v h) in
      put-IsValid key _ s (set_scores-MapOk members (scores_of e.payload) 0 d (omega arith)) v

  pub zadd-IsValid : (members : Map ℕ) → 0 < size members → IsValid (zadd s now key members).0
  unfolding zadd
  zadd-IsValid members p = zadd_into-IsValid members p (make_kind-cases (zset []) s now key)

  zrem_entry-IsValid :
      (members : List Bytes) {r : Result (Option Entry)}
      → FindCases kind_zset s now key r
      → IsValid (zrem_entry key members s r).0
  unfolding zrem_entry
  zrem_entry-IsValid members (refused e _ _) = v
  zrem_entry-IsValid members (missing _) = v
  zrem_entry-IsValid members (found e h _) =
      let d = scores_of-Distinct e.payload (get_locked-EntryOk s now key v h) in
      keep_or_drop-IsValid zset key e s _ (λ m p. p)
        (remove_all-Distinct members (scores_of e.payload) 0 d) v

  pub zrem-IsValid : (members : List Bytes) → IsValid (zrem s now key members).0
  unfolding zrem
  zrem-IsValid members = zrem_entry-IsValid members (find_kind-cases kind_zset s now key)
