-- ===== src/Store/Sets/Atomic.antt =====
-- internal/store: failing operations on a set.
use goredis_main.Prelude.{refl, List, [], Option, Bytes}
use goredis_main.Prelude.Int.{ℤ}
use goredis_main.Store.{kind_set, set, set_of, Entry, Store, Result}
use goredis_main.Store.Atomic.{Atomic}
use goredis_main.Store.Cases.{
  FindCases, MakeCases, refused, missing, created, found, find_kind-cases, make_kind-cases,
}
use goredis_main.Store.Hashes.{remove_all}
use goredis_main.Store.Hashes.Atomic.{keep_or_drop-Atomic}
use goredis_main.Store.Sets.{sadd_into, sadd, srem_entry, srem}

module _ (s : Store) (now : ℤ) (key : Bytes) where
  sadd_into-Atomic :
      (members : List Bytes) {r : Store × Result Entry}
      → MakeCases (set []) s now key r
      → Atomic s (sadd_into key members r)
  unfolding sadd_into
  sadd_into-Atomic members (refused e _ _) c h = refl
  sadd_into-Atomic members (created _) c h = cc
  sadd_into-Atomic members (found e _ _) c h = cc

  pub sadd-Atomic : (members : List Bytes) → Atomic s (sadd s now key members)
  unfolding sadd
  sadd-Atomic members = sadd_into-Atomic members (make_kind-cases (set []) s now key)

  srem_entry-Atomic :
      (members : List Bytes) {r : Result (Option Entry)}
      → FindCases kind_set s now key r
      → Atomic s (srem_entry key members s r)
  unfolding srem_entry
  srem_entry-Atomic members (refused e _ _) c h = refl
  srem_entry-Atomic members (missing _) c h = refl
  srem_entry-Atomic members (found e _ _) c h =
      keep_or_drop-Atomic set key e s (remove_all members (set_of e.payload) 0) c h

  pub srem-Atomic : (members : List Bytes) → Atomic s (srem s now key members)
  unfolding srem
  srem-Atomic members = srem_entry-Atomic members (find_kind-cases kind_set s now key)
