-- ===== src/Store/ZSets/Atomic.antt =====
-- internal/store: failing operations on a sorted set.
use goredis_main.Prelude.{ℕ, refl, List, [], Option, Bytes}
use goredis_main.Prelude.Int.{ℤ}
use goredis_main.GoMap.{Map}
use goredis_main.Store.{kind_zset, zset, scores_of, Entry, Store, Result}
use goredis_main.Store.Atomic.{Atomic}
use goredis_main.Store.Cases.{
  FindCases, MakeCases, refused, missing, created, found, find_kind-cases, make_kind-cases,
}
use goredis_main.Store.Hashes.{remove_all}
use goredis_main.Store.Hashes.Atomic.{keep_or_drop-Atomic}
use goredis_main.Store.ZSets.{zadd_into, zadd, zrem_entry, zrem}

module _ (s : Store) (now : ℤ) (key : Bytes) where
  zadd_into-Atomic :
      (members : Map ℕ) {r : Store × Result Entry}
      → MakeCases (zset []) s now key r
      → Atomic s (zadd_into key members r)
  unfolding zadd_into
  zadd_into-Atomic members (refused e _ _) c h = refl
  zadd_into-Atomic members (created _) c h = cc
  zadd_into-Atomic members (found e _ _) c h = cc

  pub zadd-Atomic : (members : Map ℕ) → Atomic s (zadd s now key members)
  unfolding zadd
  zadd-Atomic members = zadd_into-Atomic members (make_kind-cases (zset []) s now key)

  zrem_entry-Atomic :
      (members : List Bytes) {r : Result (Option Entry)}
      → FindCases kind_zset s now key r
      → Atomic s (zrem_entry key members s r)
  unfolding zrem_entry
  zrem_entry-Atomic members (refused e _ _) c h = refl
  zrem_entry-Atomic members (missing _) c h = refl
  zrem_entry-Atomic members (found e _ _) c h =
      keep_or_drop-Atomic zset key e s (remove_all members (scores_of e.payload) 0) c h

  pub zrem-Atomic : (members : List Bytes) → Atomic s (zrem s now key members)
  unfolding zrem
  zrem-Atomic members = zrem_entry-Atomic members (find_kind-cases kind_zset s now key)
