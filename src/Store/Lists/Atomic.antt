-- ===== src/Store/Lists/Atomic.antt =====
-- internal/store: failing operations on a list.
use goredis_main.Prelude.{◌-◌, refl, List, [], ◌∷◌, Option, none, some, Bytes, length, get_elem?}
use goredis_main.Prelude.Int.{ℤ}
use goredis_main.Store.{kind_list, list, list_of, Entry, Store, Result}
use goredis_main.Store.Atomic.{Atomic}
use goredis_main.Store.Cases.{
  FindCases, MakeCases, refused, missing, created, found, find_kind-cases, make_kind-cases,
}
use goredis_main.Store.Lists.{
  lpush_into, rpush_into, lpush, rpush, pop_head, pop_last, popped, lpop_entry, rpop_entry, lpop,
  rpop,
}

module _ (s : Store) (now : ℤ) (key : Bytes) where
  lpush_into-Atomic :
      (values : List Bytes) {r : Store × Result Entry}
      → MakeCases (list []) s now key r
      → Atomic s (lpush_into key values r)
  unfolding lpush_into
  lpush_into-Atomic values (refused e _ _) c h = refl
  lpush_into-Atomic values (created _) c h = cc
  lpush_into-Atomic values (found e _ _) c h = cc

  rpush_into-Atomic :
      (values : List Bytes) {r : Store × Result Entry}
      → MakeCases (list []) s now key r
      → Atomic s (rpush_into key values r)
  unfolding rpush_into
  rpush_into-Atomic values (refused e _ _) c h = refl
  rpush_into-Atomic values (created _) c h = cc
  rpush_into-Atomic values (found e _ _) c h = cc

  pub lpush-Atomic : (values : List Bytes) → Atomic s (lpush s now key values)
  unfolding lpush
  lpush-Atomic values = lpush_into-Atomic values (make_kind-cases (list []) s now key)

  pub rpush-Atomic : (values : List Bytes) → Atomic s (rpush s now key values)
  unfolding rpush
  rpush-Atomic values = rpush_into-Atomic values (make_kind-cases (list []) s now key)

  pop_head-Atomic : (e : Entry) (l : List Bytes) → Atomic s (pop_head key e l s)
  unfolding pop_head
  pop_head-Atomic e [] c h = refl
  pop_head-Atomic e (x ∷ l) c h = cc

  popped-Atomic : (e : Entry) (l : List Bytes) (o : Option Bytes) → Atomic s (popped key e l s o)
  unfolding popped
  popped-Atomic e l none c h = refl
  popped-Atomic e l (some x) c h = cc

  lpop_entry-Atomic :
      {r : Result (Option Entry)} → FindCases kind_list s now key r → Atomic s (lpop_entry key s r)
  unfolding lpop_entry
  lpop_entry-Atomic (refused e _ _) c h = refl
  lpop_entry-Atomic (missing _) c h = refl
  lpop_entry-Atomic (found e _ _) c h = pop_head-Atomic e (list_of e.payload) c h

  rpop_entry-Atomic :
      {r : Result (Option Entry)} → FindCases kind_list s now key r → Atomic s (rpop_entry key s r)
  unfolding rpop_entry pop_last
  rpop_entry-Atomic (refused e _ _) c h = refl
  rpop_entry-Atomic (missing _) c h = refl
  rpop_entry-Atomic (found e _ _) c h =
      popped-Atomic e (list_of e.payload)
        (get_elem? (list_of e.payload) (length (list_of e.payload) - 1)) c h

  pub lpop-Atomic : Atomic s (lpop s now key)
  unfolding lpop
  lpop-Atomic = lpop_entry-Atomic (find_kind-cases kind_list s now key)

  pub rpop-Atomic : Atomic s (rpop s now key)
  unfolding rpop
  rpop-Atomic = rpop_entry-Atomic (find_kind-cases kind_list s now key)
