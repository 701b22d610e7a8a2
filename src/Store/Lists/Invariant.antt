-- ===== src/Store/Lists/Invariant.antt =====
-- The list operations keep a store well-formed.
use goredis_main.Prelude.{
  ◌+◌, ◌-◌, ◌<◌, ◌≡◌, List, [], ◌∷◌, Option, none, some, Bytes, length, length-append, get_elem?,
  take, arith,
}
use goredis_main.Prelude.Int.{ℤ}
use goredis_main.Store.{kind_list, list, list_of, Entry, Store, Result}
use goredis_main.Store.Cases.{
  FindCases, MakeCases, refused, missing, created, found, find_kind-cases, make_kind-cases,
}
use goredis_main.Store.Invariant.{IsValid, put-IsValid, put-put-IsValid, drop_key-IsValid}
use goredis_main.Store.Lists.{
  push_front, lpush_into, rpush_into, lpush, rpush, left_over, pop_head, popped, lpop_entry,
  rpop_entry, lpop, rpop,
}

pub length-push_front :
    (values l : List Bytes) → length (push_front values l) ≡ length values + length l
unfolding push_front
length-push_front [] l = omega arith
length-push_front (v ∷ values) l = omega (arith, length-push_front values (v ∷ l))

module _ (s : Store) (now : ℤ) (key : Bytes) (v : IsValid s) where
  lpush_into-IsValid :
      (values : List Bytes) {r : Store × Result Entry}
      → 0 < length values
      → MakeCases (list []) s now key r
      → IsValid (lpush_into key values r).0
  unfolding lpush_into
  lpush_into-IsValid values h (refused e _ _) = v
  lpush_into-IsValid values h (created _) =
      put-put-IsValid key _ _ s (omega (arith, length-push_front values [])) v
  lpush_into-IsValid values h (found e _ _) =
      put-IsValid key _ s (omega (arith, length-push_front values (list_of e.payload))) v

  rpush_into-IsValid :
      (values : List Bytes) {r : Store × Result Entry}
      → 0 < length values
      → MakeCases (list []) s now key r
      → IsValid (rpush_into key values r).0
  unfolding rpush_into
  rpush_into-IsValid values h (refused e _ _) = v
  rpush_into-IsValid values h (created _) = put-put-IsValid key _ _ s (omega arith) v
  rpush_into-IsValid values h (found e _ _) =
      put-IsValid key _ s (omega (arith, length-append (list_of e.payload) values)) v

  pub lpush-IsValid : (values : List Bytes) → 0 < length values → IsValid (lpush s now key values).0
  unfolding lpush
  lpush-IsValid values h = lpush_into-IsValid values h (make_kind-cases (list []) s now key)

  pub rpush-IsValid : (values : List Bytes) → 0 < length values → IsValid (rpush s now key values).0
  unfolding rpush
  rpush-IsValid values h = rpush_into-IsValid values h (make_kind-cases (list []) s now key)

  left_over-IsValid : (e : Entry) (l : List Bytes) → IsValid (left_over key e l s)
  left_over-IsValid e [] = drop_key-IsValid key s v
  left_over-IsValid e (x ∷ l) = put-IsValid key _ s (omega arith) v

  pop_head-IsValid : (e : Entry) (l : List Bytes) → IsValid (pop_head key e l s).0
  unfolding pop_head
  pop_head-IsValid e [] = v
  pop_head-IsValid e (x ∷ l) = left_over-IsValid e l

  after_pop : (e : Entry) (l : List Bytes) (o : Option Bytes) → IsValid (popped key e l s o).0
  unfolding popped
  after_pop e l none = v
  after_pop e l (some x) = left_over-IsValid e (take (length l - 1) l)

  lpop_entry-IsValid :
      {r : Result (Option Entry)} → FindCases kind_list s now key r → IsValid (lpop_entry key s r).0
  unfolding lpop_entry
  lpop_entry-IsValid (refused e _ _) = v
  lpop_entry-IsValid (missing _) = v
  lpop_entry-IsValid (found e _ _) = pop_head-IsValid e (list_of e.payload)

  rpop_entry-IsValid :
      {r : Result (Option Entry)} → FindCases kind_list s now key r → IsValid (rpop_entry key s r).0
  unfolding rpop_entry
  rpop_entry-IsValid (refused e _ _) = v
  rpop_entry-IsValid (missing _) = v
  rpop_entry-IsValid (found e _ _) =
      after_pop e (list_of e.payload)
        (get_elem? (list_of e.payload) (length (list_of e.payload) - 1))

  pub lpop-IsValid : IsValid (lpop s now key).0
  unfolding lpop
  lpop-IsValid = lpop_entry-IsValid (find_kind-cases kind_list s now key)

  pub rpop-IsValid : IsValid (rpop s now key).0
  unfolding rpop
  rpop-IsValid = rpop_entry-IsValid (find_kind-cases kind_list s now key)
