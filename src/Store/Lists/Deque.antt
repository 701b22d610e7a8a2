-- ===== src/Store/Lists/Deque.antt =====
-- internal/store/list.go: LPush, RPush, LPop and RPop as operations on the sequence at a key.
use goredis_main.Prelude.{
  ℕ, suc, ◌-◌, ◌≡◌, refl, sym, ap, subst, ◌∙◌, false, List, [], ◌∷◌, ◌++◌, Option, none, some,
  Bytes, bytes_eq, bytes_eq_refl, arith, length, take, get_elem?,
}
use goredis_main.Prelude.Int.{ℤ}
use goredis_main.Store.{
  kind_list, kind_of, same_kind, list, list_of, Entry, Store, StoreError, Result, ok, err, fresh,
  expired, put, drop_key, get_locked, find_kind, create_missing, make_kind,
}
use goredis_main.Store.Live.{
  get_locked-put, get_locked-drop_key, get_locked_live, expired-payload, expired-fresh,
}
use goredis_main.Store.Cases.{FindCases, refused, missing, found, find_kind-cases}
use goredis_main.Store.Invariant.{put-put}
use goredis_main.Store.Lists.{
  push_front, lpush, lpush_into, rpush, rpush_into, items_of, left_over, lpop, lpop_entry, pop_head,
  rpop, rpop_entry, pop_last, popped,
}

-- The sequence at a key: empty where there is none, an error where there is another kind.
abbrev pub items : Store → ℤ → Bytes → Result (List Bytes)
items s now key = items_of (find_kind kind_list s now key)

abbrev pub reversed : List Bytes → List Bytes
reversed [] = []
reversed (v ∷ values) = reversed values ++ v ∷ []

append_assoc : (xs ys zs : List Bytes) → (xs ++ ys) ++ zs ≡ xs ++ (ys ++ zs)
append_assoc [] ys zs = refl
append_assoc (x ∷ xs) ys zs = ap (◌∷◌ x) (append_assoc xs ys zs)

push_front-reversed : (values l : List Bytes) → push_front values l ≡ reversed values ++ l
unfolding push_front
push_front-reversed [] l = refl
push_front-reversed (v ∷ values) l =
    push_front-reversed values (v ∷ l) ∙ sym (append_assoc (reversed values) (v ∷ []) l)

-- An entry that is written with a list is what the key then holds.
items-put :
    (s : Store) (now : ℤ) (key : Bytes) (e : Entry) (l : List Bytes)
    → expired e now ≡ false
    → items (put key (record e { payload = list l }) s) now key ≡ ok l
unfolding find_kind kind_of same_kind
items-put s now key e l live = rw (
  get_locked-put s now key key (record e { payload = list l }),
  bytes_eq_refl key,
  expired-payload e (list l) now,
  live,
)

items-drop_key : (s : Store) (now : ℤ) (key : Bytes) → items (drop_key key s) now key ≡ ok []
unfolding find_kind
items-drop_key s now key = rw (get_locked-drop_key s now key key, bytes_eq_refl key)

items-left_over :
    (s : Store) (now : ℤ) (key : Bytes) (e : Entry) (l : List Bytes)
    → expired e now ≡ false
    → items (left_over key e l s) now key ≡ ok l
items-left_over s now key e [] live = items-drop_key s now key
items-left_over s now key e (x ∷ l) live = items-put s now key e (x ∷ l) live

-- A push: the sequence becomes `f` of what it was, and its length is the reply; an error changes
-- nothing.
pub data Pushed (s : Store) (now : ℤ) (key : Bytes) (f : List Bytes → List Bytes)
    : Result (List Bytes) → Store × Result ℕ → Type 0 where
  refuses : (c : StoreError) → Pushed s now key f (err c) (s, err c)
  pushes :
      (l : List Bytes) (s' : Store)
      → items s' now key ≡ ok (f l)
      → ((t : ℤ) (j : Bytes) → bytes_eq key j ≡ false → get_locked s' t j ≡ get_locked s t j)
      → Pushed s now key f (ok l) (s', ok (length (f l)))

put-frame :
    (s : Store) (key : Bytes) (e : Entry) (t : ℤ) (j : Bytes)
    → bytes_eq key j ≡ false
    → get_locked (put key e s) t j ≡ get_locked s t j
put-frame s key e t j other = rw (get_locked-put s t key j e, other)

-- The write of a push into a live entry, and into an entry that was just created.
stored-Pushed :
    (s : Store) (now : ℤ) (key : Bytes) (f : List Bytes → List Bytes) (e : Entry) (l : List Bytes)
    → expired e now ≡ false
    → Pushed s now key f (ok l) (put key (record e { payload = list (f l) }) s, ok (length (f l)))
stored-Pushed s now key f e l live =
    pushes l _ (items-put s now key e (f l) live)
      (λ t j other. put-frame s key (record e { payload = list (f l) }) t j other)

created-Pushed :
    (s : Store) (now : ℤ) (key : Bytes) (f : List Bytes → List Bytes)
    → Pushed s now key f
        (ok [])
        (put key (fresh (list (f []))) (put key (fresh (list [])) s), ok (length (f [])))
created-Pushed s now key f =
    rw (put-put key (fresh (list (f []))) (fresh (list [])) s)
      (stored-Pushed s now key f (fresh (list [])) [] (expired-fresh (list []) now))

module _ (s : Store) (now : ℤ) (key : Bytes) (values : List Bytes) where
  lpush_into-Pushed :
      {r : Result (Option Entry)}
      → FindCases kind_list s now key r
      → Pushed s now key
          (push_front values)
          (items_of r)
          (lpush_into key values (create_missing (list []) key s r))
  unfolding lpush_into create_missing
  lpush_into-Pushed (refused e live k) = refuses _
  lpush_into-Pushed (missing gone) = created-Pushed s now key (push_front values)
  lpush_into-Pushed (found e live k) =
      stored-Pushed s now key (push_front values) e (list_of e.payload)
        (get_locked_live s now key live)

  rpush_into-Pushed :
      {r : Result (Option Entry)}
      → FindCases kind_list s now key r
      → Pushed s now key
          (λ l. l ++ values)
          (items_of r)
          (rpush_into key values (create_missing (list []) key s r))
  unfolding rpush_into create_missing
  rpush_into-Pushed (refused e live k) = refuses _
  rpush_into-Pushed (missing gone) = created-Pushed s now key (λ l. l ++ values)
  rpush_into-Pushed (found e live k) =
      stored-Pushed s now key (λ l. l ++ values) e (list_of e.payload)
        (get_locked_live s now key live)

  -- LPUSH puts its values before the sequence at the key, the last one first, and RPUSH puts them
  -- after it in their order; the reply is the new length, and no other key changes. Where the key
  -- holds another kind both refuse, and nothing changes.
  pub push_lem :
      Pushed s now key (λ l. reversed values ++ l) (items s now key) (lpush s now key values)
      × Pushed s now key (λ l. l ++ values) (items s now key) (rpush s now key values)
  unfolding lpush rpush make_kind kind_of
  push_lem = (
    subst (λ f. Pushed s now key f (items s now key) (lpush s now key values))
        (λ i l. push_front-reversed values l i)
        (lpush_into-Pushed (find_kind-cases kind_list s now key)),
    rpush_into-Pushed (find_kind-cases kind_list s now key),
  )

-- A pop: nothing to take; or the sequence was `join x l` and becomes l.
pub data Popped (s : Store) (now : ℤ) (key : Bytes) (join : Bytes → List Bytes → List Bytes)
    : Result (List Bytes) → Store × Result (Option Bytes) → Type 0 where
  refuses : (c : StoreError) → Popped s now key join (err c) (s, err c)
  nothing : Popped s now key join (ok []) (s, ok none)
  pops :
      (x : Bytes) (l : List Bytes) (s' : Store)
      → items s' now key ≡ ok l
      → ((t : ℤ) (j : Bytes) → bytes_eq key j ≡ false → get_locked s' t j ≡ get_locked s t j)
      → Popped s now key join (ok (join x l)) (s', ok (some x))

left_over-frame :
    (s : Store) (key : Bytes) (e : Entry) (l : List Bytes) (t : ℤ) (j : Bytes)
    → bytes_eq key j ≡ false
    → get_locked (left_over key e l s) t j ≡ get_locked s t j
left_over-frame s key e [] t j other = rw (get_locked-drop_key s t key j, other)
left_over-frame s key e (x ∷ l) t j other =
    put-frame s key (record e { payload = list (x ∷ l) }) t j other

minus_one : (n : ℕ) → suc n - 1 ≡ n
minus_one n = omega arith

-- A sequence that is not empty is its front and its last element.
front_last :
    (x : Bytes) (l : List Bytes)
    → (front : List Bytes) × (last : Bytes) × (x ∷ l ≡ front ++ last ∷ [])
      × (get_elem? (x ∷ l) (length l) ≡ some last)
      × (take (length l) (x ∷ l) ≡ front)
front_last x [] = ([], x, refl, refl, refl)
front_last x (y ∷ l) =
    let (front, last, e, g, t) = front_last y l in (x ∷ front, last, ap (◌∷◌ x) e, g, ap (◌∷◌ x) t)

module _ (s : Store) (now : ℤ) (key : Bytes) where
  pop_head-Popped :
      (e : Entry) (l : List Bytes)
      → expired e now ≡ false
      → Popped s now key (λ x l. x ∷ l) (ok l) (pop_head key e l s)
  unfolding pop_head
  pop_head-Popped e [] live = nothing
  pop_head-Popped e (x ∷ l) live =
      pops x l _ (items-left_over s now key e l live)
        (λ t j other. left_over-frame s key e l t j other)

  pop_last-Popped :
      (e : Entry) (l : List Bytes)
      → expired e now ≡ false
      → Popped s now key (λ x l. l ++ x ∷ []) (ok l) (pop_last key e l s)
  unfolding pop_last popped
  pop_last-Popped e [] live = nothing
  pop_last-Popped e (x ∷ l) live =
      let (front, last, whole, g, t) = front_last x l in
      rw (minus_one (length l), g, minus_one (length l), t, whole)
        (pops last front _ (items-left_over s now key e front live)
          (λ t j other. left_over-frame s key e front t j other))

  lpop_entry-Popped :
      {r : Result (Option Entry)}
      → FindCases kind_list s now key r
      → Popped s now key (λ x l. x ∷ l) (items_of r) (lpop_entry key s r)
  unfolding lpop_entry
  lpop_entry-Popped (refused e live k) = refuses _
  lpop_entry-Popped (missing gone) = nothing
  lpop_entry-Popped (found e live k) =
      pop_head-Popped e (list_of e.payload) (get_locked_live s now key live)

  rpop_entry-Popped :
      {r : Result (Option Entry)}
      → FindCases kind_list s now key r
      → Popped s now key (λ x l. l ++ x ∷ []) (items_of r) (rpop_entry key s r)
  unfolding rpop_entry
  rpop_entry-Popped (refused e live k) = refuses _
  rpop_entry-Popped (missing gone) = nothing
  rpop_entry-Popped (found e live k) =
      pop_last-Popped e (list_of e.payload) (get_locked_live s now key live)

  -- LPOP takes the first element of the sequence at the key and RPOP the last one: the reply is that
  -- element, the rest stays, and no other key changes. An empty sequence gives none and a key of
  -- another kind an error, and then nothing changes.
  pub pop_lem :
      Popped s now key (λ x l. x ∷ l) (items s now key) (lpop s now key)
      × Popped s now key (λ x l. l ++ x ∷ []) (items s now key) (rpop s now key)
  unfolding lpop rpop
  pop_lem = (
    lpop_entry-Popped (find_kind-cases kind_list s now key),
    rpop_entry-Popped (find_kind-cases kind_list s now key),
  )
