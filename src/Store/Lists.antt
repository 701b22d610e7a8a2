-- ===== src/Store/Lists.antt =====
-- internal/store/list.go. The head of the Go slice is the head of the list. An index is an int,
-- which holds the same numbers as an int64.
pub mod Invariant
pub mod Atomic
pub mod Laws
pub mod Deque
use goredis_main.Prelude.{
  ℕ, suc, ◌+◌, ◌-◌, Bool, true, false, ◌||◌, List, [], ◌∷◌, ◌++◌, Option, none, some, Bytes, length,
  take, drop, get_elem?, leb, ltb, ◌==◌, if◌then◌else◌,
}
use goredis_main.Prelude.Int.{ℤ, pos, negsuc, pos_part, ◌+ℤ◌, ◌-ℤ◌, ltb_ℤ, leb_ℤ}
use goredis_main.Store.{
  kind_list, Payload, list, list_of, Entry, Store, StoreError, Result, ok, err, put, drop_key,
  find_kind, make_kind,
}

-- LPush's loop: each value in turn goes to the front.
unfoldable pub push_front : List Bytes → List Bytes → List Bytes
push_front [] l = l
push_front (v ∷ values) l = push_front values (v ∷ l)

-- e.list = l, and its length.
store_list : Bytes → List Bytes → Store → Entry → Store × Result ℕ
store_list key l s e = (put key (record e { payload = list l }) s, ok (length l))

lpush_into : Bytes → List Bytes → Store × Result Entry → Store × Result ℕ
unfolding store_list
lpush_into key values (s, err c) = (s, err c)
lpush_into key values (s, ok e) = store_list key (push_front values (list_of e.payload)) s e

unfoldable pub lpush : Store → ℤ → Bytes → List Bytes → Store × Result ℕ
unfolding lpush_into
lpush s now key values = lpush_into key values (make_kind (list []) s now key)

rpush_into : Bytes → List Bytes → Store × Result Entry → Store × Result ℕ
unfolding store_list
rpush_into key values (s, err c) = (s, err c)
rpush_into key values (s, ok e) = store_list key (list_of e.payload ++ values) s e

unfoldable pub rpush : Store → ℤ → Bytes → List Bytes → Store × Result ℕ
unfolding rpush_into
rpush s now key values = rpush_into key values (make_kind (list []) s now key)

-- The write after a pop: an emptied list leaves the keyspace.
abbrev pub left_over : Bytes → Entry → List Bytes → Store → Store
left_over key e [] s = drop_key key s
left_over key e (x ∷ l) s = put key (record e { payload = list (x ∷ l) }) s

pop_head : Bytes → Entry → List Bytes → Store → Store × Result (Option Bytes)
pop_head key e [] s = (s, ok none)
pop_head key e (v ∷ l) s = (left_over key e l s, ok (some v))

lpop_entry : Bytes → Store → Result (Option Entry) → Store × Result (Option Bytes)
unfolding pop_head
lpop_entry key s (err c) = (s, err c)
lpop_entry key s (ok none) = (s, ok none)
lpop_entry key s (ok (some e)) = pop_head key e (list_of e.payload) s

unfoldable pub lpop : Store → ℤ → Bytes → Store × Result (Option Bytes)
unfolding lpop_entry
lpop s now key = lpop_entry key s (find_kind kind_list s now key)

-- v := e.list[n-1]; e.list = e.list[:n-1]
popped : Bytes → Entry → List Bytes → Store → Option Bytes → Store × Result (Option Bytes)
popped key e l s none = (s, ok none)
popped key e l s (some v) = (left_over key e (take (length l - 1) l) s, ok (some v))

pop_last : Bytes → Entry → List Bytes → Store → Store × Result (Option Bytes)
unfolding popped
pop_last key e l s = popped key e l s (get_elem? l (length l - 1))

rpop_entry : Bytes → Store → Result (Option Entry) → Store × Result (Option Bytes)
unfolding pop_last
rpop_entry key s (err c) = (s, err c)
rpop_entry key s (ok none) = (s, ok none)
rpop_entry key s (ok (some e)) = pop_last key e (list_of e.payload) s

unfoldable pub rpop : Store → ℤ → Bytes → Store × Result (Option Bytes)
unfolding rpop_entry
rpop s now key = rpop_entry key s (find_kind kind_list s now key)

-- What the read-only operations see: the empty list where there is no key.
abbrev pub items_of : Result (Option Entry) → Result (List Bytes)
items_of (err c) = err c
items_of (ok none) = ok []
items_of (ok (some e)) = ok (list_of e.payload)

abbrev pub map_ok {ℓ κ} : {A : Type ℓ} {B : Type κ} → (A → B) → Result A → Result B
map_ok f (err c) = err c
map_ok f (ok a) = ok (f a)

unfoldable pub llen : Store → ℤ → Bytes → Result ℕ
llen s now key = map_ok length (items_of (find_kind kind_list s now key))

-- clampIndex
unfoldable pub clamp_index : ℤ → ℕ → ℕ
clamp_index idx n = if ltb_ℤ idx (pos 0) then pos_part (idx +ℤ pos n) else pos_part idx

-- LRange from the length on, with the two indices clamped: stop >= n is n - 1, and
-- list[start : stop + 1] is copied out.
abbrev pub clamped_slice {ℓ} : {A : Type ℓ} → List A → ℕ → ℕ → List A
clamped_slice l start stop =
    let n = length l in
    let stop' = if leb n stop then n - 1 else stop in
    if ltb stop' start || leb n start || n == 0 then [] else take (stop' + 1 - start) (drop start l)

unfoldable pub slice {ℓ} : {A : Type ℓ} → List A → ℤ → ℤ → List A
slice l start stop = clamped_slice l (clamp_index start (length l)) (clamp_index stop (length l))

unfoldable pub lrange : Store → ℤ → Bytes → ℤ → ℤ → Result (List Bytes)
lrange s now key start stop =
    map_ok (λ l. slice l start stop) (items_of (find_kind kind_list s now key))

unfoldable pub index {ℓ} : {A : Type ℓ} → List A → ℤ → Option A
index l idx =
    let i = if ltb_ℤ idx (pos 0) then idx +ℤ pos (length l) else idx in
    if ltb_ℤ i (pos 0) || leb_ℤ (pos (length l)) i then none else get_elem? l (pos_part i)

unfoldable pub lindex : Store → ℤ → Bytes → ℤ → Result (Option Bytes)
lindex s now key idx = map_ok (λ l. index l idx) (items_of (find_kind kind_list s now key))
