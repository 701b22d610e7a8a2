-- ===== src/Store/Sets.antt =====
-- internal/store/set.go.
pub mod Invariant
pub mod Atomic
pub mod Laws
use goredis_main.Prelude.{
  ℕ, suc, Bool, true, false, List, [], ◌∷◌, Option, none, some, Bytes, if◌then◌else◌,
}
use goredis_main.Prelude.Int.{ℤ}
use goredis_main.GoMap.{Map, insert, has, size, keys_of}
use goredis_main.Store.{
  kind_set, Payload, set, set_of, Entry, Store, Result, ok, err, put, find_kind, make_kind,
}
use goredis_main.Store.Lists.{map_ok}
use goredis_main.Store.Hashes.{remove_all, keep_or_drop}

-- SAdd's loop, with the number of members added so far.
unfoldable pub add_members : List Bytes → Map (Unit {0}) → ℕ → Map (Unit {0}) × ℕ
add_members [] m n = (m, n)
add_members (x ∷ xs) m n =
    add_members xs (if has x m then m else insert x tt m) (if has x m then n else suc n)

sadd_into : Bytes → List Bytes → Store × Result Entry → Store × Result ℕ
sadd_into key members (s, err c) = (s, err c)
sadd_into key members (s, ok e) =
    let (m, n) = add_members members (set_of e.payload) 0 in
    (put key (record e { payload = set m }) s, ok n)

unfoldable pub sadd : Store → ℤ → Bytes → List Bytes → Store × Result ℕ
unfolding sadd_into
sadd s now key members = sadd_into key members (make_kind (set []) s now key)

srem_entry : Bytes → List Bytes → Store → Result (Option Entry) → Store × Result ℕ
srem_entry key members s (err c) = (s, err c)
srem_entry key members s (ok none) = (s, ok 0)
srem_entry key members s (ok (some e)) =
    keep_or_drop set key e s (remove_all members (set_of e.payload) 0)

unfoldable pub srem : Store → ℤ → Bytes → List Bytes → Store × Result ℕ
unfolding srem_entry
srem s now key members = srem_entry key members s (find_kind kind_set s now key)

-- What the read-only operations see: the empty set where there is no key.
abbrev pub members_of : Result (Option Entry) → Result (Map (Unit {0}))
members_of (err c) = err c
members_of (ok none) = ok []
members_of (ok (some e)) = ok (set_of e.payload)

unfoldable pub smembers : Store → ℤ → Bytes → Result (List Bytes)
smembers s now key = map_ok keys_of (members_of (find_kind kind_set s now key))

unfoldable pub sismember : Store → ℤ → Bytes → Bytes → Result Bool
sismember s now key member = map_ok (has member) (members_of (find_kind kind_set s now key))

unfoldable pub scard : Store → ℤ → Bytes → Result ℕ
scard s now key = map_ok size (members_of (find_kind kind_set s now key))
