-- ===== src/Store.antt =====
-- internal/store/store.go: the keyspace, its entries, and the lookups that every operation starts
-- with. Each operation holds the store's lock from its first line to its last, so it is one function
-- from the store to the store and a result. The clock is an argument: a time is its nanoseconds, and
-- the zero time of `expireAt`, which means no expiry, is `none`.
pub mod Live
pub mod Cases
pub mod Refusal
pub mod Invariant
pub mod Atomic
pub mod Keyspace
pub mod Strings
pub mod Lists
pub mod Hashes
pub mod Sets
pub mod Float
pub mod ZSets
use goredis_main.Prelude.{
  ℕ, Bool, true, false, not, List, [], ◌∷◌, Option, none, some, Bytes, if◌then◌else◌,
}
use goredis_main.Prelude.Int.{ℤ, ltb_ℤ}
use goredis_main.GoMap.{Map, lookup, insert, delete}

pub data Kind : Type 0 where
  kind_string kind_hash kind_list kind_set kind_zset : Kind

-- The typed field of an entry that its kind selects. A set is a map to struct{}; a score is the bit
-- pattern of a float64.
pub data Payload : Type 0 where
  string : Bytes → Payload
  hash : Map Bytes → Payload
  list : List Bytes → Payload
  set : Map (Unit {0}) → Payload
  zset : Map ℕ → Payload

unfoldable pub kind_of : Payload → Kind
kind_of (string s) = kind_string
kind_of (hash m) = kind_hash
kind_of (list l) = kind_list
kind_of (set m) = kind_set
kind_of (zset m) = kind_zset

unfoldable pub same_kind : Kind → Kind → Bool
same_kind kind_string kind_string = true
same_kind kind_hash kind_hash = true
same_kind kind_list kind_list = true
same_kind kind_set kind_set = true
same_kind kind_zset kind_zset = true
same_kind _ _ = false

-- e.str, e.hash, e.list, e.set and e.zset.scores, with the zero value where another field is set.
abbrev pub str_of : Payload → Bytes
str_of (string s) = s
str_of _ = []

abbrev pub hash_of : Payload → Map Bytes
hash_of (hash m) = m
hash_of _ = []

abbrev pub list_of : Payload → List Bytes
list_of (list l) = l
list_of _ = []

abbrev pub set_of : Payload → Map (Unit {0})
set_of (set m) = m
set_of _ = []

abbrev pub scores_of : Payload → Map ℕ
scores_of (zset m) = m
scores_of _ = []

pub record Entry : Type 0 where
  pub payload : Payload
  pub expire_at : Option ℤ

pub record Store : Type 0 where
  pub entries : Map Entry

-- ErrWrongType, errNotAnInteger, and the errors of IncrBy and Rename.
pub data StoreError : Type 0 where
  wrong_type not_an_integer would_overflow no_such_key : StoreError

pub data Result {ℓ} (A : Type ℓ) : Type ℓ where
  ok : A → Result A
  err : StoreError → Result A

abbrev pub empty : Store
empty = record { entries = [] }

-- &entry{kind: …}
abbrev pub fresh : Payload → Entry
fresh p = record { payload = p; expire_at = none }

past : Option ℤ → ℤ → Bool
past none now = false
past (some t) now = not (ltb_ℤ now t)

unfoldable pub expired : Entry → ℤ → Bool
unfolding past
expired e now = past e.expire_at now

-- s.data[key] = e, and a write through the pointer e that the map holds.
abbrev pub put : Bytes → Entry → Store → Store
put key e s = record { entries = insert key e s.entries }

-- delete(s.data, key)
abbrev pub drop_key : Bytes → Store → Store
drop_key key s = record { entries = delete key s.entries }

alive : ℤ → Option Entry → Option Entry
alive now none = none
alive now (some e) = if expired e now then none else some e

unfoldable pub get_locked : Store → ℤ → Bytes → Option Entry
unfolding alive
get_locked s now key = alive now (lookup key s.entries)

check_kind : Kind → Option Entry → Result (Option Entry)
check_kind k none = ok none
check_kind k (some e) = if same_kind (kind_of e.payload) k then ok (some e) else err wrong_type

-- stringOrWrongType, and the other four at create = false.
unfoldable pub find_kind : Kind → Store → ℤ → Bytes → Result (Option Entry)
unfolding check_kind
find_kind k s now key = check_kind k (get_locked s now key)

create_missing : Payload → Bytes → Store → Result (Option Entry) → Store × Result Entry
create_missing p key s (ok none) = (put key (fresh p) s, ok (fresh p))
create_missing p key s (ok (some e)) = (s, ok e)
create_missing p key s (err c) = (s, err c)

-- The same at create = true, with the empty container that is created.
unfoldable pub make_kind : Payload → Store → ℤ → Bytes → Store × Result Entry
unfolding create_missing
make_kind p s now key = create_missing p key s (find_kind (kind_of p) s now key)
