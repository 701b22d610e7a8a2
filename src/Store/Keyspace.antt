-- ===== src/Store/Keyspace.antt =====
-- internal/store/store.go: the operations on keys of any kind, and the sweeper.
pub mod Invariant
pub mod Atomic
pub mod Laws
pub mod Ttl
use goredis_main.Prelude.{
  ℕ, zero, suc, ◌+◌, ◌^◌, ◌-◌, Bool, true, false, not, List, [], ◌∷◌, Option, none, some, Bytes,
  length, is_some, if◌then◌else◌,
}
use goredis_main.Prelude.Int.{ℤ, pos, negsuc, ◌+ℤ◌, ◌-ℤ◌, ltb_ℤ}
use goredis_main.Machine.{add64, quot, max_int64, min_int64}
use goredis_main.GoMap.{Map}
use goredis_main.Store.{
  Kind, kind_of, Entry, Store, StoreError, no_such_key, Result, ok, err, expired, put, drop_key,
  get_locked,
}

-- Type
kind_at : Option Entry → Option Kind
kind_at none = none
kind_at (some e) = some (kind_of e.payload)

unfoldable pub type_of : Store → ℤ → Bytes → Option Kind
unfolding kind_at
type_of s now key = kind_at (get_locked s now key)

del_one : Option Entry → Bytes → Store → ℕ → Store × ℕ
del_one none key s n = (s, n)
del_one (some e) key s n = (drop_key key s, suc n)

-- Del's loop, with the count so far.
unfoldable pub del_loop : ℤ → List Bytes → Store → ℕ → Store × ℕ
unfolding del_one
del_loop now [] s n = (s, n)
del_loop now (key ∷ keys) s n =
    let (s', n') = del_one (get_locked s now key) key s n in del_loop now keys s' n'

unfoldable pub del : Store → ℤ → List Bytes → Store × ℕ
unfolding del_loop
del s now keys = del_loop now keys s 0

unfoldable pub exists : Store → ℤ → List Bytes → ℕ
exists s now [] = 0
exists s now (key ∷ keys) = (if is_some (get_locked s now key) then 1 else 0) + exists s now keys

set_expiry : Option ℤ → Option Entry → Bytes → Store → Store × Bool
set_expiry at none key s = (s, false)
set_expiry at (some e) key s = (put key (record e { expire_at = at }) s, true)

-- Expire reads the clock a second time, after the lookup.
unfoldable pub expire : Store → ℤ → ℤ → Bytes → ℤ → Store × Bool
unfolding set_expiry
expire s now later key ttl = set_expiry (some (later +ℤ ttl)) (get_locked s now key) key s

-- ExpireAt; the zero time is `none`.
unfoldable pub expire_at : Store → ℤ → Bytes → Option ℤ → Store × Bool
unfolding set_expiry
expire_at s now key at = set_expiry at (get_locked s now key) key s

-- Time.Sub, which does not wrap but stops at the ends of int64.
unfoldable pub saturate : ℤ → ℤ
saturate z =
    if ltb_ℤ (pos max_int64) z then pos max_int64 else if ltb_ℤ z min_int64 then min_int64 else z

-- max(d, 0)
abbrev floor_zero : ℤ → ℤ
floor_zero (pos n) = pos n
floor_zero (negsuc n) = pos 0

ttl_of : ℤ → Option Entry → ℤ × Bool × Bool
ttl_of later none = (pos 0, false, false)
ttl_of later (some e) = elim e.expire_at [
  | none ↦ (pos 0, true, false)
  | some t ↦ (floor_zero (saturate (t -ℤ later)), true, true)
]

-- ttl: the time left, whether the key exists, and whether it has an expiry. The clock is read a
-- second time by time.Until.
unfoldable pub ttl : Store → ℤ → ℤ → Bytes → ℤ × Bool × Bool
unfolding ttl_of
ttl s now later key = ttl_of later (get_locked s now key)

abbrev pub second : ℕ
second = 1_000_000_000

abbrev pub millisecond : ℕ
millisecond = 1_000_000

-- The encoding of TTLSeconds and TTLMillis, by the conversion of the time that is left.
abbrev encode_ttl : (ℤ → ℤ) → ℤ × Bool × Bool → ℤ
encode_ttl units t = if not t.1 then negsuc 1 else if not t.2 then negsuc 0 else units t.0

unfoldable pub ttl_seconds : Store → ℤ → ℤ → Bytes → ℤ
ttl_seconds s now later key =
    encode_ttl (λ d. quot (add64 (add64 d (pos second)) (negsuc 0)) second) (ttl s now later key)

unfoldable pub ttl_millis : Store → ℤ → ℤ → Bytes → ℤ
ttl_millis s now later key = encode_ttl (λ d. quot d millisecond) (ttl s now later key)

clear_expiry : Option Entry → Bytes → Store → Store × Bool
clear_expiry none key s = (s, false)
clear_expiry (some e) key s =
    if is_some e.expire_at then (put key (record e { expire_at = none }) s, true) else (s, false)

unfoldable pub persist : Store → ℤ → Bytes → Store × Bool
unfolding clear_expiry
persist s now key = clear_expiry (get_locked s now key) key s

-- Keys' loop; `matches` is matchGlob at the pattern, with its error dropped.
unfoldable pub keys_loop : (Bytes → Bool) → ℤ → Map Entry → List Bytes
keys_loop matches now [] = []
keys_loop matches now ((k, e) ∷ m) =
    let rest = keys_loop matches now m in
    if expired e now then rest else if matches k then k ∷ rest else rest

unfoldable pub keys : (Bytes → Bytes → Bool) → Store → ℤ → Bytes → List Bytes
unfolding keys_loop
keys match_glob s now pattern = keys_loop (match_glob pattern) now s.entries

unfoldable pub flush_all : Store → Store
flush_all s = record { entries = [] }

unfoldable pub live_count : ℤ → Map Entry → ℕ
live_count now [] = 0
live_count now ((k, e) ∷ m) = (if expired e now then 0 else 1) + live_count now m

unfoldable pub db_size : Store → ℤ → ℕ
unfolding live_count
db_size s now = live_count now s.entries

move_entry : Option Entry → Bytes → Bytes → Store → Store × Result (Unit {0})
move_entry none src dst s = (s, err no_such_key)
move_entry (some e) src dst s = (put dst e (drop_key src s), ok tt)

unfoldable pub rename : Store → ℤ → Bytes → Bytes → Store × Result (Unit {0})
unfolding move_entry
rename s now src dst = move_entry (get_locked s now src) src dst s

-- One tick of sweepExpired.
unfoldable pub sweep_entries : ℤ → Map Entry → Map Entry
sweep_entries now [] = []
sweep_entries now ((k, e) ∷ m) =
    let rest = sweep_entries now m in if expired e now then rest else (k, e) ∷ rest

unfoldable pub sweep : Store → ℤ → Store
unfolding sweep_entries
sweep s now = record { entries = sweep_entries now s.entries }
