-- ===== src/Store/Keyspace/Invariant.antt =====
-- The operations on keys of any kind, and the sweeper, keep a store well-formed.
use goredis_main.Prelude.{
  ℕ, ◌≡◌, refl, false, List, [], ◌∷◌, Option, none, some, Bytes, is_some, Bool-cases, inl, inr,
  arith,
}
use goredis_main.Prelude.Int.{ℤ}
use goredis_main.GoMap.{Map, lookup, Distinct}
use goredis_main.GoMap.Laws.{AllValues}
use goredis_main.Store.{Entry, Store, expired, drop_key, get_locked}
use goredis_main.Store.Invariant.{
  EntryOk, IsValid, put-IsValid, drop_key-IsValid, get_locked-EntryOk,
}
use goredis_main.Store.Keyspace.{
  del_one, del_loop, del, set_expiry, expire, expire_at, clear_expiry, persist, flush_all,
  move_entry, rename, sweep_entries, sweep,
}

del_one-IsValid :
    (o : Option Entry) (key : Bytes) (s : Store) (n : ℕ) → IsValid s → IsValid (del_one o key s n).0
unfolding del_one
del_one-IsValid none key s n v = v
del_one-IsValid (some e) key s n v = drop_key-IsValid key s v

del_loop-IsValid :
    (now : ℤ) (keys : List Bytes) (s : Store) (n : ℕ)
    → IsValid s
    → IsValid (del_loop now keys s n).0
unfolding del_loop
del_loop-IsValid now [] s n v = v
del_loop-IsValid now (key ∷ keys) s n v =
    let r = del_one (get_locked s now key) key s n in
    del_loop-IsValid now keys r.0 r.1 (del_one-IsValid (get_locked s now key) key s n v)

pub del-IsValid : (s : Store) (now : ℤ) (keys : List Bytes) → IsValid s → IsValid (del s now keys).0
unfolding del
del-IsValid s now keys v = del_loop-IsValid now keys s 0 v

set_expiry-IsValid :
    (at : Option ℤ) (s : Store) (now : ℤ) (key : Bytes) (o : Option Entry)
    → get_locked s now key ≡ o
    → IsValid s
    → IsValid (set_expiry at o key s).0
unfolding set_expiry
set_expiry-IsValid at s now key none h v = v
set_expiry-IsValid at s now key (some e) h v =
    put-IsValid key _ s (get_locked-EntryOk s now key v h) v

pub expire-IsValid :
    (s : Store) (now later : ℤ) (key : Bytes) (ttl : ℤ)
    → IsValid s
    → IsValid (expire s now later key ttl).0
unfolding expire
expire-IsValid s now later key ttl v = set_expiry-IsValid _ s now key (get_locked s now key) refl v

pub expire_at-IsValid :
    (s : Store) (now : ℤ) (key : Bytes) (at : Option ℤ)
    → IsValid s
    → IsValid (expire_at s now key at).0
unfolding expire_at
expire_at-IsValid s now key at v = set_expiry-IsValid at s now key (get_locked s now key) refl v

clear_expiry-IsValid :
    (s : Store) (now : ℤ) (key : Bytes) (o : Option Entry)
    → get_locked s now key ≡ o
    → IsValid s
    → IsValid (clear_expiry o key s).0
unfolding clear_expiry
clear_expiry-IsValid s now key none h v = v
clear_expiry-IsValid s now key (some e) h v = elim (Bool-cases (is_some e.expire_at)) [
  | inl t ↦ rw t (put-IsValid key _ s (get_locked-EntryOk s now key v h) v)
  | inr f ↦ rw f v
]

pub persist-IsValid :
    (s : Store) (now : ℤ) (key : Bytes) → IsValid s → IsValid (persist s now key).0
unfolding persist
persist-IsValid s now key v = clear_expiry-IsValid s now key (get_locked s now key) refl v

pub flush_all-IsValid : (s : Store) → IsValid (flush_all s)
unfolding flush_all
flush_all-IsValid s = record { distinct = tt; sound = tt }

move_entry-IsValid :
    (s : Store) (now : ℤ) (src dst : Bytes) (o : Option Entry)
    → get_locked s now src ≡ o
    → IsValid s
    → IsValid (move_entry o src dst s).0
unfolding move_entry
move_entry-IsValid s now src dst none h v = v
move_entry-IsValid s now src dst (some e) h v =
    put-IsValid dst e (drop_key src s) (get_locked-EntryOk s now src v h) (drop_key-IsValid src s v)

pub rename-IsValid :
    (s : Store) (now : ℤ) (src dst : Bytes) → IsValid s → IsValid (rename s now src dst).0
unfolding rename
rename-IsValid s now src dst v = move_entry-IsValid s now src dst (get_locked s now src) refl v

pub lookup-sweep_entries :
    (now : ℤ) (m : Map Entry) (k : Bytes)
    → is_some (lookup k m) ≡ false
    → is_some (lookup k (sweep_entries now m)) ≡ false
unfolding lookup sweep_entries
lookup-sweep_entries now [] k h = refl
lookup-sweep_entries now ((j, e) ∷ m) k h = ground (arith, lookup-sweep_entries now m k)

sweep_entries-Distinct : (now : ℤ) (m : Map Entry) → Distinct m → Distinct (sweep_entries now m)
unfolding sweep_entries
sweep_entries-Distinct now [] d = tt
sweep_entries-Distinct now ((j, e) ∷ m) d = elim (Bool-cases (expired e now)) [
  | inl t ↦ rw t (sweep_entries-Distinct now m d.1)
  | inr f ↦ rw f (lookup-sweep_entries now m j d.0, sweep_entries-Distinct now m d.1)
]

sweep_entries-AllValues :
    (now : ℤ) (m : Map Entry) → AllValues EntryOk m → AllValues EntryOk (sweep_entries now m)
unfolding sweep_entries
sweep_entries-AllValues now [] h = tt
sweep_entries-AllValues now ((j, e) ∷ m) h = elim (Bool-cases (expired e now)) [
  | inl t ↦ rw t (sweep_entries-AllValues now m h.1)
  | inr f ↦ rw f (h.0, sweep_entries-AllValues now m h.1)
]

pub sweep-IsValid : (s : Store) (now : ℤ) → IsValid s → IsValid (sweep s now)
unfolding sweep
sweep-IsValid s now v = record {
  distinct = sweep_entries-Distinct now s.entries v.distinct;
  sound = sweep_entries-AllValues now s.entries v.sound;
}
