-- ===== src/Store/Keyspace/Laws.antt =====
-- internal/store/store.go: DEL, RENAME, expiry and the sweeper, as a client of the keyspace sees them.
use goredis_main.Prelude.{
  ℕ, suc, ◌+◌, ◌⊎◌, ◌&&◌, length, ◌≡◌, refl, sym, ◌∙◌, Bool, true, false, ◌||◌, List, [], ◌∷◌,
  Option, none, some, Bytes, bytes_eq, bytes_eq_iff, arith, is_some, if◌then◌else◌, Bool-cases,
  Option-cases, inl, inr,
}
use goredis_main.Prelude.Int.{ℤ, ◌+ℤ◌, ◌≤ℤ◌, ltb_ℤ}
use goredis_main.GoMap.{Map, lookup, delete, size, Distinct}
use goredis_main.GoMap.Laws.{delete-Distinct, delete_absent}
use goredis_main.Store.{
  Entry, Store, no_such_key, ok, err, expired, put, drop_key, get_locked, alive,
}
use goredis_main.Store.Live.{visible, get_locked-put, get_locked-drop_key, expired_mono}
use goredis_main.Store.Keyspace.{
  del, del_loop, del_one, live_count, db_size, sweep, sweep_entries, rename, move_entry, expire,
  set_expiry,
}

-- Is the key among those listed?
abbrev pub listed : Bytes → List Bytes → Bool
listed j [] = false
listed j (k ∷ ks) = bytes_eq k j || listed j ks

live_count-delete :
    (now : ℤ) (k : Bytes) (m : Map Entry)
    → Distinct m
    → live_count now m ≡ (
        if is_some (alive now (lookup k m))
        then suc (live_count now (delete k m))
        else live_count now (delete k m))
unfolding live_count lookup delete alive
live_count-delete now k [] d = refl
live_count-delete now k ((j, w) ∷ m) d = elim (Bool-cases (bytes_eq j k)) [
  | inl e ↦
      let absent = delete_absent k m (ground (arith, d.0, bytes_eq_iff j k)) in
      rw (e, absent) (ground arith)
  | inr e ↦ rw e (ground (arith, live_count-delete now k m d.1))
]

db_size-del_one :
    (s : Store) (now : ℤ) (k : Bytes) (n : ℕ) (o : Option Entry)
    → Distinct s.entries
    → get_locked s now k ≡ o
    → let (s', n') = del_one o k s n in
      (Distinct s'.entries)
      × (db_size s' now + n' ≡ db_size s now + n)
      × ((j : Bytes) → get_locked s' now j ≡ (if bytes_eq k j then none else get_locked s now j))
unfolding del_one db_size get_locked
db_size-del_one s now k n none d h = (d, refl, λ j. ground (arith, bytes_eq_iff k j))
db_size-del_one s now k n (some e) d h = (
  delete-Distinct k s.entries d,
  ground (arith, live_count-delete now k s.entries d, h),
  λ j. get_locked-drop_key s now k j,
)

del_loop_lem :
    (now : ℤ) (ks : List Bytes) (s : Store) (n : ℕ)
    → Distinct s.entries
    → (db_size (del_loop now ks s n).0 now + (del_loop now ks s n).1 ≡ db_size s now + n)
      × ((j : Bytes)
          → get_locked (del_loop now ks s n).0 now j
            ≡ (if listed j ks then none else get_locked s now j))
unfolding del_loop
del_loop_lem now [] s n d = (refl, λ j. refl)
del_loop_lem now (k ∷ ks) s n d =
    let (d', sz, look) = db_size-del_one s now k n _ d refl in
    let r = del_one (get_locked s now k) k s n in
    let rest = del_loop_lem now ks r.0 r.1 d' in
    (rest.0 ∙ sz, λ j. ground (arith, rest.1 j, look j))

-- DEL removes exactly the keys that it lists and counts the live ones among them: the number of live
-- keys drops by the count, a listed key shows nothing, and any other key shows what it showed.
pub del_lem :
    (s : Store) (now : ℤ) (keys : List Bytes)
    → Distinct s.entries
    → (db_size (del s now keys).0 now + (del s now keys).1 ≡ db_size s now)
      × ((j : Bytes)
          → get_locked (del s now keys).0 now j
            ≡ (if listed j keys then none else get_locked s now j))
unfolding del
del_lem s now keys d = let (sz, look) = del_loop_lem now keys s 0 d in (omega (arith, sz), look)

-- RENAME fails exactly where the source shows nothing, and then changes nothing. Otherwise, at any
-- later time, the destination shows the entry of the source with its expiry, the source shows nothing
-- unless it is the destination, and every other key shows what it showed.
pub rename_lem :
    (s : Store) (now : ℤ) (src dst : Bytes)
    → ((get_locked s now src ≡ none) × (rename s now src dst ≡ (s, err no_such_key)))
      ⊎ ((e : Entry) × (get_locked s now src ≡ some e)
          × ((rename s now src dst).1 ≡ ok tt)
          × ((t : ℤ) (j : Bytes)
              → get_locked (rename s now src dst).0 t j ≡ (
                  if bytes_eq dst j
                  then visible t e
                  else if bytes_eq src j
                  then none
                  else get_locked s t j)))
unfolding rename move_entry
rename_lem s now src dst = elim (Option-cases (get_locked s now src)) [
  | inl h ↦ inl (h, rw h)
  | inr (e, h) ↦ inr (
    e,
    h,
    rw h,
    λ t j. rw (h, get_locked-put (drop_key src s) t dst j e, get_locked-drop_key s t src j),
  )
]

sweep-lookup :
    (now : ℤ) (k : Bytes) (m : Map Entry)
    → Distinct m
    → lookup k (sweep_entries now m) ≡ alive now (lookup k m)
unfolding sweep_entries lookup alive
sweep-lookup now k [] d = refl
sweep-lookup now k ((j, w) ∷ m) d = ground (arith, sweep-lookup now k m d.1, bytes_eq_iff j k)

alive-alive : (now t : ℤ) (o : Option Entry) → now ≤ℤ t → alive t (alive now o) ≡ alive t o
unfolding alive
alive-alive now t none h = refl
alive-alive now t (some e) h = ground (arith, expired_mono e now t h)

-- A tick of the sweeper cannot be observed: every lookup, at its time or later, gives what it gives
-- without the tick.
pub sweep_lem :
    (s : Store) (now t : ℤ) (k : Bytes)
    → Distinct s.entries
    → now ≤ℤ t
    → get_locked (sweep s now) t k ≡ get_locked s t k
unfolding sweep get_locked
sweep_lem s now t k d h =
    rw (sweep-lookup now k s.entries d) (alive-alive now t (lookup k s.entries) h)

sweep-all_live :
    (now : ℤ) (m : Map Entry) → live_count now (sweep_entries now m) ≡ length (sweep_entries now m)
unfolding live_count sweep_entries
sweep-all_live now [] = refl
sweep-all_live now ((j, w) ∷ m) = ground (arith, sweep-all_live now m)

sweep-live_count :
    (now : ℤ) (m : Map Entry) → live_count now (sweep_entries now m) ≡ live_count now m
unfolding live_count sweep_entries
sweep-live_count now [] = refl
sweep-live_count now ((j, w) ∷ m) = ground (arith, sweep-live_count now m)

-- After a tick of the sweeper the keyspace holds exactly as many entries as DBSIZE reported before.
pub sweep-size : (s : Store) (now : ℤ) → size (sweep s now).entries ≡ db_size s now
unfolding sweep db_size
sweep-size s now = sym (sweep-all_live now s.entries) ∙ sweep-live_count now s.entries

-- An entry that is to expire at `end`, as a lookup at t returns it.
abbrev pub expiring : ℤ → ℤ → Option Entry → Option Entry
expiring t end none = none
expiring t end (some e) = if ltb_ℤ t end then some (record e { expire_at = some end }) else none

-- EXPIRE reports whether the key shows an entry. The key then shows that entry, with its value and the
-- new expiry, until the clock reaches the second reading plus the time to live, and nothing from there
-- on; every other key shows what it showed, and so does the key where it showed nothing.
pub expire_lem :
    (s : Store) (now later : ℤ) (key : Bytes) (ttl : ℤ) (t : ℤ) (j : Bytes)
    → ((expire s now later key ttl).1 ≡ is_some (get_locked s now key))
      × (get_locked (expire s now later key ttl).0 t j ≡ (
          if bytes_eq key j && is_some (get_locked s now key)
          then expiring t (later +ℤ ttl) (get_locked s now key)
          else get_locked s t j))
unfolding expire set_expiry
expire_lem s now later key ttl t j = elim (Option-cases (get_locked s now key)) [
  | inl h ↦ rw h (refl, ground arith)
  | inr (e, h) ↦ rw h (refl, timed e)
]
  where
    timed :
        (e : Entry)
        → get_locked (put key (record e { expire_at = some (later +ℤ ttl) }) s) t j ≡ (
            if bytes_eq key j && true then expiring t (later +ℤ ttl) (some e) else get_locked s t j)
    timed e =
        rw (get_locked-put s t key j (record e { expire_at = some (later +ℤ ttl) }))
          (unfold expired in ground arith)
