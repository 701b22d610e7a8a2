-- ===== src/Tests/Values.antt =====
-- Operations on keys, at a store with one value of each of four kinds.
use goredis_main.Prelude.{
  ℕ, ◌+◌, ◌≡◌, ◌⊎◌, refl, true, false, ◌&&◌, [], ◌∷◌, ◌++◌, none, some, Bytes, bytes_eq, codes,
  arith, is_some, length, get_elem?, if◌then◌else◌,
}
use goredis_main.Prelude.Int.{◌-ℤ◌, ℤ, pos, negsuc, ◌+ℤ◌}
use goredis_main.GoMap.{Map, lookup, size, Distinct}
use goredis_main.Store.{
  Entry, Store, ok, err, no_such_key, string, hash, list, zset, fresh, get_locked, find_kind,
  expired, same_kind, kind_of,
}
use goredis_main.Store.Refusal.{Refuses, refuses_lem}
use goredis_main.Store.{kind_zset, kind_list}
use goredis_main.Store.Live.{visible}
use goredis_main.Store.Invariant.{IsValid}
use goredis_main.Store.Keyspace.Ttl.{Near, Reports, ttl_seconds_lem}
use goredis_main.Store.Keyspace.{ttl_seconds, del, db_size, rename, expire, sweep}
use goredis_main.Store.Keyspace.Laws.{
  listed, del_lem, rename_lem, sweep_lem, sweep-size, expiring, expire_lem,
}
use goredis_main.Store.Strings.{SetOptions, set, incr_by}
use goredis_main.Store.Strings.Laws.{set_entry, writes, set_lem, counter, Incremented, incr_by_lem}
use goredis_main.Store.Lists.{slice, lpush, rpush, lpop, rpop}
use goredis_main.Store.Lists.Laws.{slice-get_elem?}
use goredis_main.Store.Lists.Deque.{items, reversed, Pushed, push_lem, Popped, pop_lem}
use goredis_main.Store.Hashes.{set_fields, remove_all}
use goredis_main.Store.Hashes.Laws.{written, set_fields_lem, remove_all_lem}
use goredis_main.Store.ZSets.{scores_in, sorted, zrank, zrange}
use goredis_main.Store.ZSets.Laws.{Ascending, count_below, sorted_lem, zrank-zrange}

abbrev fields : Map Bytes
fields = (codes "f", codes "1") ∷ (codes "g", codes "2") ∷ []

-- The scores 1.0 and -2.0.
abbrev scores : Map ℕ
scores = (codes "b", 0x3FF0000000000000) ∷ (codes "a", 0xC000000000000000) ∷ []

-- The entry under n expires at 50.
abbrev store : Store
store = record {
  entries =
      (codes "n", record { payload = string (codes "41"); expire_at = some (pos 50) })
      ∷ (codes "l", fresh (list (codes "x" ∷ codes "y" ∷ codes "z" ∷ [])))
      ∷ (codes "h", fresh (hash fields))
      ∷ (codes "z", fresh (zset scores))
      ∷ [];
}

store-IsValid : IsValid store
unfolding lookup bytes_eq
store-IsValid = record {
  distinct = (refl, (refl, (refl, (refl, tt))));
  sound = (
    tt,
    (omega arith, (((refl, (refl, tt)), omega arith), (((refl, (refl, tt)), omega arith), tt))),
  );
}

abbrev only_if_old : SetOptions
only_if_old = record { ttl = pos 30; has_ttl = true; only_if_new = false; only_if_old = true }

set_lem_example :
    ((set store (pos 7) (pos 8) (codes "n") (codes "v") only_if_old).1
      ≡ writes store (pos 7) (codes "n") only_if_old)
    × ((t : ℤ) (j : Bytes)
        → get_locked (set store (pos 7) (pos 8) (codes "n") (codes "v") only_if_old).0 t j ≡ (
            if writes store (pos 7) (codes "n") only_if_old && bytes_eq (codes "n") j
            then visible t (set_entry (pos 8) (codes "v") only_if_old)
            else get_locked store t j))
set_lem_example = set_lem store (pos 7) (pos 8) (codes "n") (codes "v") only_if_old

incr_by_lem_example :
    Incremented store
      (pos 7)
      (codes "n")
      (negsuc 9)
      (counter store (pos 7) (codes "n"))
      (incr_by store (pos 7) (codes "n") (negsuc 9))
incr_by_lem_example = incr_by_lem store (pos 7) (codes "n") (negsuc 9) (omega arith, omega arith)

push_lem_example :
    Pushed store
      (pos 7)
      (codes "l")
      (λ l. reversed (codes "p" ∷ codes "q" ∷ []) ++ l)
      (items store (pos 7) (codes "l"))
      (lpush store (pos 7) (codes "l") (codes "p" ∷ codes "q" ∷ []))
    × Pushed store
        (pos 7)
        (codes "l")
        (λ l. l ++ (codes "p" ∷ codes "q" ∷ []))
        (items store (pos 7) (codes "l"))
        (rpush store (pos 7) (codes "l") (codes "p" ∷ codes "q" ∷ []))
push_lem_example = push_lem store (pos 7) (codes "l") (codes "p" ∷ codes "q" ∷ [])

pop_lem_example :
    Popped store
      (pos 7)
      (codes "l")
      (λ x l. x ∷ l)
      (items store (pos 7) (codes "l"))
      (lpop store (pos 7) (codes "l"))
    × Popped store
        (pos 7)
        (codes "l")
        (λ x l. l ++ x ∷ [])
        (items store (pos 7) (codes "l"))
        (rpop store (pos 7) (codes "l"))
pop_lem_example = pop_lem store (pos 7) (codes "l")

slice-get_elem?_example :
    get_elem? (slice (codes "a" ∷ codes "b" ∷ codes "c" ∷ []) (negsuc 1) (negsuc 0)) 1
    ≡ some (codes "c")
slice-get_elem?_example =
    slice-get_elem? (codes "a" ∷ codes "b" ∷ codes "c" ∷ []) (negsuc 1) (negsuc 0) 1

set_fields_lem_example :
    (size (set_fields ((codes "g", codes "3") ∷ []) fields 0).0 + 0
      ≡ size fields + (set_fields ((codes "g", codes "3") ∷ []) fields 0).1)
    × ((f : Bytes)
        → lookup f (set_fields ((codes "g", codes "3") ∷ []) fields 0).0
          ≡ written f ((codes "g", codes "3") ∷ []) (lookup f fields))
set_fields_lem_example = set_fields_lem ((codes "g", codes "3") ∷ []) fields 0

fields-Distinct : Distinct fields
unfolding lookup bytes_eq
fields-Distinct = (refl, (refl, tt))

remove_all_lem_example :
    (size (remove_all (codes "g" ∷ codes "q" ∷ []) fields 0).0
        + (remove_all (codes "g" ∷ codes "q" ∷ []) fields 0).1
      ≡ size fields + 0)
    × ((f : Bytes)
        → lookup f (remove_all (codes "g" ∷ codes "q" ∷ []) fields 0).0
          ≡ (if listed f (codes "g" ∷ codes "q" ∷ []) then none else lookup f fields))
remove_all_lem_example = remove_all_lem (codes "g" ∷ codes "q" ∷ []) fields 0 fields-Distinct

del_lem_example :
    (db_size (del store (pos 7) (codes "l" ∷ codes "q" ∷ [])).0 (pos 7)
        + (del store (pos 7) (codes "l" ∷ codes "q" ∷ [])).1
      ≡ db_size store (pos 7))
    × ((j : Bytes)
        → get_locked (del store (pos 7) (codes "l" ∷ codes "q" ∷ [])).0 (pos 7) j
          ≡ (if listed j (codes "l" ∷ codes "q" ∷ []) then none else get_locked store (pos 7) j))
del_lem_example = del_lem store (pos 7) (codes "l" ∷ codes "q" ∷ []) store-IsValid.distinct

sweep_lem_example :
    get_locked (sweep store (pos 60)) (pos 70) (codes "l") ≡ get_locked store (pos 70) (codes "l")
sweep_lem_example =
    sweep_lem store (pos 60) (pos 70) (codes "l") store-IsValid.distinct (omega arith)

sweep-size_example : size (sweep store (pos 60)).entries ≡ db_size store (pos 60)
sweep-size_example = sweep-size store (pos 60)

expire_lem_example :
    ((expire store (pos 7) (pos 8) (codes "l") (pos 5)).1
      ≡ is_some (get_locked store (pos 7) (codes "l")))
    × (get_locked (expire store (pos 7) (pos 8) (codes "l") (pos 5)).0 (pos 12) (codes "l") ≡ (
        if bytes_eq (codes "l") (codes "l") && is_some (get_locked store (pos 7) (codes "l"))
        then expiring (pos 12) (pos 8 +ℤ pos 5) (get_locked store (pos 7) (codes "l"))
        else get_locked store (pos 12) (codes "l")))
expire_lem_example = expire_lem store (pos 7) (pos 8) (codes "l") (pos 5) (pos 12) (codes "l")

rename_lem_example :
    ((get_locked store (pos 7) (codes "n") ≡ none)
      × (rename store (pos 7) (codes "n") (codes "l") ≡ (store, err no_such_key)))
    ⊎ ((e : Entry) × (get_locked store (pos 7) (codes "n") ≡ some e)
        × ((rename store (pos 7) (codes "n") (codes "l")).1 ≡ ok tt)
        × ((t : ℤ) (j : Bytes)
            → get_locked (rename store (pos 7) (codes "n") (codes "l")).0 t j ≡ (
                if bytes_eq (codes "l") j
                then visible t e
                else if bytes_eq (codes "n") j
                then none
                else get_locked store t j)))
rename_lem_example = rename_lem store (pos 7) (codes "n") (codes "l")

scores-Distinct : Distinct scores
unfolding lookup bytes_eq
scores-Distinct = (refl, (refl, tt))

sorted_lem_example :
    Ascending (sorted scores)
    × (length (sorted scores) ≡ size scores)
    × ((k : Bytes) → lookup k (sorted scores) ≡ lookup k scores)
sorted_lem_example = sorted_lem scores scores-Distinct (refl, (refl, tt))

z-scores : scores_in (find_kind kind_zset store (pos 7) (codes "z")) ≡ ok scores
unfolding find_kind get_locked lookup bytes_eq expired same_kind kind_of
z-scores = refl

b-score : lookup (codes "b") scores ≡ some 0x3FF0000000000000
unfolding lookup bytes_eq
b-score = refl

zrank-zrange_example :
    (zrank store (pos 7) (codes "z") (codes "b")
      ≡ ok (some (count_below (codes "b", 0x3FF0000000000000) scores)))
    × (zrange store
          (pos 7)
          (codes "z")
          (pos (count_below (codes "b", 0x3FF0000000000000) scores))
          (pos (count_below (codes "b", 0x3FF0000000000000) scores))
        ≡ ok ((codes "b", 0x3FF0000000000000) ∷ []))
zrank-zrange_example =
    zrank-zrange store (pos 7) (codes "z") (codes "b") scores 0x3FF0000000000000 store-IsValid
      z-scores (refl, (refl, tt)) b-score

-- Twenty nanoseconds and three seconds are left.
abbrev timed : Store
timed = record {
  entries =
      (codes "k", record { payload = string (codes "v"); expire_at = some (pos 3_000_000_120) })
      ∷ [];
}

timed-get_locked :
    get_locked timed (pos 100) (codes "k")
    ≡ some (record { payload = string (codes "v"); expire_at = some (pos 3_000_000_120) })
unfolding get_locked expired lookup bytes_eq
timed-get_locked = refl

timed-Near : Near (pos 100) (get_locked timed (pos 100) (codes "k"))
unfolding ◌-ℤ◌
timed-Near = rw timed-get_locked (omega arith)

ttl_seconds_lem_example :
    Reports
      (pos 100)
      (get_locked timed (pos 100) (codes "k"))
      (ttl_seconds timed (pos 100) (pos 100) (codes "k"))
ttl_seconds_lem_example = ttl_seconds_lem timed (pos 100) (pos 100) (codes "k") timed-Near

-- The key of a string, to the operations of lists.
n-get_locked :
    get_locked store (pos 0) (codes "n")
    ≡ some (record { payload = string (codes "41"); expire_at = some (pos 50) })
unfolding get_locked expired lookup bytes_eq
n-get_locked = refl

refuses_lem_example : Refuses kind_list store (pos 0) (codes "n")
refuses_lem_example =
    refuses_lem kind_list store (pos 0) (codes "n")
      (record { payload = string (codes "41"); expire_at = some (pos 50) }) n-get_locked
      (unfold same_kind kind_of in refl)
