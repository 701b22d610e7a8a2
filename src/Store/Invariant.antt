-- ===== src/Store/Invariant.antt =====
-- Well-formed stores: no key twice in the keyspace or in a container, and no empty container.
use goredis_main.Prelude.{
  ◌≡◌, subst, sym, ap, ◌<◌, Bool, true, false, some, Bytes, length, if◌then◌else◌,
}
use goredis_main.Prelude.Int.{ℤ}
use goredis_main.GoMap.{size, Distinct}
use goredis_main.GoMap.Laws.{
  insert-Distinct, delete-Distinct, insert-insert, AllValues, insert-AllValues, delete-AllValues,
  lookup-AllValues,
}
use goredis_main.Store.{
  Payload, string, hash, list, set, zset, hash_of, set_of, scores_of, Entry, Store, put, drop_key,
  get_locked,
}
use goredis_main.Store.Live.{get_locked_stored}

abbrev pub PayloadOk : Payload → Type 0
PayloadOk (string s) = Unit
PayloadOk (hash m) = Distinct m × (0 < size m)
PayloadOk (list l) = 0 < length l
PayloadOk (set m) = Distinct m × (0 < size m)
PayloadOk (zset m) = Distinct m × (0 < size m)

abbrev pub EntryOk : Entry → Type 0
EntryOk e = PayloadOk e.payload

pub record IsValid (s : Store) : Type 0 where
  pub distinct : Distinct s.entries
  pub sound : AllValues EntryOk s.entries

pub put-IsValid : (k : Bytes) (e : Entry) (s : Store) → EntryOk e → IsValid s → IsValid (put k e s)
put-IsValid k e s p v = record {
  distinct = insert-Distinct k e s.entries v.distinct;
  sound = insert-AllValues EntryOk k e s.entries p v.sound;
}

pub drop_key-IsValid : (k : Bytes) (s : Store) → IsValid s → IsValid (drop_key k s)
drop_key-IsValid k s v = record {
  distinct = delete-Distinct k s.entries v.distinct;
  sound = delete-AllValues EntryOk k s.entries v.sound;
}

-- A live entry of a well-formed store is well-formed.
pub get_locked-EntryOk :
    (s : Store) (now : ℤ) (k : Bytes) {e : Entry}
    → IsValid s
    → get_locked s now k ≡ some e
    → EntryOk e
get_locked-EntryOk s now k v h =
    lookup-AllValues EntryOk k s.entries v.sound (get_locked_stored s now k h)

-- Of two writes to one key the second stays: a write right after `make_kind` covers the empty
-- container that it may have put there.
pub put-put : (k : Bytes) (e e' : Entry) (s : Store) → put k e (put k e' s) ≡ put k e s
put-put k e e' s = ap (λ m. record { entries = m }) (insert-insert k e e' s.entries)

pub put-put-IsValid :
    (k : Bytes) (e e' : Entry) (s : Store) → EntryOk e → IsValid s → IsValid (put k e (put k e' s))
put-put-IsValid k e e' s p v = subst IsValid (sym (put-put k e e' s)) (put-IsValid k e s p v)

pub hash_of-Distinct : (p : Payload) → PayloadOk p → Distinct (hash_of p)
hash_of-Distinct (hash m) h = h.0
hash_of-Distinct _ h = tt

pub set_of-Distinct : (p : Payload) → PayloadOk p → Distinct (set_of p)
set_of-Distinct (set m) h = h.0
set_of-Distinct _ h = tt

pub scores_of-Distinct : (p : Payload) → PayloadOk p → Distinct (scores_of p)
scores_of-Distinct (zset m) h = h.0
scores_of-Distinct _ h = tt

pub if-IsValid {ℓ} :
    {A : Type ℓ} (b : Bool) (x y : Store × A)
    → IsValid x.0
    → IsValid y.0
    → IsValid (if b then x else y).0
if-IsValid true x y vx vy = vx
if-IsValid false x y vx vy = vy
