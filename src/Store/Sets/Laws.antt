-- ===== src/Store/Sets/Laws.antt =====
-- internal/store/set.go: SAdd as the union with the set at a key.
use goredis_main.Prelude.{
  ℕ, suc, ◌+◌, ◌≡◌, refl, false, ◌||◌, List, [], ◌∷◌, Option, Bytes, bytes_eq, bytes_eq_refl,
  bytes_eq_iff, arith, if◌then◌else◌, Bool-cases, inl, inr,
}
use goredis_main.Prelude.Int.{ℤ}
use goredis_main.GoMap.{Map, insert, has, size}
use goredis_main.GoMap.Laws.{lookup-insert, size-insert}
use goredis_main.Store.{
  kind_set, kind_of, same_kind, set, set_of, Entry, Store, StoreError, Result, ok, err, fresh,
  expired, put, get_locked, find_kind, create_missing, make_kind,
}
use goredis_main.Store.Live.{get_locked-put, get_locked_live, expired-payload, expired-fresh}
use goredis_main.Store.Cases.{FindCases, refused, missing, found, find_kind-cases}
use goredis_main.Store.Invariant.{put-put}
use goredis_main.Store.Keyspace.Laws.{listed}
use goredis_main.Store.Sets.{add_members, sadd_into, sadd, members_of}

-- The set at a key: empty where there is none, an error where there is another kind.
abbrev pub members_at : Store → ℤ → Bytes → Result (Map (Unit {0}))
members_at s now key = members_of (find_kind kind_set s now key)

add_one :
    (y : Bytes) (m : Map (Unit {0})) (n : ℕ)
    → (size (if has y m then m else insert y tt m) + n ≡ size m + (if has y m then n else suc n))
      × ((x : Bytes) → has x (if has y m then m else insert y tt m) ≡ (bytes_eq y x || has x m))
add_one y m n = elim (Bool-cases (has y m)) [
  | inl e ↦ rw e (refl, λ x. ground (arith, e, bytes_eq_iff y x))
  | inr e ↦
      rw e (ground (arith, e, size-insert y tt m), λ x. ground (arith, lookup-insert y x tt m))
]

-- The loop keeps count, and adds what is listed.
add_members_lem :
    (xs : List Bytes) (m : Map (Unit {0})) (n : ℕ)
    → (size (add_members xs m n).0 + n ≡ size m + (add_members xs m n).1)
      × ((x : Bytes) → has x (add_members xs m n).0 ≡ (listed x xs || has x m))
unfolding add_members
add_members_lem [] m n = (refl, λ x. refl)
add_members_lem (y ∷ xs) m n =
    let (sz, here) = add_one y m n in
    let (szs, there) =
      add_members_lem xs (if has y m then m else insert y tt m) (if has y m then n else suc n) in
    (omega (arith, sz, szs), λ x. ground (arith, there x, here x))

put-members_at :
    (s : Store) (now : ℤ) (key : Bytes) (e : Entry) (m : Map (Unit {0}))
    → expired e now ≡ false
    → members_at (put key (record e { payload = set m }) s) now key ≡ ok m
unfolding find_kind kind_of same_kind
put-members_at s now key e m live = rw (
  get_locked-put s now key key (record e { payload = set m }),
  bytes_eq_refl key,
  expired-payload e (set m) now,
  live,
)

-- The union: the set holds what it held and what is listed, the reply is by how much it grew, and no
-- other key changes; an error changes nothing.
pub data Added (s : Store) (now : ℤ) (key : Bytes) (xs : List Bytes)
    : Result (Map (Unit {0})) → Store × Result ℕ → Type 0 where
  refuses : (c : StoreError) → Added s now key xs (err c) (s, err c)
  adds :
      (m m' : Map (Unit {0})) (n : ℕ) (s' : Store)
      → members_at s' now key ≡ ok m'
      → size m' ≡ size m + n
      → ((x : Bytes) → has x m' ≡ (listed x xs || has x m))
      → ((t : ℤ) (j : Bytes) → bytes_eq key j ≡ false → get_locked s' t j ≡ get_locked s t j)
      → Added s now key xs (ok m) (s', ok n)

module _ (s : Store) (now : ℤ) (key : Bytes) (xs : List Bytes) where
  -- The write of the loop's result into a live entry.
  stored-Added :
      (e : Entry) (m : Map (Unit {0}))
      → expired e now ≡ false
      → Added s now key xs
          (ok m)
          (put key (record e { payload = set (add_members xs m 0).0 }) s, ok (add_members xs m 0).1)
  stored-Added e m live =
      let (count, union) = add_members_lem xs m 0 in
      adds m (add_members xs m 0).0 _ _ (put-members_at s now key e (add_members xs m 0).0 live)
        (ground (arith, count)) union
        (λ t j other.
          rw (get_locked-put s t key j (record e { payload = set (add_members xs m 0).0 }), other))

  sadd_into-Added :
      {r : Result (Option Entry)}
      → FindCases kind_set s now key r
      → Added s now key xs (members_of r) (sadd_into key xs (create_missing (set []) key s r))
  unfolding sadd_into create_missing
  sadd_into-Added (refused e live k) = refuses _
  sadd_into-Added (missing gone) =
      rw (put-put key (fresh (set (add_members xs [] 0).0)) (fresh (set [])) s)
        (stored-Added (fresh (set [])) [] (expired-fresh (set []) now))
  sadd_into-Added (found e live k) =
      stored-Added e (set_of e.payload) (get_locked_live s now key live)

  -- SADD makes the set at the key its union with the members that are listed; the reply is by how
  -- much it grew, and no other key changes. Where the key holds another kind it refuses, and nothing
  -- changes.
  pub sadd_lem : Added s now key xs (members_at s now key) (sadd s now key xs)
  unfolding sadd make_kind kind_of
  sadd_lem = sadd_into-Added (find_kind-cases kind_set s now key)
