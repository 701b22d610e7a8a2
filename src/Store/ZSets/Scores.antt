-- ===== src/Store/ZSets/Scores.antt =====
-- internal/store/zset.go: ZAdd as a write of scores into the set at a key.
use goredis_main.Prelude.{
  ℕ, suc, ◌+◌, ◌≡◌, refl, ap, ◌∙◌, false, [], ◌∷◌, Option, some, Bytes, bytes_eq, bytes_eq_refl,
  arith, if◌then◌else◌,
}
use goredis_main.Prelude.Int.{ℤ}
use goredis_main.GoMap.{Map, lookup, insert, has, size}
use goredis_main.GoMap.Laws.{lookup-insert, size-insert}
use goredis_main.Store.{
  kind_zset, kind_of, same_kind, zset, scores_of, Entry, Store, StoreError, Result, ok, err, fresh,
  expired, put, get_locked, find_kind, create_missing, make_kind,
}
use goredis_main.Store.Live.{get_locked-put, get_locked_live, expired-payload, expired-fresh}
use goredis_main.Store.Cases.{FindCases, refused, missing, found, find_kind-cases}
use goredis_main.Store.Invariant.{put-put}
use goredis_main.Store.ZSets.{set_scores, zadd_into, zadd, scores_in}

-- The scores at a key: none where there is no entry, an error where there is another kind.
abbrev pub scores_at : Store → ℤ → Bytes → Result (Map ℕ)
scores_at s now key = scores_in (find_kind kind_zset s now key)

-- The score of a member after a write of all `members`: the last one given.
abbrev pub scored : Bytes → Map ℕ → Option ℕ → Option ℕ
scored x [] o = o
scored x ((y, sc) ∷ members) o = scored x members (if bytes_eq y x then some sc else o)

-- The loop keeps count, and writes what is given.
set_scores_lem :
    (members z : Map ℕ) (n : ℕ)
    → (size (set_scores members z n).0 + n ≡ size z + (set_scores members z n).1)
      × ((x : Bytes) → lookup x (set_scores members z n).0 ≡ scored x members (lookup x z))
unfolding set_scores
set_scores_lem [] z n = (refl, λ x. refl)
set_scores_lem ((y, sc) ∷ members) z n =
    let (sz, look) = set_scores_lem members (insert y sc z) (if has y z then n else suc n) in
    (
      ground (arith, sz, size-insert y sc z),
      λ x. look x ∙ ap (scored x members) (lookup-insert y x sc z),
    )

put-scores_at :
    (s : Store) (now : ℤ) (key : Bytes) (e : Entry) (z : Map ℕ)
    → expired e now ≡ false
    → scores_at (put key (record e { payload = zset z }) s) now key ≡ ok z
unfolding find_kind kind_of same_kind
put-scores_at s now key e z live = rw (
  get_locked-put s now key key (record e { payload = zset z }),
  bytes_eq_refl key,
  expired-payload e (zset z) now,
  live,
)

-- The write: each member has the score given last, or else the one it had, the reply is by how many
-- members the set grew, and no other key changes; an error changes nothing.
pub data Scored (s : Store) (now : ℤ) (key : Bytes) (members : Map ℕ)
    : Result (Map ℕ) → Store × Result ℕ → Type 0 where
  refuses : (c : StoreError) → Scored s now key members (err c) (s, err c)
  scores :
      (z z' : Map ℕ) (n : ℕ) (s' : Store)
      → scores_at s' now key ≡ ok z'
      → size z' ≡ size z + n
      → ((x : Bytes) → lookup x z' ≡ scored x members (lookup x z))
      → ((t : ℤ) (j : Bytes) → bytes_eq key j ≡ false → get_locked s' t j ≡ get_locked s t j)
      → Scored s now key members (ok z) (s', ok n)

module _ (s : Store) (now : ℤ) (key : Bytes) (members : Map ℕ) where
  -- The write of the loop's result into a live entry.
  stored-Scored :
      (e : Entry) (z : Map ℕ)
      → expired e now ≡ false
      → Scored s now key members (ok z) (
        put key (record e { payload = zset (set_scores members z 0).0 }) s,
        ok (set_scores members z 0).1,
      )
  stored-Scored e z live =
      let (count, look) = set_scores_lem members z 0 in
      scores z (set_scores members z 0).0 _ _
        (put-scores_at s now key e (set_scores members z 0).0 live) (ground (arith, count)) look
        (λ t j other. rw (
          get_locked-put s t key j (record e { payload = zset (set_scores members z 0).0 }),
          other,
        ))

  zadd_into-Scored :
      {r : Result (Option Entry)}
      → FindCases kind_zset s now key r
      → Scored s now key members
          (scores_in r)
          (zadd_into key members (create_missing (zset []) key s r))
  unfolding zadd_into create_missing
  zadd_into-Scored (refused e live k) = refuses _
  zadd_into-Scored (missing gone) =
      rw (put-put key (fresh (zset (set_scores members [] 0).0)) (fresh (zset [])) s)
        (stored-Scored (fresh (zset [])) [] (expired-fresh (zset []) now))
  zadd_into-Scored (found e live k) =
      stored-Scored e (scores_of e.payload) (get_locked_live s now key live)

  -- ZADD gives each listed member the score that is given last for it, and leaves the others theirs;
  -- the reply is by how many members the set grew, and no other key changes. Where the key holds
  -- another kind it refuses, and nothing changes.
  pub zadd_lem : Scored s now key members (scores_at s now key) (zadd s now key members)
  unfolding zadd make_kind kind_of
  zadd_lem = zadd_into-Scored (find_kind-cases kind_zset s now key)
