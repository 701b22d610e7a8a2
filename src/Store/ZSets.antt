-- ===== src/Store/ZSets.antt =====
-- internal/store/zset.go.
pub mod Invariant
pub mod Atomic
pub mod Order
pub mod Laws
pub mod Scores
use goredis_main.Prelude.{
  ℕ, zero, suc, Bool, true, false, ◌&&◌, ◌||◌, List, [], ◌∷◌, Option, none, some, Bytes, bytes_eq,
  is_some, ltb, ◌==◌, if◌then◌else◌,
}
use goredis_main.Prelude.Int.{ℤ}
use goredis_main.GoMap.{Map, lookup, insert, has, size}
use goredis_main.Store.{
  kind_zset, Payload, zset, scores_of, Entry, Store, Result, ok, err, put, find_kind, make_kind,
}
use goredis_main.Store.Lists.{map_ok, slice}
use goredis_main.Store.Hashes.{remove_all, keep_or_drop}
use goredis_main.Store.Float.{float_lt, float_ne}

-- `<` on Go strings.
unfoldable pub bytes_lt : Bytes → Bytes → Bool
bytes_lt [] [] = false
bytes_lt [] (d ∷ t) = true
bytes_lt (c ∷ s) [] = false
bytes_lt (c ∷ s) (d ∷ t) = ltb c d || ((c == d) && bytes_lt s t)

-- ZMember: a member and its score.
abbrev pub ZMember : Type 0
ZMember = Bytes × ℕ

-- The comparison that `sorted` hands to sort.Slice.
unfoldable pub before : ZMember → ZMember → Bool
before (m, x) (n, y) = if float_ne x y then float_lt x y else bytes_lt m n

-- sort.Slice is documented to sort when its comparison is a strict weak order, and members are
-- distinct, so that the sorted list is then the only one. Where a score is a NaN the comparison is none,
-- and Go's result is open; the insertion sort is then one of many.
unfoldable pub insert_sorted : ZMember → List ZMember → List ZMember
insert_sorted x [] = x ∷ []
insert_sorted x (y ∷ ys) = if before y x then y ∷ insert_sorted x ys else x ∷ y ∷ ys

unfoldable pub sorted : Map ℕ → List ZMember
unfolding insert_sorted
sorted [] = []
sorted (x ∷ m) = insert_sorted x (sorted m)

-- ZAdd's loop, with the number of members added so far.
unfoldable pub set_scores : Map ℕ → Map ℕ → ℕ → Map ℕ × ℕ
set_scores [] z added = (z, added)
set_scores ((m, sc) ∷ members) z added =
    set_scores members (insert m sc z) (if has m z then added else suc added)

zadd_into : Bytes → Map ℕ → Store × Result Entry → Store × Result ℕ
zadd_into key members (s, err c) = (s, err c)
zadd_into key members (s, ok e) =
    let (z, added) = set_scores members (scores_of e.payload) 0 in
    (put key (record e { payload = zset z }) s, ok added)

unfoldable pub zadd : Store → ℤ → Bytes → Map ℕ → Store × Result ℕ
unfolding zadd_into
zadd s now key members = zadd_into key members (make_kind (zset []) s now key)

-- What the read-only operations see: no scores where there is no key.
abbrev pub scores_in : Result (Option Entry) → Result (Map ℕ)
scores_in (err c) = err c
scores_in (ok none) = ok []
scores_in (ok (some e)) = ok (scores_of e.payload)

unfoldable pub zscore : Store → ℤ → Bytes → Bytes → Result (Option ℕ)
zscore s now key member = map_ok (lookup member) (scores_in (find_kind kind_zset s now key))

zrem_entry : Bytes → List Bytes → Store → Result (Option Entry) → Store × Result ℕ
zrem_entry key members s (err c) = (s, err c)
zrem_entry key members s (ok none) = (s, ok 0)
zrem_entry key members s (ok (some e)) =
    keep_or_drop zset key e s (remove_all members (scores_of e.payload) 0)

unfoldable pub zrem : Store → ℤ → Bytes → List Bytes → Store × Result ℕ
unfolding zrem_entry
zrem s now key members = zrem_entry key members s (find_kind kind_zset s now key)

unfoldable pub zcard : Store → ℤ → Bytes → Result ℕ
zcard s now key = map_ok size (scores_in (find_kind kind_zset s now key))

-- ZRank's loop, at index i.
unfoldable pub find_rank : Bytes → List ZMember → ℕ → Option ℕ
find_rank member [] i = none
find_rank member ((m, sc) ∷ rest) i =
    let later = find_rank member rest (suc i) in if bytes_eq m member then some i else later

abbrev rank_in : Bytes → Map ℕ → Option ℕ
rank_in member z = if has member z then find_rank member (sorted z) 0 else none

unfoldable pub zrank : Store → ℤ → Bytes → Bytes → Result (Option ℕ)
zrank s now key member = map_ok (rank_in member) (scores_in (find_kind kind_zset s now key))

unfoldable pub zrange : Store → ℤ → Bytes → ℤ → ℤ → Result (List ZMember)
zrange s now key start stop =
    map_ok (λ z. slice (sorted z) start stop) (scores_in (find_kind kind_zset s now key))
