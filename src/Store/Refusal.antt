-- ===== src/Store/Refusal.antt =====
-- ErrWrongType: an operation of one kind at a key that shows an entry of another.
use goredis_main.Prelude.{◌≡◌, refl, false, ℕ, List, [], some, Bytes}
use goredis_main.Prelude.Int.{ℤ}
use goredis_main.GoMap.{Map}
use goredis_main.Store.{
  Kind, kind_string, kind_hash, kind_list, kind_set, kind_zset, Payload, hash, list, set, zset,
  kind_of, same_kind, Entry, Store, wrong_type, Result, err, get_locked, check_kind, find_kind,
  create_missing, make_kind,
}
use goredis_main.Store.Strings
use goredis_main.Store.Lists
use goredis_main.Store.Hashes
use goredis_main.Store.Sets
use goredis_main.Store.ZSets

-- A call that reads is refused; a call that may write is refused, with the store as it was.
abbrev pub Refused {ℓ} : {A : Type ℓ} → Result A → Type ℓ
Refused r = r ≡ err wrong_type

abbrev pub LeftAlone {ℓ} : {A : Type ℓ} → Store → Store × Result A → Type ℓ
LeftAlone s r = r ≡ (s, err wrong_type)

-- Every operation of a kind is refused at the key.
abbrev pub Refuses : Kind → Store → ℤ → Bytes → Type 0
Refuses kind_string s now key =
    Refused (Strings.get s now key)
    × ((v : Bytes) → LeftAlone s (Strings.get_set s now key v))
    × ((n : ℤ) → LeftAlone s (Strings.incr_by s now key n))
    × ((v : Bytes) → LeftAlone s (Strings.append s now key v))
    × Refused (Strings.strlen s now key)
Refuses kind_list s now key =
    ((vs : List Bytes)
      → LeftAlone s (Lists.lpush s now key vs) × LeftAlone s (Lists.rpush s now key vs))
    × LeftAlone s (Lists.lpop s now key)
    × LeftAlone s (Lists.rpop s now key)
    × Refused (Lists.llen s now key)
    × ((i j : ℤ) → Refused (Lists.lrange s now key i j))
    × ((i : ℤ) → Refused (Lists.lindex s now key i))
Refuses kind_hash s now key =
    ((m : Map Bytes) → LeftAlone s (Hashes.hset s now key m))
    × ((f : Bytes) → Refused (Hashes.hget s now key f) × Refused (Hashes.hexists s now key f))
    × ((fs : List Bytes)
        → Refused (Hashes.hmget s now key fs) × LeftAlone s (Hashes.hdel s now key fs))
    × Refused (Hashes.hget_all s now key)
    × Refused (Hashes.hlen s now key)
    × Refused (Hashes.hkeys s now key)
    × Refused (Hashes.hvals s now key)
    × ((f : Bytes) (n : ℤ) → LeftAlone s (Hashes.hincr_by s now key f n))
Refuses kind_set s now key =
    ((ms : List Bytes)
      → LeftAlone s (Sets.sadd s now key ms) × LeftAlone s (Sets.srem s now key ms))
    × Refused (Sets.smembers s now key)
    × ((m : Bytes) → Refused (Sets.sismember s now key m))
    × Refused (Sets.scard s now key)
Refuses kind_zset s now key =
    ((m : Map ℕ) → LeftAlone s (ZSets.zadd s now key m))
    × ((m : Bytes) → Refused (ZSets.zscore s now key m) × Refused (ZSets.zrank s now key m))
    × ((ms : List Bytes) → LeftAlone s (ZSets.zrem s now key ms))
    × Refused (ZSets.zcard s now key)
    × ((i j : ℤ) → Refused (ZSets.zrange s now key i j))

module _ (s : Store) (now : ℤ) (key : Bytes) (e : Entry) where
  find_refused :
      (k : Kind)
      → get_locked s now key ≡ some e
      → same_kind (kind_of e.payload) k ≡ false
      → find_kind k s now key ≡ err wrong_type
  unfolding find_kind check_kind
  find_refused k live other = rw (live, other) refl

  make_refused :
      (p : Payload)
      → get_locked s now key ≡ some e
      → same_kind (kind_of e.payload) (kind_of p) ≡ false
      → make_kind p s now key ≡ (s, err wrong_type)
  unfolding make_kind create_missing
  make_refused p live other = rw (find_refused (kind_of p) live other) refl

-- Where a key shows an entry, every operation of another kind but SET, MSET and MGET fails with WRONGTYPE: GET,
-- GETSET, INCRBY, APPEND and STRLEN of strings and all operations of lists, hashes, sets and sorted sets.
-- Those that could write leave the store as it was.
pub refuses_lem :
    (k : Kind) (s : Store) (now : ℤ) (key : Bytes) (e : Entry)
    → get_locked s now key ≡ some e
    → same_kind (kind_of e.payload) k ≡ false
    → Refuses k s now key
unfolding kind_of Strings.get Strings.get_set Strings.incr_by Strings.append Strings.strlen
    Lists.lpush Lists.rpush Lists.lpop Lists.rpop Lists.llen Lists.lrange Lists.lindex Hashes.hset
    Hashes.hget Hashes.hexists Hashes.hmget Hashes.hdel Hashes.hget_all Hashes.hlen Hashes.hkeys
    Hashes.hvals Hashes.hincr_by Sets.sadd Sets.srem Sets.smembers Sets.sismember Sets.scard
    ZSets.zadd ZSets.zscore ZSets.zrank ZSets.zrem ZSets.zcard ZSets.zrange
refuses_lem kind_string s now key e live other =
    let r = find_refused s now key e kind_string live other in
    (rw r refl, λ v. rw r refl, λ n. rw r refl, λ v. rw r refl, rw r refl)
refuses_lem kind_list s now key e live other =
    let r = find_refused s now key e kind_list live other in
    let c = make_refused s now key e (list []) live other in
    (
      λ vs. (rw c refl, rw c refl),
      rw r refl,
      rw r refl,
      rw r refl,
      λ i j. rw r refl,
      λ i. rw r refl,
    )
refuses_lem kind_hash s now key e live other =
    let r = find_refused s now key e kind_hash live other in
    let c = make_refused s now key e (hash []) live other in
    (
      λ m. rw c refl,
      λ f. (rw r refl, rw r refl),
      λ fs. (rw r refl, rw r refl),
      rw r refl,
      rw r refl,
      rw r refl,
      rw r refl,
      λ f n. rw c refl,
    )
refuses_lem kind_set s now key e live other =
    let r = find_refused s now key e kind_set live other in
    let c = make_refused s now key e (set []) live other in
    (λ ms. (rw c refl, rw r refl), rw r refl, λ m. rw r refl, rw r refl)
refuses_lem kind_zset s now key e live other =
    let r = find_refused s now key e kind_zset live other in
    let c = make_refused s now key e (zset []) live other in
    (λ m. rw c refl, λ m. (rw r refl, rw r refl), λ ms. rw r refl, rw r refl, λ i j. rw r refl)
