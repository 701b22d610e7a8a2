-- ===== src/Store/Hashes.antt =====
-- internal/store/hash.go.
pub mod Invariant
pub mod Atomic
pub mod Laws
use goredis_main.Prelude.{
  ℕ, suc, Bool, true, false, List, [], ◌∷◌, Option, none, some, Bytes, map, is_some, ◌==◌,
  if◌then◌else◌,
}
use goredis_main.Prelude.Int.{ℤ, pos}
use goredis_main.Machine.{add64}
use goredis_main.Strconv.{parse_int, format_int}
use goredis_main.GoMap.{Map, lookup, insert, delete, has, size, keys_of, values_of}
use goredis_main.Store.{
  kind_hash, Payload, hash, hash_of, Entry, Store, StoreError, not_an_integer, Result, ok, err, put,
  drop_key, find_kind, make_kind,
}
use goredis_main.Store.Lists.{map_ok}

-- HSet's loop, with the number of fields created so far.
unfoldable pub set_fields : Map Bytes → Map Bytes → ℕ → Map Bytes × ℕ
set_fields [] h created = (h, created)
set_fields ((f, v) ∷ fields) h created =
    set_fields fields (insert f v h) (if has f h then created else suc created)

hset_into : Bytes → Map Bytes → Store × Result Entry → Store × Result ℕ
hset_into key fields (s, err c) = (s, err c)
hset_into key fields (s, ok e) =
    let (h, created) = set_fields fields (hash_of e.payload) 0 in
    (put key (record e { payload = hash h }) s, ok created)

unfoldable pub hset : Store → ℤ → Bytes → Map Bytes → Store × Result ℕ
unfolding hset_into
hset s now key fields = hset_into key fields (make_kind (hash []) s now key)

-- What the read-only operations see: the empty hash where there is no key.
abbrev pub fields_of : Result (Option Entry) → Result (Map Bytes)
fields_of (err c) = err c
fields_of (ok none) = ok []
fields_of (ok (some e)) = ok (hash_of e.payload)

unfoldable pub hget : Store → ℤ → Bytes → Bytes → Result (Option Bytes)
hget s now key field = map_ok (lookup field) (fields_of (find_kind kind_hash s now key))

unfoldable pub hmget : Store → ℤ → Bytes → List Bytes → Result (List (Option Bytes))
hmget s now key fields =
    map_ok (λ h. map (λ f. lookup f h) fields) (fields_of (find_kind kind_hash s now key))

unfoldable pub hget_all : Store → ℤ → Bytes → Result (Map Bytes)
hget_all s now key = fields_of (find_kind kind_hash s now key)

-- The loop of HDel, SRem and ZRem over a Go map, with the number of keys removed so far.
unfoldable pub remove_all {ℓ} : {V : Type ℓ} → List Bytes → Map V → ℕ → Map V × ℕ
remove_all [] h n = (h, n)
remove_all (f ∷ fields) h n =
    remove_all fields (if has f h then delete f h else h) (if has f h then suc n else n)

-- The write after the loop: an emptied container leaves the keyspace.
abbrev pub keep_or_drop {ℓ} :
    {V : Type ℓ} → (Map V → Payload) → Bytes → Entry → Store → Map V × ℕ → Store × Result ℕ
keep_or_drop wrap key e s ([], n) = (drop_key key s, ok n)
keep_or_drop wrap key e s ((kv ∷ h), n) = (put key (record e { payload = wrap (kv ∷ h) }) s, ok n)

hdel_entry : Bytes → List Bytes → Store → Result (Option Entry) → Store × Result ℕ
hdel_entry key fields s (err c) = (s, err c)
hdel_entry key fields s (ok none) = (s, ok 0)
hdel_entry key fields s (ok (some e)) =
    keep_or_drop hash key e s (remove_all fields (hash_of e.payload) 0)

unfoldable pub hdel : Store → ℤ → Bytes → List Bytes → Store × Result ℕ
unfolding hdel_entry
hdel s now key fields = hdel_entry key fields s (find_kind kind_hash s now key)

unfoldable pub hexists : Store → ℤ → Bytes → Bytes → Result Bool
hexists s now key field = map_ok (has field) (fields_of (find_kind kind_hash s now key))

unfoldable pub hlen : Store → ℤ → Bytes → Result ℕ
hlen s now key = map_ok size (fields_of (find_kind kind_hash s now key))

unfoldable pub hkeys : Store → ℤ → Bytes → Result (List Bytes)
hkeys s now key = map_ok keys_of (fields_of (find_kind kind_hash s now key))

unfoldable pub hvals : Store → ℤ → Bytes → Result (List Bytes)
hvals s now key = map_ok values_of (fields_of (find_kind kind_hash s now key))

-- The tail of HIncrBy, which has no test for overflow.
hincr_from : Bytes → Bytes → ℤ → Entry → Store → Option ℤ → Store × Result ℤ
hincr_from key field delta e s none = (s, err not_an_integer)
hincr_from key field delta e s (some cur) =
    let next = add64 cur delta in
    (
      put key (record e { payload = hash (insert field (format_int next) (hash_of e.payload)) }) s,
      ok next,
    )

-- The integer in a field, 0 where there is none.
abbrev pub field_value : Option Bytes → Option ℤ
field_value none = some (pos 0)
field_value (some v) = parse_int v

hincr_into : Bytes → Bytes → ℤ → Store × Result Entry → Store × Result ℤ
hincr_into key field delta (s, err c) = (s, err c)
hincr_into key field delta (s, ok e) =
    hincr_from key field delta e s (field_value (lookup field (hash_of e.payload)))

unfoldable pub hincr_by : Store → ℤ → Bytes → Bytes → ℤ → Store × Result ℤ
unfolding hincr_into hincr_from
hincr_by s now key field delta = hincr_into key field delta (make_kind (hash []) s now key)
