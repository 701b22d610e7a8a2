-- ===== src/Store/Hashes/Atomic.antt =====
-- internal/store: failing operations on a hash.
use goredis_main.Prelude.{ℕ, refl, List, [], ◌∷◌, Option, none, some, Bytes}
use goredis_main.Prelude.Int.{ℤ}
use goredis_main.GoMap.{Map, lookup}
use goredis_main.Store.{kind_hash, hash, hash_of, Payload, Entry, Store, Result}
use goredis_main.Store.Atomic.{Atomic}
use goredis_main.Store.Cases.{
  FindCases, MakeCases, refused, missing, created, found, find_kind-cases, make_kind-cases,
}
use goredis_main.Store.Hashes.{
  hset_into, hset, remove_all, keep_or_drop, hdel_entry, hdel, field_value, hincr_from, hincr_into,
  hincr_by,
}

pub keep_or_drop-Atomic {ℓ} :
    {V : Type ℓ} (wrap : Map V → Payload) (key : Bytes) (e : Entry) (s : Store) (r : Map V × ℕ)
    → Atomic s (keep_or_drop wrap key e s r)
keep_or_drop-Atomic wrap key e s ([], n) c h = cc
keep_or_drop-Atomic wrap key e s ((kv ∷ m), n) c h = cc

module _ (s : Store) (now : ℤ) (key : Bytes) where
  hset_into-Atomic :
      (fields : Map Bytes) {r : Store × Result Entry}
      → MakeCases (hash []) s now key r
      → Atomic s (hset_into key fields r)
  unfolding hset_into
  hset_into-Atomic fields (refused e _ _) c h = refl
  hset_into-Atomic fields (created _) c h = cc
  hset_into-Atomic fields (found e _ _) c h = cc

  pub hset-Atomic : (fields : Map Bytes) → Atomic s (hset s now key fields)
  unfolding hset
  hset-Atomic fields = hset_into-Atomic fields (make_kind-cases (hash []) s now key)

  hdel_entry-Atomic :
      (fields : List Bytes) {r : Result (Option Entry)}
      → FindCases kind_hash s now key r
      → Atomic s (hdel_entry key fields s r)
  unfolding hdel_entry
  hdel_entry-Atomic fields (refused e _ _) c h = refl
  hdel_entry-Atomic fields (missing _) c h = refl
  hdel_entry-Atomic fields (found e _ _) c h =
      keep_or_drop-Atomic hash key e s (remove_all fields (hash_of e.payload) 0) c h

  pub hdel-Atomic : (fields : List Bytes) → Atomic s (hdel s now key fields)
  unfolding hdel
  hdel-Atomic fields = hdel_entry-Atomic fields (find_kind-cases kind_hash s now key)

  hincr_from-Atomic :
      (field : Bytes) (delta : ℤ) (e : Entry) (o : Option ℤ)
      → Atomic s (hincr_from key field delta e s o)
  unfolding hincr_from
  hincr_from-Atomic field delta e none c h = refl
  hincr_from-Atomic field delta e (some n) c h = cc

  hincr_into-Atomic :
      (field : Bytes) (delta : ℤ) {r : Store × Result Entry}
      → MakeCases (hash []) s now key r
      → Atomic s (hincr_into key field delta r)
  unfolding hincr_into hincr_from lookup
  hincr_into-Atomic field delta (refused e _ _) c h = refl
  hincr_into-Atomic field delta (created _) c h = cc
  hincr_into-Atomic field delta (found e _ _) c h =
      hincr_from-Atomic field delta e (field_value (lookup field (hash_of e.payload))) c h

  pub hincr_by-Atomic : (field : Bytes) (delta : ℤ) → Atomic s (hincr_by s now key field delta)
  unfolding hincr_by
  hincr_by-Atomic field delta = hincr_into-Atomic field delta (make_kind-cases (hash []) s now key)
