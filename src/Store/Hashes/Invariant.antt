-- ===== src/Store/Hashes/Invariant.antt =====
-- The hash operations keep a store well-formed; so do the loops that sets and sorted sets share.
use goredis_main.Prelude.{ℕ, ◌+◌, ◌<◌, List, [], ◌∷◌, Option, none, some, Bytes, arith, if_intro}
use goredis_main.Prelude.Int.{ℤ}
use goredis_main.GoMap.{Map, lookup, insert, delete, has, size, Distinct}
use goredis_main.GoMap.Laws.{insert-Distinct, delete-Distinct, size-insert_pos}
use goredis_main.Store.{kind_hash, Payload, hash, hash_of, Entry, Store, Result}
use goredis_main.Store.Cases.{
  FindCases, MakeCases, refused, missing, created, found, find_kind-cases, make_kind-cases,
}
use goredis_main.Store.Invariant.{
  PayloadOk, IsValid, put-IsValid, put-put-IsValid, drop_key-IsValid, get_locked-EntryOk,
  hash_of-Distinct,
}
use goredis_main.Store.Hashes.{
  set_fields, hset_into, hset, remove_all, keep_or_drop, hdel_entry, hdel, field_value, hincr_from,
  hincr_into, hincr_by,
}

-- A map that may stand in a container.
abbrev pub MapOk {ℓ} : {V : Type ℓ} → Map V → Type ℓ
MapOk m = Distinct m × (0 < size m)

pub set_fields-MapOk :
    (fields h : Map Bytes) (n : ℕ)
    → Distinct h
    → 0 < size h + size fields
    → MapOk (set_fields fields h n).0
unfolding set_fields
set_fields-MapOk [] h n d p = (d, omega arith)
set_fields-MapOk ((f, v) ∷ fields) h n d p =
    set_fields-MapOk fields (insert f v h) _ (insert-Distinct f v h d)
      (omega (arith, size-insert_pos f v h))

pub remove_all-Distinct {ℓ} :
    {V : Type ℓ} (fields : List Bytes) (h : Map V) (n : ℕ)
    → Distinct h
    → Distinct (remove_all fields h n).0
unfolding remove_all
remove_all-Distinct [] h n d = d
remove_all-Distinct (f ∷ fields) h n d =
    remove_all-Distinct fields _ _
      (if_intro Distinct (has f h) (delete f h) h (λ _. delete-Distinct f h d) (λ _. d))

pub keep_or_drop-IsValid {ℓ} :
    {V : Type ℓ} (wrap : Map V → Payload) (key : Bytes) (e : Entry) (s : Store) (r : Map V × ℕ)
    → ((m : Map V) → MapOk m → PayloadOk (wrap m))
    → Distinct r.0
    → IsValid s
    → IsValid (keep_or_drop wrap key e s r).0
keep_or_drop-IsValid wrap key e s ([], n) p d v = drop_key-IsValid key s v
keep_or_drop-IsValid wrap key e s ((kv ∷ h), n) p d v =
    put-IsValid key _ s (p (kv ∷ h) (d, omega arith)) v

module _ (s : Store) (now : ℤ) (key : Bytes) (v : IsValid s) where
  hset_into-IsValid :
      (fields : Map Bytes) {r : Store × Result Entry}
      → 0 < size fields
      → MakeCases (hash []) s now key r
      → IsValid (hset_into key fields r).0
  unfolding hset_into
  hset_into-IsValid fields p (refused e _ _) = v
  hset_into-IsValid fields p (created _) =
      put-put-IsValid key _ _ s (set_fields-MapOk fields [] 0 tt (omega arith)) v
  hset_into-IsValid fields p (found e h _) =
      let d = hash_of-Distinct e.payload (get_locked-EntryOk s now key v h) in
      put-IsValid key _ s (set_fields-MapOk fields (hash_of e.payload) 0 d (omega arith)) v

  pub hset-IsValid : (fields : Map Bytes) → 0 < size fields → IsValid (hset s now key fields).0
  unfolding hset
  hset-IsValid fields p = hset_into-IsValid fields p (make_kind-cases (hash []) s now key)

  hdel_entry-IsValid :
      (fields : List Bytes) {r : Result (Option Entry)}
      → FindCases kind_hash s now key r
      → IsValid (hdel_entry key fields s r).0
  unfolding hdel_entry
  hdel_entry-IsValid fields (refused e _ _) = v
  hdel_entry-IsValid fields (missing _) = v
  hdel_entry-IsValid fields (found e h _) =
      let d = hash_of-Distinct e.payload (get_locked-EntryOk s now key v h) in
      keep_or_drop-IsValid hash key e s _ (λ m p. p)
        (remove_all-Distinct fields (hash_of e.payload) 0 d) v

  pub hdel-IsValid : (fields : List Bytes) → IsValid (hdel s now key fields).0
  unfolding hdel
  hdel-IsValid fields = hdel_entry-IsValid fields (find_kind-cases kind_hash s now key)

  hincr_from-IsValid :
      (field : Bytes) (delta : ℤ) (e : Entry) (o : Option ℤ)
      → Distinct (hash_of e.payload)
      → IsValid (hincr_from key field delta e s o).0
  unfolding hincr_from
  hincr_from-IsValid field delta e none d = v
  hincr_from-IsValid field delta e (some cur) d =
      put-IsValid key _ s
        (insert-Distinct field _ (hash_of e.payload) d, size-insert_pos field _ (hash_of e.payload))
        v

  hincr_into-IsValid :
      (field : Bytes) (delta : ℤ) {r : Store × Result Entry}
      → MakeCases (hash []) s now key r
      → IsValid (hincr_into key field delta r).0
  unfolding hincr_into
  hincr_into-IsValid field delta (refused e _ _) = v
  hincr_into-IsValid field delta (created _) =
      unfold lookup hincr_from in
      put-put-IsValid key _ _ s (insert-Distinct field _ [] tt, size-insert_pos field _ []) v
  hincr_into-IsValid field delta (found e h _) =
      hincr_from-IsValid field delta e (field_value (lookup field (hash_of e.payload)))
        (hash_of-Distinct e.payload (get_locked-EntryOk s now key v h))

  pub hincr_by-IsValid : (field : Bytes) (delta : ℤ) → IsValid (hincr_by s now key field delta).0
  unfolding hincr_by
  hincr_by-IsValid field delta =
      hincr_into-IsValid field delta (make_kind-cases (hash []) s now key)
