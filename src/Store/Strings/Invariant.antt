-- ===== src/Store/Strings/Invariant.antt =====
-- The string operations keep a store well-formed.
use goredis_main.Prelude.{not, ◌&&◌, [], ◌∷◌, Option, none, some, Bytes, is_some}
use goredis_main.Prelude.Int.{ℤ, pos}
use goredis_main.Strconv.{parse_int}
use goredis_main.GoMap.{Map}
use goredis_main.Machine.{add64}
use goredis_main.Store.{
  kind_string, string, str_of, Entry, Store, Result, ok, err, fresh, put, get_locked, find_kind,
}
use goredis_main.Store.Invariant.{IsValid, put-IsValid, if-IsValid}
use goredis_main.Store.Strings.{
  SetOptions, set, swap_string, get_set, mset, overflows, incr_from, incr_parsed, incr_entry,
  incr_by, append_entry, append,
}

pub set-IsValid :
    (s : Store) (now later : ℤ) (key value : Bytes) (opts : SetOptions)
    → IsValid s
    → IsValid (set s now later key value opts).0
unfolding set
set-IsValid s now later key value opts v =
    if-IsValid (opts.only_if_new && is_some (get_locked s now key)) _ _ v (
      if-IsValid (opts.only_if_old && not (is_some (get_locked s now key))) _ _ v
        (put-IsValid key _ s tt v))

swap_string-IsValid :
    (key value : Bytes) (s : Store) (r : Result (Option Entry))
    → IsValid s
    → IsValid (swap_string key value s r).0
unfolding swap_string
swap_string-IsValid key value s (err c) v = v
swap_string-IsValid key value s (ok none) v = put-IsValid key _ s tt v
swap_string-IsValid key value s (ok (some e)) v = put-IsValid key _ s tt v

pub get_set-IsValid :
    (s : Store) (now : ℤ) (key value : Bytes) → IsValid s → IsValid (get_set s now key value).0
unfolding get_set
get_set-IsValid s now key value v =
    swap_string-IsValid key value s (find_kind kind_string s now key) v

pub mset-IsValid : (s : Store) (pairs : Map Bytes) → IsValid s → IsValid (mset s pairs)
unfolding mset
mset-IsValid s [] v = v
mset-IsValid s ((k, x) ∷ pairs) v =
    mset-IsValid (put k (fresh (string x)) s) pairs (put-IsValid k (fresh (string x)) s tt v)

incr_from-IsValid :
    (key : Bytes) (delta : ℤ) (e : Entry) (s : Store) (cur : ℤ)
    → IsValid s
    → IsValid (incr_from key delta e s cur).0
unfolding incr_from
incr_from-IsValid key delta e s cur v =
    if-IsValid (overflows delta cur (add64 cur delta)) _ _ v (put-IsValid key _ s tt v)

incr_parsed-IsValid :
    (key : Bytes) (delta : ℤ) (e : Entry) (s : Store) (o : Option ℤ)
    → IsValid s
    → IsValid (incr_parsed key delta e s o).0
unfolding incr_parsed
incr_parsed-IsValid key delta e s none v = v
incr_parsed-IsValid key delta e s (some cur) v = incr_from-IsValid key delta e s cur v

incr_entry-IsValid :
    (key : Bytes) (delta : ℤ) (s : Store) (r : Result (Option Entry))
    → IsValid s
    → IsValid (incr_entry key delta s r).0
unfolding incr_entry
incr_entry-IsValid key delta s (err c) v = v
incr_entry-IsValid key delta s (ok none) v = incr_from-IsValid key delta _ s (pos 0) v
incr_entry-IsValid key delta s (ok (some e)) v =
    incr_parsed-IsValid key delta e s (parse_int (str_of e.payload)) v

pub incr_by-IsValid :
    (s : Store) (now : ℤ) (key : Bytes) (delta : ℤ)
    → IsValid s
    → IsValid (incr_by s now key delta).0
unfolding incr_by
incr_by-IsValid s now key delta v =
    incr_entry-IsValid key delta s (find_kind kind_string s now key) v

append_entry-IsValid :
    (key value : Bytes) (s : Store) (r : Result (Option Entry))
    → IsValid s
    → IsValid (append_entry key value s r).0
unfolding append_entry
append_entry-IsValid key value s (err c) v = v
append_entry-IsValid key value s (ok none) v = put-IsValid key _ s tt v
append_entry-IsValid key value s (ok (some e)) v = put-IsValid key _ s tt v

pub append-IsValid :
    (s : Store) (now : ℤ) (key value : Bytes) → IsValid s → IsValid (append s now key value).0
unfolding append
append-IsValid s now key value v =
    append_entry-IsValid key value s (find_kind kind_string s now key) v
