-- ===== src/Store/Strings.antt =====
-- internal/store/string.go. A Go map that MSet ranges over has distinct keys, so its order shows only
-- in the order of new entries.
pub mod Invariant
pub mod Atomic
pub mod Laws
use goredis_main.Prelude.{
  ℕ, Bool, true, false, not, ◌&&◌, ◌||◌, List, [], ◌∷◌, ◌++◌, Option, none, some, Bytes, length,
  map, is_some, if◌then◌else◌,
}
use goredis_main.Prelude.Int.{ℤ, pos, ◌+ℤ◌, ltb_ℤ}
use goredis_main.Machine.{add64}
use goredis_main.Strconv.{parse_int, format_int}
use goredis_main.GoMap.{Map}
use goredis_main.Store.{
  kind_string, Payload, string, str_of, kind_of, same_kind, Entry, Store, not_an_integer,
  would_overflow, Result, ok, err, fresh, put, get_locked, find_kind,
}

pub record SetOptions : Type 0 where
  pub ttl : ℤ
  pub has_ttl : Bool
  pub only_if_new : Bool
  pub only_if_old : Bool

abbrev pub no_options : SetOptions
no_options = record { ttl = pos 0; has_ttl = false; only_if_new = false; only_if_old = false }

-- Set; `later` is the second reading of the clock, for the expiry.
unfoldable pub set : Store → ℤ → ℤ → Bytes → Bytes → SetOptions → Store × Bool
set s now later key value opts =
    let exists = is_some (get_locked s now key) in
    if opts.only_if_new && exists
    then (s, false)
    else if opts.only_if_old && not exists
    then (s, false)
    else (
      put key
          (record {
            payload = string value;
            expire_at = if opts.has_ttl then some (later +ℤ opts.ttl) else none;
          })
          s,
      true,
    )

get_found : Result (Option Entry) → Result (Option Bytes)
get_found (err c) = err c
get_found (ok none) = ok none
get_found (ok (some e)) = ok (some (str_of e.payload))

-- Get; `ok none` is found = false.
unfoldable pub get : Store → ℤ → Bytes → Result (Option Bytes)
unfolding get_found
get s now key = get_found (find_kind kind_string s now key)

swap_string : Bytes → Bytes → Store → Result (Option Entry) → Store × Result (Option Bytes)
swap_string key value s (err c) = (s, err c)
swap_string key value s (ok none) = (put key (fresh (string value)) s, ok none)
swap_string key value s (ok (some e)) =
    (put key (fresh (string value)) s, ok (some (str_of e.payload)))

unfoldable pub get_set : Store → ℤ → Bytes → Bytes → Store × Result (Option Bytes)
unfolding swap_string
get_set s now key value = swap_string key value s (find_kind kind_string s now key)

unfoldable pub mset : Store → Map Bytes → Store
mset s [] = s
mset s ((k, v) ∷ pairs) = mset (put k (fresh (string v)) s) pairs

mget_value : Option Entry → Option Bytes
mget_value none = none
mget_value (some e) =
    if same_kind (kind_of e.payload) kind_string then some (str_of e.payload) else none

unfoldable pub mget : Store → ℤ → List Bytes → List (Option Bytes)
unfolding mget_value
mget s now keys = map (λ k. mget_value (get_locked s now k)) keys

-- (delta > 0 && next < cur) || (delta < 0 && next > cur)
abbrev overflows : ℤ → ℤ → ℤ → Bool
overflows delta cur next =
    (ltb_ℤ (pos 0) delta && ltb_ℤ next cur) || (ltb_ℤ delta (pos 0) && ltb_ℤ cur next)

-- The tail of IncrBy, from the sum on; e is the entry to write through.
incr_from : Bytes → ℤ → Entry → Store → ℤ → Store × Result ℤ
incr_from key delta e s cur =
    let next = add64 cur delta in
    if overflows delta cur next
    then (s, err would_overflow)
    else (put key (record e { payload = string (format_int next) }) s, ok next)

incr_parsed : Bytes → ℤ → Entry → Store → Option ℤ → Store × Result ℤ
incr_parsed key delta e s none = (s, err not_an_integer)
incr_parsed key delta e s (some cur) = incr_from key delta e s cur

incr_entry : Bytes → ℤ → Store → Result (Option Entry) → Store × Result ℤ
incr_entry key delta s (err c) = (s, err c)
incr_entry key delta s (ok none) = incr_from key delta (fresh (string [])) s (pos 0)
incr_entry key delta s (ok (some e)) = incr_parsed key delta e s (parse_int (str_of e.payload))

unfoldable pub incr_by : Store → ℤ → Bytes → ℤ → Store × Result ℤ
unfolding incr_entry incr_parsed incr_from
incr_by s now key delta = incr_entry key delta s (find_kind kind_string s now key)

append_entry : Bytes → Bytes → Store → Result (Option Entry) → Store × Result ℕ
append_entry key value s (err c) = (s, err c)
append_entry key value s (ok none) = (put key (fresh (string value)) s, ok (length value))
append_entry key value s (ok (some e)) =
    let whole = str_of e.payload ++ value in
    (put key (record e { payload = string whole }) s, ok (length whole))

unfoldable pub append : Store → ℤ → Bytes → Bytes → Store × Result ℕ
unfolding append_entry
append s now key value = append_entry key value s (find_kind kind_string s now key)

strlen_of : Result (Option Entry) → Result ℕ
strlen_of (err c) = err c
strlen_of (ok none) = ok 0
strlen_of (ok (some e)) = ok (length (str_of e.payload))

unfoldable pub strlen : Store → ℤ → Bytes → Result ℕ
unfolding strlen_of
strlen s now key = strlen_of (find_kind kind_string s now key)
