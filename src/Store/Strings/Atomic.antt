-- ===== src/Store/Strings/Atomic.antt =====
-- internal/store: failing operations on a string.
use goredis_main.Prelude.{refl, Option, none, some, Bytes, if_intro}
use goredis_main.Prelude.Int.{ℤ, pos}
use goredis_main.Machine.{add64}
use goredis_main.Strconv.{parse_int}
use goredis_main.Store.{kind_string, str_of, Entry, Store, Result}
use goredis_main.Store.Atomic.{Atomic}
use goredis_main.Store.Cases.{FindCases, refused, missing, found, find_kind-cases}
use goredis_main.Store.Strings.{
  swap_string, get_set, overflows, incr_from, incr_parsed, incr_entry, incr_by, append_entry,
  append,
}

module _ (s : Store) (now : ℤ) (key : Bytes) where
  swap_string-Atomic :
      (value : Bytes) {r : Result (Option Entry)}
      → FindCases kind_string s now key r
      → Atomic s (swap_string key value s r)
  unfolding swap_string
  swap_string-Atomic value (refused e _ _) c h = refl
  swap_string-Atomic value (missing _) c h = cc
  swap_string-Atomic value (found e _ _) c h = cc

  pub get_set-Atomic : (value : Bytes) → Atomic s (get_set s now key value)
  unfolding get_set
  get_set-Atomic value = swap_string-Atomic value (find_kind-cases kind_string s now key)

  incr_from-Atomic : (delta : ℤ) (e : Entry) (n : ℤ) → Atomic s (incr_from key delta e s n)
  unfolding incr_from
  incr_from-Atomic delta e n =
      if_intro (Atomic s) (overflows delta n (add64 n delta)) _ _ (λ _ c h. refl) (λ _ c h. cc)

  incr_parsed-Atomic :
      (delta : ℤ) (e : Entry) (o : Option ℤ) → Atomic s (incr_parsed key delta e s o)
  unfolding incr_parsed
  incr_parsed-Atomic delta e none c h = refl
  incr_parsed-Atomic delta e (some n) c h = incr_from-Atomic delta e n c h

  incr_entry-Atomic :
      (delta : ℤ) {r : Result (Option Entry)}
      → FindCases kind_string s now key r
      → Atomic s (incr_entry key delta s r)
  unfolding incr_entry
  incr_entry-Atomic delta (refused e _ _) c h = refl
  incr_entry-Atomic delta (missing _) c h = incr_from-Atomic delta _ (pos 0) c h
  incr_entry-Atomic delta (found e _ _) c h =
      incr_parsed-Atomic delta e (parse_int (str_of e.payload)) c h

  pub incr_by-Atomic : (delta : ℤ) → Atomic s (incr_by s now key delta)
  unfolding incr_by
  incr_by-Atomic delta = incr_entry-Atomic delta (find_kind-cases kind_string s now key)

  append_entry-Atomic :
      (value : Bytes) {r : Result (Option Entry)}
      → FindCases kind_string s now key r
      → Atomic s (append_entry key value s r)
  unfolding append_entry
  append_entry-Atomic value (refused e _ _) c h = refl
  append_entry-Atomic value (missing _) c h = cc
  append_entry-Atomic value (found e _ _) c h = cc

  pub append-Atomic : (value : Bytes) → Atomic s (append s now key value)
  unfolding append
  append-Atomic value = append_entry-Atomic value (find_kind-cases kind_string s now key)
