-- ===== src/Store/Strings/Laws.antt =====
-- internal/store/string.go: Set, Get and IncrBy, as a client of the keyspace sees them.
use goredis_main.Prelude.{
  ℕ, ◌^◌, ◌≤◌, ◌<◌, ◌⊎◌, ltb, ◌≡◌, refl, ap, ◌∙◌, Bool, true, false, not, ◌&&◌, ◌||◌, [], ◌∷◌,
  Option, none, some, Bytes, bytes_eq, bytes_eq_refl, arith, is_some, if◌then◌else◌, Bool-cases,
  inl, inr,
}
use goredis_main.Prelude.Int.{ℤ, pos, negsuc, ◌+ℤ◌, +ℤ_parts}
use goredis_main.Machine.{IsInt64, add64, wrap64_id, wrap64_above, wrap64_below}
use goredis_main.Strconv.{parse_int, format_int}
use goredis_main.Strconv.RoundTrip.{parse_int-format_int}
use goredis_main.Store.{
  kind_of, same_kind, kind_string, string, str_of, Entry, Store, StoreError, wrong_type,
  not_an_integer, would_overflow, Result, ok, err, fresh, expired, put, get_locked, find_kind,
}
use goredis_main.Store.Live.{
  visible, get_locked-put, get_locked_live, expired-payload, expired-fresh,
}
use goredis_main.Store.Cases.{FindCases, find_kind-cases, refused, missing, found}
use goredis_main.Store.Strings.{
  SetOptions, set, get, get_found, overflows, incr_from, incr_parsed, incr_entry, incr_by,
}

-- The entry that Set writes.
abbrev pub set_entry : ℤ → Bytes → SetOptions → Entry
set_entry later value opts = record {
  payload = string value;
  expire_at = if opts.has_ttl then some (later +ℤ opts.ttl) else none;
}

-- Set writes unless NX meets a live key or XX meets none.
abbrev pub writes : Store → ℤ → Bytes → SetOptions → Bool
writes s now key opts = not (
    (opts.only_if_new && is_some (get_locked s now key))
    || (opts.only_if_old && not (is_some (get_locked s now key))))

-- SET reports true exactly when no NX meets a live key and no XX meets a missing one; at any time t,
-- the key then shows the new value for as long as its time to live lasts and every other key shows
-- what it showed before; where SET reports false every key shows what it showed.
pub set_lem :
    (s : Store) (now later : ℤ) (key value : Bytes) (opts : SetOptions)
    → ((set s now later key value opts).1 ≡ writes s now key opts)
      × ((t : ℤ) (j : Bytes)
          → get_locked (set s now later key value opts).0 t j ≡ (
              if writes s now key opts && bytes_eq key j
              then visible t (set_entry later value opts)
              else get_locked s t j))
unfolding set
set_lem s now later key value opts =
    (ground arith, λ t j. ground (arith, get_locked-put s t key j (set_entry later value opts)))

-- What a counter at a key holds: 0 where there is no key, and an error where there is no integer.
abbrev parsed : Option ℤ → Result ℤ
parsed none = err not_an_integer
parsed (some n) = ok n

abbrev counted : Result (Option Bytes) → Result ℤ
counted (err c) = err c
counted (ok none) = ok (pos 0)
counted (ok (some v)) = parsed (parse_int v)

unfoldable pub counter : Store → ℤ → Bytes → Result ℤ
counter s now key = counted (get s now key)

-- The outcomes of IncrBy at a counter: nothing is read; the sum is no int64; or the counter holds the
-- sum and no other key changes.
pub data Incremented (s : Store) (now : ℤ) (key : Bytes) (delta : ℤ)
    : Result ℤ → Store × Result ℤ → Type 0 where
  unreadable : (c : StoreError) → Incremented s now key delta (err c) (s, err c)
  overflow :
      (n : ℤ) → ¬ IsInt64 (n +ℤ delta) → Incremented s now key delta (ok n) (s, err would_overflow)
  added :
      (n : ℤ) (s' : Store)
      → IsInt64 (n +ℤ delta)
      → counter s' now key ≡ ok (n +ℤ delta)
      → ((t : ℤ) (j : Bytes) → bytes_eq key j ≡ false → get_locked s' t j ≡ get_locked s t j)
      → Incremented s now key delta (ok n) (s', ok (n +ℤ delta))

-- The test of IncrBy finds the sums that no int64 holds, and only those.
overflows_out :
    (n delta : ℤ)
    → IsInt64 n
    → IsInt64 delta
    → overflows delta n (add64 n delta) ≡ true
    → ¬ IsInt64 (n +ℤ delta)
unfolding add64
overflows_out n delta hn hd h fits =
    let same = wrap64_id (n +ℤ delta) fits in
    let parts = +ℤ_parts n delta in ground (arith, h, same, parts)

-- Where the sum of two int64 lies.
sum_cases :
    (n delta : ℤ)
    → IsInt64 n
    → IsInt64 delta
    → IsInt64 (n +ℤ delta)
      ⊎ (((m : ℕ) × (n +ℤ delta ≡ pos m) × (2 ^ 63 ≤ m) × (m < 2 ^ 64))
          ⊎ ((m : ℕ) × (n +ℤ delta ≡ negsuc m) × (2 ^ 63 ≤ m) × (m < 2 ^ 64)))
sum_cases n delta hn hd = place (n +ℤ delta) refl
  where
    place :
        (z : ℤ)
        → n +ℤ delta ≡ z
        → IsInt64 (n +ℤ delta)
          ⊎ (((m : ℕ) × (n +ℤ delta ≡ pos m) × (2 ^ 63 ≤ m) × (m < 2 ^ 64))
              ⊎ ((m : ℕ) × (n +ℤ delta ≡ negsuc m) × (2 ^ 63 ≤ m) × (m < 2 ^ 64)))
    place (pos m) e =
        let sums = +ℤ_parts n delta in
        let parts = (rw e at sums) in
        elim (Bool-cases (ltb m (2 ^ 63))) [
          | inl small ↦ inl (rw e (ground arith))
          | inr big ↦ inr (inl (m, e, ground arith, ground (arith, parts)))
        ]
    place (negsuc m) e =
        let sums = +ℤ_parts n delta in
        let parts = (rw e at sums) in
        elim (Bool-cases (ltb m (2 ^ 63))) [
          | inl small ↦ inl (rw e (ground arith))
          | inr big ↦ inr (inr (m, e, ground arith, ground (arith, parts)))
        ]

overflows_in :
    (n delta : ℤ)
    → IsInt64 n
    → IsInt64 delta
    → overflows delta n (add64 n delta) ≡ false
    → IsInt64 (n +ℤ delta)
unfolding add64
overflows_in n delta hn hd h = elim (sum_cases n delta hn hd) [
  | inl fits ↦ fits
  | inr (inl (m, e, big, small)) ↦
      let sums = +ℤ_parts n delta in
      let parts = (rw e at sums) in
      let found = (rw (e, wrap64_above m big small) at h) in absurd (ground (arith, found, parts))
  | inr (inr (m, e, big, small)) ↦
      let sums = +ℤ_parts n delta in
      let parts = (rw e at sums) in
      let found = (rw (e, wrap64_below m big small) at h) in absurd (ground (arith, found, parts))
]

parse_int-IsInt64 : (v : Bytes) {n : ℤ} → parse_int v ≡ some n → IsInt64 n
unfolding parse_int
parse_int-IsInt64 [] h = cc
parse_int-IsInt64 (c ∷ v) h = ground (arith, h)

add64-exact : (n delta : ℤ) → IsInt64 (n +ℤ delta) → add64 n delta ≡ n +ℤ delta
unfolding add64
add64-exact n delta h = wrap64_id (n +ℤ delta) h

-- A counter reads back the integer that was written.
counter-put :
    (s : Store) (now : ℤ) (key : Bytes) (e : Entry) (z : ℤ)
    → expired e now ≡ false
    → IsInt64 z
    → counter (put key (record e { payload = string (format_int z) }) s) now key ≡ ok z
unfolding counter get find_kind kind_of same_kind
counter-put s now key e z live h = rw (
  get_locked-put s now key key (record e { payload = string (format_int z) }),
  bytes_eq_refl key,
  expired-payload e (string (format_int z)) now,
  live,
  parse_int-format_int z h,
)

-- INCRBY is addition on the counter at the key: with n in the counter, it fails exactly where n plus
-- the increment is no int64, and else the counter holds the sum, which is the reply, and no other key
-- changes; a failure changes nothing.
pub incr_by_lem :
    (s : Store) (now : ℤ) (key : Bytes) (delta : ℤ)
    → IsInt64 delta
    → Incremented s now key delta (counter s now key) (incr_by s now key delta)
unfolding counter get incr_by
incr_by_lem s now key delta hd = added_to (find_kind-cases kind_string s now key)
  where
    writes_sum :
        (e : Entry) (n : ℤ)
        → expired e now ≡ false
        → IsInt64 n
        → Incremented s now key delta (ok n) (incr_from key delta e s n)
    writes_sum e n live hn = elim (Bool-cases (overflows delta n (add64 n delta))) [
      | inl out ↦ rw out (overflow n (overflows_out n delta hn hd out))
      | inr fits ↦
          let sum = overflows_in n delta hn hd fits in
          rw (fits, add64-exact n delta sum)
            (added n _ sum (counter-put s now key e (n +ℤ delta) live sum) (λ t j other.
              get_locked-put s t key j (record e { payload = string (format_int (n +ℤ delta)) })
              ∙ ap
                  (λ b.
                    if b
                    then visible t (record e { payload = string (format_int (n +ℤ delta)) })
                    else get_locked s t j)
                  other))
    ]

    parsed_sum :
        (e : Entry) (o : Option ℤ)
        → parse_int (str_of e.payload) ≡ o
        → expired e now ≡ false
        → Incremented s now key delta (parsed o) (incr_parsed key delta e s o)
    parsed_sum e none h live = unreadable not_an_integer
    parsed_sum e (some n) h live = writes_sum e n live (parse_int-IsInt64 (str_of e.payload) h)

    added_to :
        {r : Result (Option Entry)}
        → FindCases kind_string s now key r
        → Incremented s now key delta (counted (get_found r)) (incr_entry key delta s r)
    added_to (refused e live k) = unreadable wrong_type
    added_to (missing gone) =
        writes_sum (fresh (string [])) (pos 0) (expired-fresh (string []) now)
          (omega arith, omega arith)
    added_to (found e live k) = parsed_sum e _ refl (get_locked_live s now key live)
