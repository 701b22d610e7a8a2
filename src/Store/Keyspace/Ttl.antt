-- ===== src/Store/Keyspace/Ttl.antt =====
-- internal/store/store.go: the encoding of TTLSeconds, and its rounding.
use goredis_main.Prelude.{
  ℕ, suc, ap, ◌∙◌, ◌+◌, ◌-◌, ◌*◌, ◌/◌, ◌≤◌, ◌<◌, ◌≡◌, refl, true, false, Option, none, some, Bytes,
  arith,
}
use goredis_main.Prelude.Int.{ℤ, pos, negsuc, pos_part, ◌+ℤ◌, ◌-ℤ◌}
use goredis_main.Machine.{add64, wrap64, quot, max_int64}
use goredis_main.Store.{Entry, Store, get_locked}
use goredis_main.Store.Keyspace.{saturate, floor_zero, ttl_of, ttl, second, encode_ttl, ttl_seconds}

add64_small : (a b : ℕ) → a + b ≤ max_int64 → add64 (pos a) (pos b) ≡ pos (a + b)
unfolding add64 ◌+ℤ◌ wrap64
add64_small a b h = ground arith

add64_pred : (a b : ℕ) → a ≡ suc b → a ≤ max_int64 → add64 (pos a) (negsuc 0) ≡ pos b
unfolding add64 ◌+ℤ◌ wrap64
add64_pred a b e h = ground arith

quot_pos : (a : ℕ) → quot (pos a) second ≡ pos (a / second)
unfolding quot
quot_pos a = ground arith

-- The seconds that TTLSeconds makes of a duration.
abbrev rounded : ℤ → ℤ
rounded d = quot (add64 (add64 d (pos second)) (negsuc 0)) second

-- The least number of seconds that covers d.
abbrev Covers : ℕ → ℕ → Type 0
Covers d n = (d ≤ n * second) × (n * second < d + second)

rounded_lem : (d : ℕ) → d + second ≤ max_int64 → (n : ℕ) × (rounded (pos d) ≡ pos n) × Covers d n
rounded_lem d h =
    let e : add64 (add64 (pos d) (pos second)) (negsuc 0) ≡ pos (d + (second - 1)) =
      ap (λ z. add64 z (negsuc 0)) (add64_small d second h)
      ∙ add64_pred (d + second) (d + (second - 1)) (omega arith) h in
    (
      (d + (second - 1)) / second,
      ap (λ z. quot z second) e ∙ quot_pos (d + (second - 1)),
      (omega arith, omega arith),
    )

left_pos : (z : ℤ) → pos_part z ≤ max_int64 → floor_zero (saturate z) ≡ pos (pos_part z)
unfolding saturate
left_pos (pos n) h = ground arith
left_pos (negsuc n) h = ground arith

-- The expiry is so far from int64's end that the rounding does not wrap.
abbrev NearAt : ℤ → Option ℤ → Type 0
NearAt later none = Unit
NearAt later (some t) = pos_part (t -ℤ later) + second ≤ max_int64

abbrev pub Near : ℤ → Option Entry → Type 0
Near later none = Unit
Near later (some e) = NearAt later e.expire_at

abbrev ReportsAt : ℤ → Option ℤ → ℤ → Type 0
ReportsAt later none r = r ≡ negsuc 0
ReportsAt later (some t) r = (n : ℕ) × (r ≡ pos n) × Covers (pos_part (t -ℤ later)) n

abbrev pub Reports : ℤ → Option Entry → ℤ → Type 0
Reports later none r = r ≡ negsuc 1
Reports later (some e) r = ReportsAt later e.expire_at r

encoded :
    (later : ℤ) (o : Option Entry)
    → Near later o
    → Reports later o (encode_ttl rounded (ttl_of later o))
unfolding ttl_of
encoded later none near = refl
encoded later (some e) near = encoded_at e.expire_at near
  where
    encoded_at :
        (t : Option ℤ)
        → NearAt later t
        → ReportsAt later t (
            encode_ttl rounded (elim t [
              | none ↦ (pos 0, true, false)
              | some t ↦ (floor_zero (saturate (t -ℤ later)), true, true)
            ]))
    encoded_at none near = refl
    encoded_at (some t) near =
        rw (left_pos (t -ℤ later) (omega arith)) (rounded_lem (pos_part (t -ℤ later)) near)

-- TTLSeconds answers -2 where the key shows nothing and -1 where its entry has no expiry. Otherwise
-- it answers the least number of seconds that covers the time from the second reading of the clock
-- to the expiry, and 0 where that has passed, if the expiry is so near that adding a second to that
-- time stays within int64.
pub ttl_seconds_lem :
    (s : Store) (now later : ℤ) (key : Bytes)
    → Near later (get_locked s now key)
    → Reports later (get_locked s now key) (ttl_seconds s now later key)
unfolding ttl_seconds ttl
ttl_seconds_lem s now later key near = encoded later (get_locked s now key) near
