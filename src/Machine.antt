-- ===== src/Machine.antt =====
-- int64, and time.Duration, which is an int64 of nanoseconds: sums, products and negations wrap.
use goredis_main.Prelude.{ℕ, ◌+◌, ◌-◌, ◌/◌, ◌%◌, ◌^◌, ◌≤◌, ◌<◌, ◌≡◌, arith, ltb, if◌then◌else◌}
use goredis_main.Prelude.Int.{ℤ, pos, negsuc, pos_part, neg_part, sub_ℕ, ◌+ℤ◌, ◌-ℤ◌, ◌*ℤ◌}

abbrev pub word : ℕ
word = 2 ^ 64

abbrev pub max_int64 : ℕ
max_int64 = 2 ^ 63 - 1

abbrev pub min_int64 : ℤ
min_int64 = negsuc max_int64

-- The integers that an int64 holds.
abbrev pub IsInt64 : ℤ → Type 0
IsInt64 z = (pos_part z ≤ 2 ^ 63 - 1) × (neg_part z ≤ 2 ^ 63)

-- The int64 with the bit pattern u.
to_signed : ℕ → ℤ
to_signed u = if ltb u (2 ^ 63) then pos u else negsuc (2 ^ 64 - 1 - u)

-- The int64 that is congruent to z modulo 2^64.
unfoldable pub wrap64 : ℤ → ℤ
unfolding to_signed
wrap64 z = to_signed ((pos_part z % 2 ^ 64 + (2 ^ 64 - neg_part z % 2 ^ 64)) % 2 ^ 64)

-- a + b, a * b and -a on int64.
unfoldable pub add64 : ℤ → ℤ → ℤ
add64 a b = wrap64 (a +ℤ b)

unfoldable pub mul64 : ℤ → ℤ → ℤ
mul64 a b = wrap64 (a *ℤ b)

unfoldable pub neg64 : ℤ → ℤ
neg64 a = wrap64 (pos 0 -ℤ a)

-- Go's `/` by a positive constant: it truncates toward zero.
unfoldable pub quot : ℤ → ℕ → ℤ
quot a d = sub_ℕ (pos_part a / d) (neg_part a / d)

pub wrap64-IsInt64 : (z : ℤ) → IsInt64 (wrap64 z)
unfolding wrap64
wrap64-IsInt64 (pos n) = ground arith
wrap64-IsInt64 (negsuc n) = ground arith

pub wrap64_id : (z : ℤ) → IsInt64 z → wrap64 z ≡ z
unfolding wrap64
wrap64_id (pos n) h = ground arith
wrap64_id (negsuc n) h = ground arith

-- Past the top the value comes back from the bottom, and the other way round.
pub wrap64_above : (n : ℕ) → 2 ^ 63 ≤ n → n < 2 ^ 64 → wrap64 (pos n) ≡ negsuc (2 ^ 64 - 1 - n)
unfolding wrap64
wrap64_above n h k = ground arith

pub wrap64_below : (n : ℕ) → 2 ^ 63 ≤ n → n < 2 ^ 64 → wrap64 (negsuc n) ≡ pos (2 ^ 64 - 1 - n)
unfolding wrap64
wrap64_below n h k = ground arith
