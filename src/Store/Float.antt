-- ===== src/Store/Float.antt =====
-- float64 by its bit pattern, a number below 2^64: the comparisons that the sorted sets make. A NaN
-- is less than nothing and differs from everything; the two zeros are equal.
use goredis_main.Prelude.{ℕ, ◌%◌, ◌^◌, Bool, not, ◌&&◌, ltb, leb, if◌then◌else◌}
use goredis_main.Prelude.Int.{ℤ, sub_ℕ, ltb_ℤ}

abbrev pub magnitude : ℕ → ℕ
magnitude x = x % 2 ^ 63

abbrev pub is_nan : ℕ → Bool
is_nan x = ltb 0x7FF0000000000000 (magnitude x)

-- An integer that orders the floats that are not NaN.
abbrev pub float_rank : ℕ → ℤ
float_rank x = if leb (2 ^ 63) x then sub_ℕ 0 (magnitude x) else sub_ℕ (magnitude x) 0

unfoldable pub float_lt : ℕ → ℕ → Bool
float_lt x y = not (is_nan x) && not (is_nan y) && ltb_ℤ (float_rank x) (float_rank y)

unfoldable pub float_ne : ℕ → ℕ → Bool
float_ne x y = not (
    not (is_nan x)
    && not (is_nan y)
    && not (ltb_ℤ (float_rank x) (float_rank y))
    && not (ltb_ℤ (float_rank y) (float_rank x)))
