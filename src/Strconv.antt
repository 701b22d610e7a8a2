-- ===== src/Strconv.antt =====
-- strconv.ParseInt(s, 10, 64) (strconv.Atoi is the same on a 64-bit machine), strconv.FormatInt and
-- strconv.Itoa, on the values that the program passes.
pub mod RoundTrip
use goredis_main.Prelude.{
  ℕ, zero, suc, ◌+◌, ◌-◌, ◌*◌, ◌/◌, ◌%◌, ◌^◌, Bool, true, false, ◌||◌, ◌&&◌, List, [], ◌∷◌, Option,
  none, some, Bytes, ltb, leb, ◌==◌, if◌then◌else◌,
}
use goredis_main.Prelude.Int.{ℤ, pos, negsuc, sub_ℕ}

abbrev pub max_uint64 : ℕ
max_uint64 = 2 ^ 64 - 1

abbrev pub is_digit : ℕ → Bool
is_digit c = leb b'0' c && leb c b'9'

-- ParseUint's loop; n is the value of the digits so far.
unfoldable pub scan_digits : Bytes → ℕ → Option ℕ
scan_digits [] n = some n
scan_digits (c ∷ s) n =
    let rest = scan_digits s (n * 10 + (c - b'0')) in
    if is_digit c then (if leb (n * 10 + (c - b'0')) max_uint64 then rest else none) else none

unfoldable pub parse_uint : Bytes → Option ℕ
parse_uint [] = none
parse_uint (c ∷ s) = scan_digits (c ∷ s) 0

-- The range test behind ParseUint: `un >= cutoff`, or `un > cutoff` for a negative number.
abbrev pub in_range : Bool → Option ℕ → Option ℤ
in_range negative none = none
in_range true (some n) = if leb n (2 ^ 63) then some (sub_ℕ 0 n) else none
in_range false (some n) = if ltb n (2 ^ 63) then some (pos n) else none

-- `none` stands for either error, ErrSyntax and ErrRange, which no caller tells apart.
unfoldable pub parse_int : Bytes → Option ℤ
parse_int [] = none
parse_int (c ∷ s) =
    if c == b'+'
    then in_range false (parse_uint s)
    else if c == b'-'
    then in_range true (parse_uint s)
    else in_range false (parse_uint (c ∷ s))

-- The digits of n before `out`, from the last one; `f` rounds at most.
unfoldable pub put_digits : ℕ → ℕ → Bytes → Bytes
put_digits zero n out = out
put_digits (suc f) n out =
    let more = put_digits f (n / 10) ((b'0' + n % 10) ∷ out) in
    if ltb n 10 then (b'0' + n) ∷ out else more

-- strconv.Itoa of a length. n + 1 rounds are enough.
unfoldable pub format_nat : ℕ → Bytes
format_nat n = put_digits (suc n) n []

unfoldable pub format_int : ℤ → Bytes
format_int (pos n) = format_nat n
format_int (negsuc n) = b'-' ∷ format_nat (suc n)
