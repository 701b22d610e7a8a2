-- ===== src/Strconv/RoundTrip.antt =====
-- Printing a number and parsing it back.
use goredis_main.Prelude.{
  ℕ, zero, suc, ◌+◌, ◌/◌, ◌%◌, ◌≤◌, ◌<◌, ◌≡◌, ◌≢◌, refl, subst, ◌∙◌, [], ◌∷◌, some, Bytes, arith,
  All, ltb, Bool-cases, inl, inr,
}
use goredis_main.Prelude.Int.{ℤ, pos, negsuc}
use goredis_main.Machine.{IsInt64}
use goredis_main.Strconv.{
  max_uint64, scan_digits, parse_uint, parse_int, put_digits, format_nat, format_int,
}

scan-put_digits :
    (f n : ℕ) (out : Bytes)
    → n < f
    → n ≤ max_uint64
    → scan_digits (put_digits f n out) 0 ≡ scan_digits out n
unfolding scan_digits put_digits
scan-put_digits zero n out h k = elim h [ ]
scan-put_digits (suc f) n out h k =
    ground (arith, scan-put_digits f (n / 10) ((b'0' + n % 10) ∷ out))

-- What the loop writes in front is a digit.
put_digits_head :
    (f n : ℕ) (out : Bytes)
    → (d : ℕ) × (s : Bytes) × (put_digits (suc f) n out ≡ d ∷ s) × (b'0' ≤ d) × (d ≤ b'9')
unfolding put_digits
put_digits_head zero n out = elim (Bool-cases (ltb n 10)) [
  | inl e ↦ (b'0' + n, out, rw e, ground arith, ground arith)
  | inr e ↦ (b'0' + n % 10, out, rw e, ground arith, ground arith)
]
put_digits_head (suc f) n out = elim (Bool-cases (ltb n 10)) [
  | inl e ↦ (b'0' + n, out, rw e, ground arith, ground arith)
  | inr e ↦ rw e (put_digits_head f (n / 10) ((b'0' + n % 10) ∷ out))
]

-- A printed number is a digit and what follows it, and the loop of ParseUint reads it back.
format_nat_digits :
    (n : ℕ)
    → (d : ℕ) × (s : Bytes) × (format_nat n ≡ d ∷ s)
      × (b'0' ≤ d)
      × (d ≤ b'9')
      × (n ≤ max_uint64 → scan_digits (d ∷ s) 0 ≡ some n)
unfolding format_nat
format_nat_digits n =
    let (d, s, e, lo, hi) = put_digits_head n n [] in
    (d, s, e, lo, hi, λ h. subst (λ t. scan_digits t 0 ≡ some n) e (scanned h))
  where
    scanned : n ≤ max_uint64 → scan_digits (put_digits (suc n) n []) 0 ≡ some n
    scanned h = scan-put_digits (suc n) n [] (omega arith) h ∙ unfold scan_digits in refl

-- A printed length parses back.
pub parse_uint-format_nat : (n : ℕ) → n ≤ max_uint64 → parse_uint (format_nat n) ≡ some n
unfolding parse_uint
parse_uint-format_nat n h = let (d, s, e, _, _, scanned) = format_nat_digits n in rw e (scanned h)

-- Every int64 that is printed parses back.
pub parse_int-format_int : (z : ℤ) → IsInt64 z → parse_int (format_int z) ≡ some z
unfolding format_int parse_int
parse_int-format_int (pos n) h =
    let (d, s, e, lo, hi, _) = format_nat_digits n in
    let whole = parse_uint-format_nat n (omega arith) in rw e (ground (arith, e, whole))
parse_int-format_int (negsuc n) h =
    let whole = parse_uint-format_nat (suc n) (omega arith) in ground (arith, whole)

-- A line of digits and a sign has no line feed.
put_digits-lacks_lf :
    (f n : ℕ) (out : Bytes) → All (λ c. c ≢ 10) out → All (λ c. c ≢ 10) (put_digits f n out)
unfolding put_digits
put_digits-lacks_lf zero n out h = h
put_digits-lacks_lf (suc f) n out h = elim (Bool-cases (ltb n 10)) [
  | inl e ↦ rw e (omega arith, h)
  | inr e ↦ rw e (put_digits-lacks_lf f (n / 10) ((b'0' + n % 10) ∷ out) (omega arith, h))
]

pub format_nat-lacks_lf : (n : ℕ) → All (λ c. c ≢ 10) (format_nat n)
unfolding format_nat
format_nat-lacks_lf n = put_digits-lacks_lf (suc n) n [] tt

pub format_int-lacks_lf : (z : ℤ) → All (λ c. c ≢ 10) (format_int z)
unfolding format_int
format_int-lacks_lf (pos n) = format_nat-lacks_lf n
format_int-lacks_lf (negsuc n) = (omega arith, format_nat-lacks_lf (suc n))
