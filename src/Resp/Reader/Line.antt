-- ===== src/Resp/Reader/Line.antt =====
-- readLine, readInteger and the reads of lengths, on lines that Marshal wrote.
use goredis_main.Prelude.{
  ℕ, ◌+◌, ◌≤◌, ◌≡◌, ◌≢◌, refl, [], ◌∷◌, ◌++◌, some, Bytes, arith, All, length, length-append,
  take-append_length, get_elem?-append_length,
}
use goredis_main.Prelude.Int.{ℤ, pos}
use goredis_main.Machine.{IsInt64, max_int64}
use goredis_main.Strconv.{format_int, format_nat}
use goredis_main.Strconv.RoundTrip.{parse_int-format_int, format_int-lacks_lf}
use goredis_main.Resp.Marshal.{crlf}
use goredis_main.Resp.Reader.{ok, read_string, read_line, read_integer}

-- A string without a line feed: what a line can carry.
abbrev pub IsLine : Bytes → Type 0
IsLine s = All (λ c. c ≢ 10) s

read_string-crlf :
    (s rest : Bytes) → IsLine s → read_string (s ++ crlf rest) ≡ some (s ++ 13 ∷ 10 ∷ [], rest)
unfolding read_string
read_string-crlf [] rest h = refl
read_string-crlf (c ∷ s) rest h = ground (arith, read_string-crlf s rest h.1)

chop_length : (s : Bytes) → length (s ++ 13 ∷ 10 ∷ []) ≡ length s + 2
chop_length s = omega (arith, length-append s (13 ∷ 10 ∷ []))

pub read_line-crlf : (s rest : Bytes) → IsLine s → read_line (s ++ crlf rest) ≡ ok (s, rest)
unfolding read_line
read_line-crlf s rest h =
    rw (read_string-crlf s rest h, read_line)
      (ground (
        arith,
        chop_length s,
        get_elem?-append_length s 13 (10 ∷ []),
        take-append_length s (13 ∷ 10 ∷ []),
      ))

pub read_integer-crlf :
    (z : ℤ) (rest : Bytes) → IsInt64 z → read_integer (format_int z ++ crlf rest) ≡ ok (z, rest)
unfolding read_integer
read_integer-crlf z rest h =
    rw (read_line-crlf (format_int z) rest (format_int-lacks_lf z), parse_int-format_int z h)

pub read_length-crlf :
    (n : ℕ) (rest : Bytes)
    → n ≤ max_int64
    → read_integer (format_nat n ++ crlf rest) ≡ ok (pos n, rest)
unfolding format_int
read_length-crlf n rest h = read_integer-crlf (pos n) rest (omega arith)
