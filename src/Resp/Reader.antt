-- ===== src/Resp/Reader.antt =====
-- internal/resp/reader.go. The stream is the list of the bytes that are still to come; a read
-- returns what it leaves of them.
pub mod Line
pub mod RoundTrip
pub mod Total
pub mod Shrinks
pub mod Extends
use goredis_main.Prelude.{
  ℕ, zero, suc, ◌-◌, ◌^◌, ◌≤◌, Bool, true, false, ◌||◌, not, List, [], ◌∷◌, Option, none, some,
  Bytes, length, take, drop, get_elem?, ltb, leb, ◌==◌, if◌then◌else◌,
}
use goredis_main.Prelude.Int.{ℤ, pos, negsuc}
use goredis_main.Resp.Value.{
  Value, Values, simple, error, integer, bulk, null_bulk, array, null_array, nil, cons,
}
use goredis_main.Strconv.{parse_int}

-- io.EOF, io.ErrUnexpectedEOF, the reader's own two errors and ParseInt's. `panics` is the run-time
-- panic of `make` at a length that is out of range. `out_of_fuel` has no counterpart in the program.
pub data ReadError : Type 0 where
  eof unexpected_eof malformed unknown_type bad_integer panics out_of_fuel : ReadError

pub data Result {ℓ} (A : Type ℓ) : Type ℓ where
  ok : A → Result A
  err : ReadError → Result A

infixl 5 ◌>>=◌
abbrev pub ◌>>=◌ {ℓ κ} : {A : Type ℓ} {B : Type κ} → Result A → (A → Result B) → Result B
ok a >>= f = f a
err e >>= f = err e

-- The greatest lengths at which make([]Value, n) and make([]byte, n) do not panic, which depend on
-- the platform.
pub record Limits : Type 0 where
  pub max_elems : ℕ
  pub max_bytes : ℕ
  pub elems_fit : max_elems ≤ 2 ^ 63 - 1
  pub bytes_fit : max_bytes ≤ 2 ^ 63 - 1

abbrev push_byte : ℕ → Option (Bytes × Bytes) → Option (Bytes × Bytes)
push_byte c none = none
push_byte c (some (line, rest)) = some (c ∷ line, rest)

-- bufio.Reader.ReadString('\n'): up to and with the delimiter; `none` is io.EOF.
unfoldable pub read_string : Bytes → Option (Bytes × Bytes)
read_string [] = none
read_string (c ∷ s) =
    let more = read_string s in if c == 10 then some (c ∷ [], s) else push_byte c more

abbrev pub is_cr : Option ℕ → Bool
is_cr none = false
is_cr (some c) = c == 13

abbrev chop : Option (Bytes × Bytes) → Result (Bytes × Bytes)
chop none = err eof
chop (some (line, rest)) =
    let n = length line in
    if ltb n 2 || not (is_cr (get_elem? line (n - 2)))
    then err malformed
    else ok (take (n - 2) line, rest)

unfoldable pub read_line : Bytes → Result (Bytes × Bytes)
read_line s = chop (read_string s)

abbrev number : Option ℤ → Bytes → Result (ℤ × Bytes)
number none rest = err bad_integer
number (some n) rest = ok (n, rest)

unfoldable pub read_integer : Bytes → Result (ℤ × Bytes)
read_integer s = do (line, rest) ← read_line s; number (parse_int line) rest

-- io.ReadFull(r.br, buf) into n bytes.
unfoldable pub read_full : ℕ → Bytes → Result (Bytes × Bytes)
read_full n s =
    if leb n (length s)
    then ok (take n s, drop n s)
    else if length s == 0
    then err eof
    else err unexpected_eof

-- The loop of readArray; `next` is Read.
unfoldable pub read_elems : (Bytes → Result (Value × Bytes)) → ℕ → Bytes → Result (Values × Bytes)
read_elems next zero s = ok (nil, s)
read_elems next (suc n) s = do
  (v, s') ← next s
  (vs, rest) ← read_elems next n s'
  ok (cons v vs, rest)

module _ (lim : Limits) where
  unfoldable pub bulk_body : ℤ → Bytes → Result (Value × Bytes)
  bulk_body (negsuc n) s = ok (null_bulk, s)
  bulk_body (pos n) s =
      if ltb lim.max_bytes n
      then err panics
      else do (buf, s') ← read_full n s; (ignored, rest) ← read_line s'; ok (bulk buf, rest)

  unfoldable pub read_bulk : Bytes → Result (Value × Bytes)
  unfolding bulk_body
  read_bulk s = do (n, rest) ← read_integer s; bulk_body n rest

  unfoldable pub array_body : (Bytes → Result (Value × Bytes)) → ℤ → Bytes → Result (Value × Bytes)
  array_body next (negsuc n) s = ok (null_array, s)
  array_body next (pos n) s =
      if ltb lim.max_elems n
      then err panics
      else do (vs, rest) ← read_elems next n s; ok (array false vs, rest)

  unfoldable pub read_array : (Bytes → Result (Value × Bytes)) → Bytes → Result (Value × Bytes)
  unfolding array_body
  read_array next s = do (n, rest) ← read_integer s; array_body next n rest

  -- The switch of Read on the type byte.
  unfoldable pub read_typed : (Bytes → Result (Value × Bytes)) → ℕ → Bytes → Result (Value × Bytes)
  unfolding read_array read_bulk
  read_typed next typ s =
      if typ == b'*'
      then read_array next s
      else if typ == b'$'
      then read_bulk s
      else if typ == b'+'
      then (do (line, rest) ← read_line s; ok (simple line, rest))
      else if typ == b'-'
      then (do (line, rest) ← read_line s; ok (error line, rest))
      else if typ == b':'
      then (do (n, rest) ← read_integer s; ok (integer n, rest))
      else err unknown_type

  -- Read calls itself for the elements of an array; each level of nesting takes one unit of fuel.
  unfoldable pub read : ℕ → Bytes → Result (Value × Bytes)
  unfolding read_typed
  read zero s = err out_of_fuel
  read (suc f) [] = err eof
  read (suc f) (typ ∷ s) = read_typed (read f) typ s

  -- Read with fuel for any input.
  unfoldable pub read_frame : Bytes → Result (Value × Bytes)
  unfolding read
  read_frame s = read (suc (length s)) s
