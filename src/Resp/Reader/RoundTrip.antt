-- ===== src/Resp/Reader/RoundTrip.antt =====
-- What Marshal wrote, Read reads back.
use mathlib.Core.List.{append_assoc}
use goredis_main.Prelude.{
  ℕ, zero, suc, ◌≤◌, ◌<◌, ◌≡◌, refl, true, false, [], ◌++◌, Bytes, arith, length, length-append,
  take-append_length, drop-append_length, ge→ltb,
}
use goredis_main.Prelude.Int.{ℤ}
use goredis_main.Machine.{IsInt64, max_int64}
use goredis_main.Strconv.{format_int, format_nat, parse_int, parse_uint, scan_digits}
use goredis_main.Resp.Value.{
  Value, Values, simple, error, integer, bulk, null_bulk, array, null_array, nil, cons, count,
}
use goredis_main.Resp.Marshal.{crlf, marshal_line, marshal_bulk, marshal, marshal_elems}
use goredis_main.Resp.Reader.{
  Limits, Result, ok, read_string, read_line, read_integer, read_full, read_bulk, read_elems, read,
  read_frame,
}
use goredis_main.Resp.Reader.Line.{IsLine, read_line-crlf, read_integer-crlf, read_length-crlf}

-- The frames that fit the wire: no line feed in a simple string or an error, lengths that `make`
-- takes, and no bundle.
abbrev mutual
  pub Fits : Limits → Value → Type 0
  Fits lim (simple s) = IsLine s
  Fits lim (error s) = IsLine s
  Fits lim (integer n) = IsInt64 n
  Fits lim (bulk s) = length s ≤ lim.max_bytes
  Fits lim null_bulk = Unit
  Fits lim (array multi vs) = (multi ≡ false) × (count vs ≤ lim.max_elems) × FitsAll lim vs
  Fits lim null_array = Unit

  pub FitsAll : Limits → Values → Type 0
  FitsAll lim nil = Unit
  FitsAll lim (cons v vs) = Fits lim v × FitsAll lim vs

read_elems-cons :
    (next : Bytes → Result (Value × Bytes)) (n : ℕ) {v : Value} {vs : Values} {s s' rest : Bytes}
    → next s ≡ ok (v, s')
    → read_elems next n s' ≡ ok (vs, rest)
    → read_elems next (suc n) s ≡ ok (cons v vs, rest)
unfolding read_elems
read_elems-cons next n p q = rw (p, q)

module _ (lim : Limits) where
  read_bulk-marshal :
      (s rest : Bytes)
      → length s ≤ lim.max_bytes
      → read_bulk lim (format_nat (length s) ++ crlf (s ++ crlf rest)) ≡ ok (bulk s, rest)
  unfolding read_bulk read_full
  read_bulk-marshal s rest h =
      let fits : length s ≤ max_int64 = omega (arith, h, lim.bytes_fit) in
      rw (read_length-crlf (length s) (s ++ crlf rest) fits, ge→ltb lim.max_bytes (length s) h)
        (ground (
          arith,
          length-append s (crlf rest),
          take-append_length s (crlf rest),
          drop-append_length s (crlf rest),
          read_line-crlf [] rest tt,
        ))

  -- `next` reads `v` off the front of its input.
  abbrev Reads : (Bytes → Result (Value × Bytes)) → Value → Type 0
  Reads next v = (rest : Bytes) → next (marshal v ++ rest) ≡ ok (v, rest)

  abbrev ReadsAll : (Bytes → Result (Value × Bytes)) → Values → Type 0
  ReadsAll next vs =
      (rest : Bytes) → read_elems next (count vs) (marshal_elems vs ++ rest) ≡ ok (vs, rest)

  read-line :
      (f : ℕ) (s rest : Bytes)
      → IsLine s
      → (read lim (suc f) (marshal_line b'+' s ++ rest) ≡ ok (simple s, rest))
        × (read lim (suc f) (marshal_line b'-' s ++ rest) ≡ ok (error s, rest))
  unfolding read marshal_line
  read-line f s rest h = rw (append_assoc, read_line-crlf s rest h) (refl, refl)

  read-integer :
      (f : ℕ) (n : ℤ) (rest : Bytes)
      → IsInt64 n
      → read lim (suc f) (marshal_line b':' (format_int n) ++ rest) ≡ ok (integer n, rest)
  unfolding read marshal_line
  read-integer f n rest h = rw (append_assoc, read_integer-crlf n rest h)

  read-bulk :
      (f : ℕ) (s rest : Bytes)
      → length s ≤ lim.max_bytes
      → read lim (suc f) (marshal_bulk s ++ rest) ≡ ok (bulk s, rest)
  unfolding read marshal_bulk
  read-bulk f s rest h = rw (append_assoc, append_assoc) (read_bulk-marshal s rest h)

  read-null :
      (f : ℕ) (rest : Bytes)
      → (read lim (suc f) (marshal null_bulk ++ rest) ≡ ok (null_bulk, rest))
        × (read lim (suc f) (marshal null_array ++ rest) ≡ ok (null_array, rest))
  unfolding read marshal read_integer read_line read_string parse_int parse_uint scan_digits
  read-null f rest = (refl, refl)

  read-array :
      (f : ℕ) (vs : Values) (rest : Bytes)
      → count vs ≤ lim.max_elems
      → ReadsAll (read lim f) vs
      → read lim (suc f) (marshal (array false vs) ++ rest) ≡ ok (array false vs, rest)
  unfolding read marshal
  read-array f vs rest h all =
      let fits : count vs ≤ max_int64 = omega (arith, h, lim.elems_fit) in
      rw append_assoc (
        rw (
          read_length-crlf (count vs) (marshal_elems vs ++ rest) fits,
          ge→ltb lim.max_elems (count vs) h,
          all rest,
        ))

  -- Fuel above a bound is a successor.
  with_fuel {κ} :
      {n : ℕ} (P : ℕ → Type κ) → ((f : ℕ) → n < suc f → P (suc f)) → (f : ℕ) → n < f → P f
  with_fuel P k zero h = absurd (omega arith)
  with_fuel P k (suc f) h = k f h

  mutual
    unfolding marshal read_elems

    read-marshal : (v : Value) (f : ℕ) → Fits lim v → length (marshal v) < f → Reads (read lim f) v
    read-marshal (simple s) f fits h rest =
        with_fuel (λ f. read lim f (marshal_line b'+' s ++ rest) ≡ ok (simple s, rest))
          (λ f _. (read-line f s rest fits).0) f h
    read-marshal (error s) f fits h rest =
        with_fuel (λ f. read lim f (marshal_line b'-' s ++ rest) ≡ ok (error s, rest))
          (λ f _. (read-line f s rest fits).1) f h
    read-marshal (integer n) f fits h rest =
        with_fuel
          (λ f. read lim f (marshal_line b':' (format_int n) ++ rest) ≡ ok (integer n, rest))
          (λ f _. read-integer f n rest fits) f h
    read-marshal (bulk s) f fits h rest =
        with_fuel (λ f. read lim f (marshal (bulk s) ++ rest) ≡ ok (bulk s, rest))
          (λ f _. read-bulk f s rest fits) f h
    read-marshal null_bulk f fits h rest =
        with_fuel (λ f. read lim f (marshal null_bulk ++ rest) ≡ ok (null_bulk, rest))
          (λ f _. (read-null f rest).0) f h
    read-marshal (array true vs) f fits h rest = cc (fits.0)
    read-marshal (array false vs) f fits h rest =
        with_fuel (λ f. read lim f (marshal (array false vs) ++ rest) ≡ ok (array false vs, rest))
          (λ f h'. read-array f vs rest fits.1 (read_elems-marshal vs f fits.2 (shorter f h'))) f h
      where
        shorter :
            (f : ℕ) → length (marshal (array false vs)) < suc f → length (marshal_elems vs) < f
        shorter f h' =
            omega (arith, h', length-append (format_nat (count vs)) (crlf (marshal_elems vs)))
    read-marshal null_array f fits h rest =
        with_fuel (λ f. read lim f (marshal null_array ++ rest) ≡ ok (null_array, rest))
          (λ f _. (read-null f rest).1) f h

    read_elems-marshal :
        (vs : Values) (f : ℕ)
        → FitsAll lim vs
        → length (marshal_elems vs) < f
        → ReadsAll (read lim f) vs
    read_elems-marshal nil f fits h rest = refl
    read_elems-marshal (cons v vs) f fits h rest =
        let total = length-append (marshal v) (marshal_elems vs) in
        let first = read-marshal v f fits.0 (omega (arith, total)) (marshal_elems vs ++ rest) in
        let others = read_elems-marshal vs f fits.1 (omega (arith, total)) rest in
        rw append_assoc (read_elems-cons (read lim f) (count vs) first others)

-- A frame that fits the wire is read back from its own bytes, whatever follows them in the stream,
-- and the reader stops at the end of the frame.
pub read_frame-marshal :
    (lim : Limits) (v : Value) (rest : Bytes)
    → Fits lim v
    → read_frame lim (marshal v ++ rest) ≡ ok (v, rest)
unfolding read_frame
read_frame-marshal lim v rest fits =
    read-marshal lim v (suc (length (marshal v ++ rest))) fits
      (omega (arith, length-append (marshal v) rest)) rest

-- Two frames that fit the wire are equal if their bytes are.
pub marshal-injective :
    (lim : Limits) (v w : Value) → Fits lim v → Fits lim w → marshal v ≡ marshal w → v ≡ w
marshal-injective lim v w fv fw e =
    cc (read_frame-marshal lim v [] fv, read_frame-marshal lim w [] fw)
