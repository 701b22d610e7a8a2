-- ===== src/Resp/Reader/Total.antt =====
-- The fuel of `read_frame` is enough for every input, and a read never gives back more than it got.
use goredis_main.Prelude.{
  ℕ, zero, suc, ◌-◌, ◌≤◌, ◌<◌, ◌≡◌, ◌≢◌, refl, Bool, true, false, not, ◌||◌, [], ◌∷◌, Option, none,
  some, Bytes, arith, length, length-drop, drop, get_elem?, ltb, leb, ◌==◌, Bool-cases, inl, inr,
  if◌then◌else◌,
}
use goredis_main.Prelude.Int.{ℤ, pos, negsuc}
use goredis_main.Strconv.{parse_int}
use goredis_main.Resp.Value.{Value, integer}
use goredis_main.Resp.Reader.{
  Limits, ReadError, Result, ok, err, eof, unexpected_eof, malformed, unknown_type, bad_integer,
  panics, is_cr, push_byte, chop, number, out_of_fuel, ◌>>=◌, read_string, read_line, read_integer,
  read_full, bulk_body, read_bulk, read_elems, array_body, read_array, read_typed, read, read_frame,
}

-- The run kept within its fuel, and left at most n bytes if it returned a value.
pub data Ends {ℓ} {A : Type ℓ} (n : ℕ) : Result (A × Bytes) → Type ℓ where
  left : (a : A) (rest : Bytes) → length rest ≤ n → Ends n (ok (a, rest))
  failed : (e : ReadError) → e ≢ out_of_fuel → Ends n (err e)

module _ {ℓ κ} {A : Type ℓ} {B : Type κ} where
  Ends-bind :
      {n k : ℕ} (m : Result (A × Bytes)) (f : A × Bytes → Result (B × Bytes))
      → Ends n m
      → ((a : A) (rest : Bytes) → length rest ≤ n → Ends k (f (a, rest)))
      → Ends k (m >>= f)
  Ends-bind _ f (left a rest h) next = next a rest h
  Ends-bind _ f (failed e h) next = failed e h

module _ {ℓ} {A : Type ℓ} where
  Ends-if :
      {n : ℕ} (b : Bool) {x y : Result (A × Bytes)}
      → Ends n x
      → (b ≡ false → Ends n y)
      → Ends n (if b then x else y)
  Ends-if true hx hy = hx
  Ends-if false hx hy = hy refl

  Ends-mono : {n k : ℕ} {r : Result (A × Bytes)} → n ≤ k → Ends n r → Ends k r
  Ends-mono h (left a rest l) = left a rest (omega arith)
  Ends-mono h (failed e l) = failed e l

  -- Within its fuel.
  Ends-fuel : {n : ℕ} {r : Result (A × Bytes)} → Ends n r → r ≢ err out_of_fuel
  Ends-fuel (left a rest l) e = cc
  Ends-fuel (failed e l) e' = l (cc)

abbrev Leaves : ℕ → Option (Bytes × Bytes) → Type 0
Leaves n none = Unit
Leaves n (some (line, rest)) = length rest ≤ n

push_byte-Leaves :
    (n c : ℕ) (o : Option (Bytes × Bytes)) → Leaves n o → Leaves (suc n) (push_byte c o)
push_byte-Leaves n c none h = tt
push_byte-Leaves n c (some (line, rest)) h = omega arith

read_string-Leaves : (s : Bytes) → Leaves (length s) (read_string s)
unfolding read_string
read_string-Leaves [] = tt
read_string-Leaves (c ∷ s) = elim (Bool-cases (c == 10)) [
  | inl e ↦ rw e (omega arith)
  | inr e ↦ rw e (push_byte-Leaves (length s) c (read_string s) (read_string-Leaves s))
]

chop-Ends : (n : ℕ) (o : Option (Bytes × Bytes)) → Leaves n o → Ends n (chop o)
chop-Ends n none h = failed eof (λ e. cc)
chop-Ends n (some (line, rest)) h =
    Ends-if (ltb (length line) 2 || not (is_cr (get_elem? line (length line - 2))))
      (failed malformed (λ e. cc)) (λ _. left _ rest h)

read_line-Ends : (s : Bytes) → Ends (length s) (read_line s)
unfolding read_line
read_line-Ends s = chop-Ends (length s) (read_string s) (read_string-Leaves s)

number-Ends : (n : ℕ) (o : Option ℤ) (rest : Bytes) → length rest ≤ n → Ends n (number o rest)
number-Ends n none rest h = failed bad_integer (λ e. cc)
number-Ends n (some z) rest h = left z rest h

read_integer-Ends : (s : Bytes) → Ends (length s) (read_integer s)
unfolding read_integer
read_integer-Ends s =
    Ends-bind (read_line s) _ (read_line-Ends s)
      λ line rest h. number-Ends (length s) (parse_int line) rest h

read_full-Ends : (n : ℕ) (s : Bytes) → Ends (length s) (read_full n s)
unfolding read_full
read_full-Ends n s = elim (Bool-cases (leb n (length s))) [
  | inl e ↦ rw e (left _ (drop n s) (omega (arith, length-drop n s)))
  | inr e ↦
      rw e (Ends-if (length s == 0) (failed eof (λ e. cc)) (λ _. failed unexpected_eof (λ e. cc)))
]

module _ (lim : Limits) where
  bulk_body-Ends : (n : ℤ) (s : Bytes) → Ends (length s) (bulk_body lim n s)
  unfolding bulk_body
  bulk_body-Ends (negsuc n) s = left _ s (omega arith)
  bulk_body-Ends (pos n) s = Ends-if (ltb lim.max_bytes n) (failed panics (λ e. cc)) λ _.
      Ends-bind (read_full n s) _ (read_full-Ends n s) λ buf s' h.
        Ends-bind (read_line s') _ (read_line-Ends s') λ ignored rest h'. left _ rest (omega arith)

  read_elems-Ends :
      (next : Bytes → Result (Value × Bytes)) (k : ℕ)
      → ((s : Bytes) → length s ≤ k → Ends (length s) (next s))
      → (n : ℕ) (s : Bytes) → length s ≤ k
      → Ends (length s) (read_elems next n s)
  unfolding read_elems
  read_elems-Ends next k each zero s h = left _ s (omega arith)
  read_elems-Ends next k each (suc n) s h = Ends-bind (next s) _ (each s h) λ v s' h'.
      Ends-bind (read_elems next n s') _ (read_elems-Ends next k each n s' (omega arith))
        λ vs rest h''. left _ rest (omega arith)

  array_body-Ends :
      (next : Bytes → Result (Value × Bytes)) (k : ℕ)
      → ((s : Bytes) → length s ≤ k → Ends (length s) (next s))
      → (n : ℤ) (s : Bytes) → length s ≤ k
      → Ends (length s) (array_body lim next n s)
  unfolding array_body
  array_body-Ends next k each (negsuc n) s h = left _ s (omega arith)
  array_body-Ends next k each (pos n) s h =
      Ends-if (ltb lim.max_elems n) (failed panics (λ e. cc)) λ _.
        Ends-bind (read_elems next n s) _ (read_elems-Ends next k each n s h)
          λ vs rest h'. left _ rest h'

  read_typed-Ends :
      (next : Bytes → Result (Value × Bytes)) (typ : ℕ) (s : Bytes)
      → ((t : Bytes) → length t ≤ length s → Ends (length t) (next t))
      → Ends (length s) (read_typed lim next typ s)
  unfolding read_typed
  read_typed-Ends next typ s each = Ends-if (typ == b'*') array_Ends λ _.
      Ends-if (typ == b'$') bulk_Ends λ _. Ends-if (typ == b'+') (line_Ends _) λ _.
        Ends-if (typ == b'-') (line_Ends _)
          λ _. Ends-if (typ == b':') integer_Ends λ _. failed unknown_type (λ e. cc)
    where
      array_Ends : Ends (length s) (read_array lim next s)
      array_Ends =
          Ends-bind (read_integer s) _ (read_integer-Ends s)
            λ n rest h. Ends-mono h (array_body-Ends next (length s) each n rest h)

      bulk_Ends : Ends (length s) (read_bulk lim s)
      bulk_Ends =
          Ends-bind (read_integer s) _ (read_integer-Ends s)
            λ n rest h. Ends-mono h (bulk_body-Ends n rest)

      line_Ends : (f : Bytes → Value) → Ends (length s) (read_line s >>= λ p. ok (f p.0, p.1))
      line_Ends f = Ends-bind (read_line s) _ (read_line-Ends s) λ line rest h. left _ rest h

      integer_Ends : Ends (length s) (read_integer s >>= λ p. ok (integer p.0, p.1))
      integer_Ends = Ends-bind (read_integer s) _ (read_integer-Ends s) λ n rest h. left _ rest h

  read-Ends : (f : ℕ) (s : Bytes) → length s < f → Ends (length s - 1) (read lim f s)
  unfolding read
  read-Ends zero s h = elim h [ ]
  read-Ends (suc f) [] h = failed eof (λ e. cc)
  read-Ends (suc f) (typ ∷ s) h = Ends-mono (omega arith) (
      read_typed-Ends (read lim f) typ s
        λ t h'. Ends-mono (omega arith) (read-Ends f t (omega arith)))

  -- Whatever the bytes, the fuel of read_frame suffices: a read returns a frame or one of the
  -- program's errors, and a frame takes at least one byte of a stream that is not empty.
  pub read_frame-Ends : (s : Bytes) → Ends (length s - 1) (read_frame lim s)
  unfolding read_frame
  read_frame-Ends s = read-Ends (suc (length s)) s (omega arith)
