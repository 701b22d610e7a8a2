-- ===== src/Resp/Reader/Extends.antt =====
-- internal/resp/reader.go: a frame with more bytes after it, or without its last ones.
use goredis_main.Prelude.{
  ℕ, zero, suc, ◌-◌, not, ◌||◌, get_elem?, ◌≤◌, ◌<◌, ◌≡◌, refl, sym, ap, subst, ◌∙◌, ◌⊎◌, ◌≢◌, Bool,
  true, false, [], ◌∷◌, ◌++◌, Option, none, some, Bytes, arith, length, length-append, take, drop,
  ltb, leb, ◌==◌, Bool-cases, inl, inr, if◌then◌else◌,
}
use goredis_main.Prelude.Int.{ℤ, pos, negsuc}
use goredis_main.Strconv.{parse_int}
use goredis_main.Resp.Value.{Value}
use goredis_main.Resp.Marshal.{marshal}
use goredis_main.Resp.Reader.{
  Limits, ReadError, Result, ok, err, eof, unexpected_eof, malformed, unknown_type, bad_integer,
  panics, out_of_fuel, is_cr, push_byte, chop, number, ◌>>=◌, read_string, read_line, read_integer,
  read_full, bulk_body, read_bulk, read_elems, array_body, read_array, read_typed, read, read_frame,
}
use goredis_main.Resp.Reader.Shrinks.{Shrinks, stopped, read_frame-Shrinks}
use goredis_main.Resp.Reader.RoundTrip.{Fits, read_frame-marshal}

-- The errors of a read that came to the end of the stream, or of the fuel.
abbrev Short : ReadError → Type 0
Short eof = Unit
Short unexpected_eof = Unit
Short out_of_fuel = Unit
Short malformed = ⊥
Short unknown_type = ⊥
Short bad_integer = ⊥
Short panics = ⊥

-- A read that returned gives the same with `t` after its input, and leaves `t` too; so does one that
-- failed before the end of its input.
pub data Extends {ℓ} {A : Type ℓ} (t : Bytes)
    : Result (A × Bytes) → Result (A × Bytes) → Type ℓ where
  same : (a : A) (rest : Bytes) → Extends t (ok (a, rest)) (ok (a, rest ++ t))
  stops : (e : ReadError) → Short e → (m : Result (A × Bytes)) → Extends t (err e) m
  wrong : (e : ReadError) → Extends t (err e) (err e)

bind-Extends {ℓ κ} :
    {A : Type ℓ} {B : Type κ} {t : Bytes} {m m' : Result (A × Bytes)}
    (f g : A × Bytes → Result (B × Bytes))
    → Extends t m m'
    → ((a : A) (rest : Bytes) → Extends t (f (a, rest)) (g (a, rest ++ t)))
    → Extends t (m >>= f) (m' >>= g)
bind-Extends f g (same a rest) next = next a rest
bind-Extends f g (stops e short m) next = stops e short _
bind-Extends f g (wrong e) next = wrong e

-- Both branches of a test that the two reads share.
if-Extends {ℓ} :
    {A : Type ℓ} (t : Bytes) (b : Bool) {x y x' y' : Result (A × Bytes)}
    → Extends t x x'
    → Extends t y y'
    → Extends t (if b then x else y) (if b then x' else y')
if-Extends t true h k = h
if-Extends t false h k = k

data LineExtends (t : Bytes) : Option (Bytes × Bytes) → Option (Bytes × Bytes) → Type 0 where
  found : (l rest : Bytes) → LineExtends t (some (l, rest)) (some (l, rest ++ t))
  ended : (m : Option (Bytes × Bytes)) → LineExtends t none m

push_byte-LineExtends :
    (t : Bytes) (c : ℕ) {m m' : Option (Bytes × Bytes)}
    → LineExtends t m m'
    → LineExtends t (push_byte c m) (push_byte c m')
push_byte-LineExtends t c (found l rest) = found (c ∷ l) rest
push_byte-LineExtends t c (ended m) = ended _

read_string-LineExtends : (t s : Bytes) → LineExtends t (read_string s) (read_string (s ++ t))
unfolding read_string
read_string-LineExtends t [] = ended _
read_string-LineExtends t (c ∷ s) = elim (Bool-cases (c == 10)) [
  | inl e ↦ rw e (found (c ∷ []) s)
  | inr e ↦ rw e (push_byte-LineExtends t c (read_string-LineExtends t s))
]

chop-Extends :
    (t : Bytes) {m m' : Option (Bytes × Bytes)} → LineExtends t m m' → Extends t (chop m) (chop m')
chop-Extends t (found l rest) =
    if-Extends t (ltb (length l) 2 || not (is_cr (get_elem? l (length l - 2)))) (wrong _)
      (same _ rest)
chop-Extends t (ended m) = stops _ tt _

read_line-Extends : (t s : Bytes) → Extends t (read_line s) (read_line (s ++ t))
unfolding read_line
read_line-Extends t s = chop-Extends t (read_string-LineExtends t s)

number-Extends :
    (t : Bytes) (o : Option ℤ) (rest : Bytes) → Extends t (number o rest) (number o (rest ++ t))
number-Extends t none rest = wrong _
number-Extends t (some n) rest = same n rest

read_integer-Extends : (t s : Bytes) → Extends t (read_integer s) (read_integer (s ++ t))
unfolding read_integer
read_integer-Extends t s =
    bind-Extends _ _ (read_line-Extends t s) (λ line rest. number-Extends t (parse_int line) rest)

take-append : (n : ℕ) (s t : Bytes) → n ≤ length s → take n (s ++ t) ≡ take n s
take-append zero s t h = refl
take-append (suc n) [] t h = absurd (omega arith)
take-append (suc n) (c ∷ s) t h = ap (◌∷◌ c) (take-append n s t (omega arith))

drop-append : (n : ℕ) (s t : Bytes) → n ≤ length s → drop n (s ++ t) ≡ drop n s ++ t
drop-append zero s t h = refl
drop-append (suc n) [] t h = absurd (omega arith)
drop-append (suc n) (c ∷ s) t h = drop-append n s t (omega arith)

read_full-Extends : (n : ℕ) (t s : Bytes) → Extends t (read_full n s) (read_full n (s ++ t))
unfolding read_full
read_full-Extends n t s = elim (Bool-cases (leb n (length s))) [
  | inl e ↦
      let fits : n ≤ length s = ground (arith, e) in
      let longer : leb n (length (s ++ t)) ≡ true = ground (arith, length-append s t, fits) in
      rw (e, longer, take-append n s t fits, drop-append n s t fits) (same _ _)
  | inr e ↦ rw e (if-stops (length s == 0) _)
]
  where
    if-stops :
        (b : Bool) (m : Result (Bytes × Bytes))
        → Extends t (if b then err eof else err unexpected_eof) m
    if-stops true m = stops _ tt m
    if-stops false m = stops _ tt m

read_elems-Extends :
    (t : Bytes) (next next' : Bytes → Result (Value × Bytes))
    → ((s : Bytes) → Extends t (next s) (next' (s ++ t)))
    → (n : ℕ) (s : Bytes) → Extends t (read_elems next n s) (read_elems next' n (s ++ t))
unfolding read_elems
read_elems-Extends t next next' h zero s = same _ s
read_elems-Extends t next next' h (suc n) s = bind-Extends _ _ (h s) (λ v rest.
    bind-Extends _ _ (read_elems-Extends t next next' h n rest) (λ vs rest'. same _ rest'))

module _ (lim : Limits) (t : Bytes) where
  bulk_body-Extends : (n : ℤ) (s : Bytes) → Extends t (bulk_body lim n s) (bulk_body lim n (s ++ t))
  unfolding bulk_body
  bulk_body-Extends (negsuc n) s = same _ s
  bulk_body-Extends (pos n) s = if-Extends t (ltb lim.max_bytes n) (wrong _) (
      bind-Extends _ _ (read_full-Extends n t s)
        (λ buf rest. bind-Extends _ _ (read_line-Extends t rest) (λ ignored rest'. same _ rest')))

  module _ (next next' : Bytes → Result (Value × Bytes))
      (h : (s : Bytes) → Extends t (next s) (next' (s ++ t))) where
    array_body-Extends :
        (n : ℤ) (s : Bytes) → Extends t (array_body lim next n s) (array_body lim next' n (s ++ t))
    unfolding array_body
    array_body-Extends (negsuc n) s = same _ s
    array_body-Extends (pos n) s =
        if-Extends t (ltb lim.max_elems n) (wrong _)
          (bind-Extends _ _ (read_elems-Extends t next next' h n s) (λ vs rest. same _ rest))

    read_typed-Extends :
        (typ : ℕ) (s : Bytes)
        → Extends t (read_typed lim next typ s) (read_typed lim next' typ (s ++ t))
    unfolding read_typed read_array read_bulk
    read_typed-Extends typ s =
        if-Extends t (typ == b'*')
          (bind-Extends _ _ (read_integer-Extends t s) (λ n rest. array_body-Extends n rest))
          (if-Extends t (typ == b'$')
            (bind-Extends _ _ (read_integer-Extends t s) (λ n rest. bulk_body-Extends n rest))
            (if-Extends t (typ == b'+')
              (bind-Extends _ _ (read_line-Extends t s) (λ line rest. same _ rest))
              (if-Extends t (typ == b'-')
                (bind-Extends _ _ (read_line-Extends t s) (λ line rest. same _ rest))
                (if-Extends t (typ == b':')
                  (bind-Extends _ _ (read_integer-Extends t s) (λ n rest. same _ rest))
                  (wrong _)))))

  read-Extends : (f g : ℕ) (s : Bytes) → f ≤ g → Extends t (read lim f s) (read lim g (s ++ t))
  unfolding read
  read-Extends zero g s h = stops _ tt _
  read-Extends (suc f) zero s h = absurd (omega arith)
  read-Extends (suc f) (suc g) [] h = stops _ tt _
  read-Extends (suc f) (suc g) (typ ∷ s) h =
      read_typed-Extends (read lim f) (read lim g) (λ s'. read-Extends f g s' (omega arith)) typ s

  read_frame-Extends : (s : Bytes) → Extends t (read_frame lim s) (read_frame lim (s ++ t))
  unfolding read_frame
  read_frame-Extends s =
      read-Extends (suc (length s)) (suc (length (s ++ t))) s (omega (arith, length-append s t))

extended :
    {A : Type 0} {t : Bytes} {m m' : Result (A × Bytes)} (a : A) (rest : Bytes)
    → Extends t m m'
    → m ≡ ok (a, rest)
    → m' ≡ ok (a, rest ++ t)
extended {t = t} a rest (same b rest') e = ap (λ r. ok (r.0, r.1 ++ t)) (ok_inj e)
  where
    ok_inj : {B : Type 0} {x y : B} → ok x ≡ ok y → x ≡ y
    ok_inj h = cc
extended a rest (stops b short m) e = cc
extended a rest (wrong b) e = cc

-- A frame that was read from the front of a stream is read the same way however the stream goes on.
pub read_frame-append :
    (lim : Limits) (s t rest : Bytes) (v : Value)
    → read_frame lim s ≡ ok (v, rest)
    → read_frame lim (s ++ t) ≡ ok (v, rest ++ t)
read_frame-append lim s t rest v e = extended v rest (read_frame-Extends lim t s) e

append_nil : (xs : Bytes) → xs ++ [] ≡ xs
append_nil [] = refl
append_nil (x ∷ xs) = ap (◌∷◌ x) (append_nil xs)

abbrev returns : Value → Bytes → Result (Value × Bytes)
returns v rest = ok (v, rest)

leftover : {v w : Value} {x y : Bytes} → returns v x ≡ returns w y → x ≡ y
leftover h = cc

-- An error that more bytes would have averted.
averted :
    {A : Type 0} {t : Bytes} {m m' : Result (A × Bytes)} (e : ReadError) (a : A) (rest : Bytes)
    → Extends t m m'
    → m ≡ err e
    → m' ≡ ok (a, rest)
    → Short e
averted e a rest (same b rest') h k = cc
averted {A} {t} {m} {m'} e a rest (stops b short n) h k = subst Short (err_inj h) short
  where
    failing : ReadError → Result (A × Bytes)
    failing x = err x

    err_inj : {x y : ReadError} → failing x ≡ failing y → x ≡ y
    err_inj g = cc
averted e a rest (wrong b) h k = cc

at_the_end : (e : ReadError) → Short e → e ≢ out_of_fuel → (e ≡ eof) ⊎ (e ≡ unexpected_eof)
at_the_end eof short fuel = inl refl
at_the_end unexpected_eof short fuel = inr refl
at_the_end out_of_fuel short fuel = absurd (fuel refl)
at_the_end malformed short fuel = absurd short
at_the_end unknown_type short fuel = absurd short
at_the_end bad_integer short fuel = absurd short
at_the_end panics short fuel = absurd short

-- The read of a frame that fits the wire, from a part of its bytes that is cut off before the end, fails
-- with io.EOF or io.ErrUnexpectedEOF.
pub torn-read_frame :
    (lim : Limits) (v : Value) (part missing : Bytes)
    → Fits lim v
    → marshal v ≡ part ++ missing
    → 0 < length missing
    → (read_frame lim part ≡ err eof) ⊎ (read_frame lim part ≡ err unexpected_eof)
torn-read_frame lim v part missing fits cut more =
    failed (read_frame lim part) refl (read_frame-Shrinks lim part)
  where
    exact : read_frame lim (part ++ missing) ≡ ok (v, [])
    exact =
        ap (read_frame lim) (sym (append_nil (marshal v) ∙ cut)) ∙ read_frame-marshal lim v [] fits

    -- A frame in the part would leave the missing bytes unread.
    whole :
        (w : Value) (rest : Bytes)
        → read_frame lim part ≡ ok (w, rest)
        → length (rest ++ missing) ≡ 0
    whole w rest e =
        let longer = read_frame-append lim part missing rest w e in
        ap length (leftover (sym longer ∙ exact))

    failed :
        (r : Result (Value × Bytes))
        → read_frame lim part ≡ r
        → Shrinks part r
        → (read_frame lim part ≡ err eof) ⊎ (read_frame lim part ≡ err unexpected_eof)
    failed (err e) h (stopped _ fuel) =
        elim (at_the_end e (averted e v [] (read_frame-Extends lim missing part) h exact) fuel) [
          | inl at_eof ↦ inl (h ∙ ap (λ x. err x) at_eof)
          | inr within ↦ inr (h ∙ ap (λ x. err x) within)
        ]
    failed (ok (w, rest)) h ends =
        absurd (omega (arith, whole w rest h, length-append rest missing, more))
