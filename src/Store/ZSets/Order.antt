-- ===== src/Store/ZSets/Order.antt =====
-- internal/store/zset.go: the comparison that sort.Slice is given.
use goredis_main.Prelude.{
  Bool-cases, ap, ◌⊎◌, inl, inr, bytes_eq, bytes_eq_iff, ℕ, ◌≡◌, refl, sym, ◌∙◌, Bool, true, false,
  not, ◌&&◌, ◌||◌, [], ◌∷◌, Bytes, arith, if◌then◌else◌,
}
use goredis_main.Prelude.Int.{eq_of_parts, ℤ, ◌<ℤ◌, ltb_ℤ}
use goredis_main.Store.Float.{float_lt, float_ne, float_rank, is_nan}
use goredis_main.Store.ZSets.{ZMember, bytes_lt, before}

bytes_lt_asym : (s t : Bytes) → bytes_lt s t ≡ true → bytes_lt t s ≡ false
unfolding bytes_lt
bytes_lt_asym [] [] h = refl
bytes_lt_asym [] (d ∷ t) h = refl
bytes_lt_asym (c ∷ s) [] h = cc
bytes_lt_asym (c ∷ s) (d ∷ t) h = ground (arith, bytes_lt_asym s t)

bytes_ge_trans :
    (s t u : Bytes) → bytes_lt s t ≡ false → bytes_lt t u ≡ false → bytes_lt s u ≡ false
unfolding bytes_lt
bytes_ge_trans [] t [] h k = refl
bytes_ge_trans (c ∷ s) t [] h k = refl
bytes_ge_trans [] [] (e ∷ u) h k = cc
bytes_ge_trans [] (d ∷ t) (e ∷ u) h k = cc
bytes_ge_trans (c ∷ s) [] (e ∷ u) h k = cc
bytes_ge_trans (c ∷ s) (d ∷ t) (e ∷ u) h k = ground (arith, bytes_ge_trans s t u)

-- No score is a NaN.
abbrev pub Numeric : ZMember → Type 0
Numeric m = is_nan m.1 ≡ false

-- `before` on the ranks of the two scores.
lex : ℤ → Bytes → ℤ → Bytes → Bool
lex a m b n = ltb_ℤ a b || (not (ltb_ℤ b a) && bytes_lt m n)

before-lex :
    (m n : Bytes) (x y : ℕ)
    → is_nan x ≡ false
    → is_nan y ≡ false
    → before (m, x) (n, y) ≡ lex (float_rank x) m (float_rank y) n
unfolding before float_ne float_lt lex
before-lex m n x y hx hy = rw (hx, hy) (by_ranks (float_rank x) (float_rank y))
  where
    by_ranks :
        (a b : ℤ)
        → (if not (not (ltb_ℤ a b) && not (ltb_ℤ b a)) then ltb_ℤ a b else bytes_lt m n)
          ≡ (ltb_ℤ a b || (not (ltb_ℤ b a) && bytes_lt m n))
    by_ranks a b = ground arith

lex_asym : (a b : ℤ) (m n : Bytes) → lex a m b n ≡ true → lex b n a m ≡ false
unfolding lex
lex_asym a b m n h = ground (arith, bytes_lt_asym m n)

lex_trans :
    (a b c : ℤ) (m n o : Bytes) → lex a m b n ≡ false → lex b n c o ≡ false → lex a m c o ≡ false
unfolding lex
lex_trans a b c m n o h k = ground (arith, bytes_ge_trans m n o)

-- Members ascend: by their scores as numbers, and by their names where the scores are equal.
abbrev pub Below : ZMember → ZMember → Type 0
Below x y =
    (float_rank x.1 <ℤ float_rank y.1)
    ⊎ ((float_rank x.1 ≡ float_rank y.1) × (bytes_lt y.0 x.0 ≡ false))

lex-Ascends :
    (a b : ℤ) (m n : Bytes) → lex b n a m ≡ false → (a <ℤ b) ⊎ ((a ≡ b) × (bytes_lt n m ≡ false))
unfolding lex
lex-Ascends a b m n h = elim (Bool-cases (ltb_ℤ a b)) [
  | inl e ↦ inl (ground (arith, e))
  | inr e ↦ inr (eq_of_parts a b (ground (arith, e, h)), ground (arith, e, h))
]

-- `x` does not come after `y`.
abbrev pub InOrder : ZMember → ZMember → Type 0
InOrder x y = before y x ≡ false

pub before_asym : (x y : ZMember) → Numeric x → Numeric y → before x y ≡ true → InOrder x y
before_asym (m, x) (n, y) hx hy h =
    before-lex n m y x hy hx
    ∙ lex_asym (float_rank x) (float_rank y) m n (sym (before-lex m n x y hx hy) ∙ h)

pub InOrder-trans :
    (x y z : ZMember) → Numeric x → Numeric y → Numeric z → InOrder x y → InOrder y z → InOrder x z
InOrder-trans (m, x) (n, y) (o, z) hx hy hz h k =
    before-lex o m z x hz hx
    ∙ lex_trans (float_rank z) (float_rank y) (float_rank x) o n m
        (sym (before-lex o n z y hz hy) ∙ k) (sym (before-lex n m y x hy hx) ∙ h)

pub InOrder-Below : (x y : ZMember) → Numeric x → Numeric y → InOrder x y → Below x y
InOrder-Below (m, x) (n, y) hx hy h =
    lex-Ascends (float_rank x) (float_rank y) m n (sym (before-lex n m y x hy hx) ∙ h)

bytes_lt_total : (s t : Bytes) → bytes_lt s t ≡ false → bytes_lt t s ≡ false → s ≡ t
unfolding bytes_lt
bytes_lt_total [] [] h k = refl
bytes_lt_total [] (d ∷ t) h k = cc
bytes_lt_total (c ∷ s) [] h k = cc
bytes_lt_total (c ∷ s) (d ∷ t) h k =
    let same : c ≡ d = ground (arith, h, k) in
    let rest : s ≡ t = bytes_lt_total s t (ground (arith, h, k)) (ground (arith, h, k)) in
    ap (λ e. e ∷ s) same ∙ ap (◌∷◌ d) rest

bytes_lt_irrefl : (s : Bytes) → bytes_lt s s ≡ false
unfolding bytes_lt
bytes_lt_irrefl [] = refl
bytes_lt_irrefl (c ∷ s) = ground (arith, bytes_lt_irrefl s)

-- Does y lie below x?
unfoldable pub lies_below : ZMember → ZMember → Bool
lies_below x y =
    ltb_ℤ (float_rank y.1) (float_rank x.1)
    || (not (ltb_ℤ (float_rank x.1) (float_rank y.1)) && bytes_lt y.0 x.0)

pub lies_below_irrefl : (x : ZMember) → lies_below x x ≡ false
unfolding lies_below
lies_below_irrefl x = ground (arith, bytes_lt_irrefl x.0)

pub InOrder-lies_below :
    (x y : ZMember) → Numeric x → Numeric y → InOrder x y → lies_below x y ≡ false
unfolding lies_below lex
InOrder-lies_below (m, x) (n, y) hx hy h = sym (before-lex n m y x hy hx) ∙ h

lex_total : (a b : ℤ) (m n : Bytes) → lex b n a m ≡ false → lex a m b n ≡ false → m ≡ n
unfolding lex
lex_total a b m n h k = bytes_lt_total m n (ground (arith, h, k)) (ground (arith, h, k))

pub lies_below_total :
    (x y : ZMember)
    → Numeric x
    → Numeric y
    → InOrder y x
    → bytes_eq y.0 x.0 ≡ false
    → lies_below x y ≡ true
unfolding lies_below lex
lies_below_total (m, x) (n, y) hx hy h other = elim (Bool-cases (lies_below (m, x) (n, y))) [
  | inl e ↦ e
  | inr e ↦
      let same : m ≡ n =
        lex_total (float_rank x) (float_rank y) m n e (sym (before-lex m n x y hx hy) ∙ h) in
      ground (arith, bytes_eq_iff n m, other, same)
]
