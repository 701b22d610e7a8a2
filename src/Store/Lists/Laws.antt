-- ===== src/Store/Lists/Laws.antt =====
-- internal/store/list.go: the ranges of LRange, and pushes and pops as operations on one sequence.
use goredis_main.Prelude.{
  ℕ, zero, suc, ge→ltb, ◌<◌, ◌+◌, ◌-◌, ◌≤◌, ◌≡◌, refl, false, List, [], ◌∷◌, none, some, arith,
  length, take, drop, get_elem?, get_elem?-drop, leb, ltb, ◌==◌, if◌then◌else◌,
}
use goredis_main.Prelude.Int.{ℤ, pos, negsuc, ◌+ℤ◌}
use goredis_main.Store.Lists.{clamp_index, slice, clamped_slice}

module _ {A : Type 0} where
  get_elem?-take :
      (n : ℕ) (xs : List A) (i : ℕ)
      → get_elem? (take n xs) i ≡ (if ltb i n then get_elem? xs i else none)
  get_elem?-take zero xs i = ground arith
  get_elem?-take (suc n) [] i = ground arith
  get_elem?-take (suc n) (x ∷ xs) zero = ground arith
  get_elem?-take (suc n) (x ∷ xs) (suc i) = ground (arith, get_elem?-take n xs i)

  get_elem?_past : (xs : List A) (i : ℕ) → length xs ≤ i → get_elem? xs i ≡ none
  get_elem?_past [] i h = refl
  get_elem?_past (x ∷ xs) zero h = absurd (omega arith)
  get_elem?_past (x ∷ xs) (suc i) h = get_elem?_past xs i (omega arith)

  -- The position that an index counts: from the end where it is negative, and 0 where it lies
  -- before the first element.
  abbrev pub position : List A → ℤ → ℕ
  position l (pos i) = i
  position l (negsuc i) = length l - suc i

  clamp_position : (l : List A) (i : ℤ) → clamp_index i (length l) ≡ position l i
  unfolding clamp_index
  clamp_position l (pos i) = ground arith
  clamp_position l (negsuc i) = unfold ◌+ℤ◌ in ground arith

  clamped-get_elem? :
      (l : List A) (start stop i : ℕ)
      → get_elem? (clamped_slice l start stop) i
        ≡ (if leb (start + i) stop then get_elem? l (start + i) else none)
  clamped-get_elem? l start stop i = ground (
    arith,
    get_elem?_past l (start + i),
    get_elem?-take ((if leb (length l) stop then length l - 1 else stop) + 1 - start) (drop start l)
        i,
    get_elem?-drop start l i,
  )

  -- The i-th element of a range is the element at i places after the start, for as long as that is
  -- not past the stop, with start and stop counted from the end where they are negative, and 0
  -- where they lie before the first element.
  pub slice-get_elem? :
      (l : List A) (start stop : ℤ) (i : ℕ)
      → get_elem? (slice l start stop) i ≡ (
          if leb (position l start + i) (position l stop)
          then get_elem? l (position l start + i)
          else none)
  unfolding slice
  slice-get_elem? l start stop i =
      rw (clamp_position l start, clamp_position l stop)
        (clamped-get_elem? l (position l start) (position l stop) i)

  -- A range from an element to itself.
  take-drop_one :
      (l : List A) (i : ℕ) {x : A}
      → get_elem? l i ≡ some x
      → (i < length l) × (take 1 (drop i l) ≡ x ∷ [])
  take-drop_one [] i h = cc
  take-drop_one (y ∷ l) zero h = (omega arith, ground (arith, h))
  take-drop_one (y ∷ l) (suc i) h = let (lt, e) = take-drop_one l i h in (omega arith, e)

  pub slice_one :
      (l : List A) (i : ℕ) {x : A} → get_elem? l i ≡ some x → slice l (pos i) (pos i) ≡ x ∷ []
  unfolding slice
  slice_one l i h =
      let (lt, e) = take-drop_one l i h in
      rw
        (
          clamp_position l (pos i),
          ge→leb (length l) i lt,
          ge→ltb i i (omega arith),
          nonzero (length l) i lt,
          one i,
        )
        e
    where
      ge→leb : (n k : ℕ) → k < n → leb n k ≡ false
      ge→leb n k lt = ground arith

      nonzero : (n k : ℕ) → k < n → (n == 0) ≡ false
      nonzero n k lt = ground arith

      one : (k : ℕ) → k + 1 - k ≡ 1
      one k = omega arith
