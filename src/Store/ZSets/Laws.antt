-- ===== src/Store/ZSets/Laws.antt =====
-- internal/store/zset.go: the order that sort.Slice is asked for, and ZRANK against ZRANGE.
use goredis_main.Store.ZSets.Order.{
  Numeric, InOrder, Below, before_asym, InOrder-trans, InOrder-Below, lies_below, lies_below_irrefl,
  InOrder-lies_below, lies_below_total,
}
use goredis_main.Prelude.{
  ℕ, suc, sym, subst, ◌+◌, ◌≡◌, refl, ap, ◌∙◌, false, List, [], ◌∷◌, Option, some, Bytes, bytes_eq,
  bytes_eq_iff, bytes_eq_refl, arith, All, is_some, if◌then◌else◌, Bool-cases, if_intro, inl, inr,
  length, get_elem?,
}
use goredis_main.Prelude.Int.{ℤ, pos}
use goredis_main.GoMap.{Map, lookup, has, size, Distinct}
use goredis_main.Store.{
  find_kind, kind_zset, Store, Entry, Result, ok, Payload, string, hash, list, set, zset, scores_of,
}
use goredis_main.Store.Invariant.{IsValid, PayloadOk, get_locked-EntryOk}
use goredis_main.Store.Cases.{FindCases, find_kind-cases, refused, missing, found}
use goredis_main.Store.Lists.{slice}
use goredis_main.Store.Lists.Laws.{slice_one}
use goredis_main.Store.ZSets.{
  ZMember, before, insert_sorted, sorted, find_rank, scores_in, rank_in, zrank, zrange,
}

-- Each element is in order with all that follow it.
abbrev pub IsSorted : List ZMember → Type 0
IsSorted [] = Unit
IsSorted (x ∷ xs) = All (InOrder x) xs × IsSorted xs

insert_sorted-All :
    (P : ZMember → Type 0) (x : ZMember) (ys : List ZMember)
    → P x
    → All P ys
    → All P (insert_sorted x ys)
unfolding insert_sorted
insert_sorted-All P x [] p h = (p, tt)
insert_sorted-All P x (y ∷ ys) p h =
    if_intro (All P) (before y x) _ _ (λ _. (h.0, insert_sorted-All P x ys p h.1)) (λ _. (p, h))

All-InOrder :
    (x y : ZMember) (ys : List ZMember)
    → Numeric x
    → Numeric y
    → All Numeric ys
    → InOrder x y
    → All (InOrder y) ys
    → All (InOrder x) ys
All-InOrder x y [] hx hy hs h k = tt
All-InOrder x y (z ∷ ys) hx hy hs h k =
    (InOrder-trans x y z hx hy hs.0 h k.0, All-InOrder x y ys hx hy hs.1 h k.1)

insert_sorted-IsSorted :
    (x : ZMember) (ys : List ZMember)
    → Numeric x
    → All Numeric ys
    → IsSorted ys
    → IsSorted (insert_sorted x ys)
unfolding insert_sorted
insert_sorted-IsSorted x [] hx hs h = (tt, tt)
insert_sorted-IsSorted x (y ∷ ys) hx hs h =
    if_intro IsSorted (before y x) _ _
      (λ lt. (
        insert_sorted-All (InOrder y) x ys (before_asym y x hs.0 hx lt) h.0,
        insert_sorted-IsSorted x ys hx hs.1 h.1,
      ))
      (λ ge. ((ge, All-InOrder x y ys hx hs.0 hs.1 ge h.0), h))

sorted-Numeric : (m : Map ℕ) → All Numeric m → All Numeric (sorted m)
unfolding sorted
sorted-Numeric [] h = tt
sorted-Numeric (x ∷ m) h = insert_sorted-All Numeric x (sorted m) h.0 (sorted-Numeric m h.1)

All-IsSorted : (m : Map ℕ) → All Numeric m → IsSorted (sorted m)
unfolding sorted
All-IsSorted [] h = tt
All-IsSorted (x ∷ m) h =
    insert_sorted-IsSorted x (sorted m) h.0 (sorted-Numeric m h.1) (All-IsSorted m h.1)

lookup-insert_sorted :
    (k : Bytes) (x : ZMember) (ys : List ZMember)
    → has x.0 ys ≡ false
    → lookup k (insert_sorted x ys) ≡ lookup k (x ∷ ys)
unfolding insert_sorted lookup
lookup-insert_sorted k (m, x) [] h = refl
lookup-insert_sorted k (m, x) ((n, y) ∷ ys) h = elim (Bool-cases (before (n, y) (m, x))) [
  | inl e ↦ rw e (
      ground (
        arith,
        lookup-insert_sorted k (m, x) ys,
        h,
        bytes_eq_iff n k,
        bytes_eq_iff m k,
        bytes_eq_iff n m,
        bytes_eq_refl m,
      ))
  | inr e ↦ rw e
]

length-insert_sorted :
    (x : ZMember) (ys : List ZMember) → length (insert_sorted x ys) ≡ suc (length ys)
unfolding insert_sorted
length-insert_sorted x [] = refl
length-insert_sorted x (y ∷ ys) = ground (arith, length-insert_sorted x ys)

lookup-sorted : (k : Bytes) (m : Map ℕ) → Distinct m → lookup k (sorted m) ≡ lookup k m
unfolding sorted lookup
lookup-sorted k [] d = refl
lookup-sorted k ((n, y) ∷ m) d =
    lookup-insert_sorted k (n, y) (sorted m) (ap is_some (lookup-sorted n m d.1) ∙ d.0)
    ∙ ap (λ o. if bytes_eq n k then some y else o) (lookup-sorted k m d.1)

length-sorted : (m : Map ℕ) → length (sorted m) ≡ size m
unfolding sorted
length-sorted [] = refl
length-sorted (x ∷ m) = length-insert_sorted x (sorted m) ∙ ap suc (length-sorted m)

-- Each element lies below all that follow it.
abbrev pub Ascending : List ZMember → Type 0
Ascending [] = Unit
Ascending (x ∷ xs) = All (Below x) xs × Ascending xs

All-Below :
    (x : ZMember) (ys : List ZMember)
    → Numeric x
    → All Numeric ys
    → All (InOrder x) ys
    → All (Below x) ys
All-Below x [] hx hs h = tt
All-Below x (y ∷ ys) hx hs h = (InOrder-Below x y hx hs.0 h.0, All-Below x ys hx hs.1 h.1)

IsSorted-Ascending : (xs : List ZMember) → All Numeric xs → IsSorted xs → Ascending xs
IsSorted-Ascending [] hs h = tt
IsSorted-Ascending (x ∷ xs) hs h = (All-Below x xs hs.0 hs.1 h.0, IsSorted-Ascending xs hs.1 h.1)

-- Where no score is a NaN and no member stands twice, the members come out in ascending order, by their
-- scores as numbers and by their names where the scores are equal, and they are the members of the set,
-- each with its score.
pub sorted_lem :
    (m : Map ℕ)
    → Distinct m
    → All Numeric m
    → Ascending (sorted m)
      × (length (sorted m) ≡ size m)
      × ((k : Bytes) → lookup k (sorted m) ≡ lookup k m)
sorted_lem m d h = (
  IsSorted-Ascending (sorted m) (sorted-Numeric m h) (All-IsSorted m h),
  length-sorted m,
  λ k. lookup-sorted k m d,
)

find_rank_lem :
    (k : Bytes) (l : List ZMember) (n : ℕ) {sc : ℕ}
    → lookup k l ≡ some sc
    → (i : ℕ) × (find_rank k l n ≡ some (n + i)) × (get_elem? l i ≡ some (k, sc))
unfolding find_rank lookup
find_rank_lem k [] n h = cc
find_rank_lem k ((m, x) ∷ l) n {sc} h = elim (Bool-cases (bytes_eq m k)) [
  | inl e ↦ (0, rw e (ground arith), ground (arith, bytes_eq_iff m k))
  | inr e ↦
      let (i, r, g) = find_rank_lem k l (suc n) (rw e at h) in (suc i, rw (e, r) (ground arith), g)
]

-- How many members of a set lie below x.
unfoldable pub count_below : ZMember → Map ℕ → ℕ
count_below x [] = 0
count_below x (y ∷ m) = (if lies_below x y then 1 else 0) + count_below x m

count_below-insert_sorted :
    (x y : ZMember) (ys : List ZMember)
    → count_below x (insert_sorted y ys) ≡ count_below x (y ∷ ys)
unfolding insert_sorted count_below
count_below-insert_sorted x y [] = refl
count_below-insert_sorted x y (z ∷ ys) = elim (Bool-cases (before z y)) [
  | inl e ↦ rw e (ground (arith, count_below-insert_sorted x y ys))
  | inr e ↦ rw e refl
]

count_below-sorted : (x : ZMember) (m : Map ℕ) → count_below x (sorted m) ≡ count_below x m
unfolding sorted count_below
count_below-sorted x [] = refl
count_below-sorted x (y ∷ m) =
    count_below-insert_sorted x y (sorted m)
    ∙ ap (λ n. (if lies_below x y then 1 else 0) + n) (count_below-sorted x m)

none_below :
    (x : ZMember) (ys : List ZMember)
    → Numeric x
    → All Numeric ys
    → All (InOrder x) ys
    → count_below x ys ≡ 0
unfolding count_below
none_below x [] hx hs h = refl
none_below x (y ∷ ys) hx hs h =
    rw (InOrder-lies_below x y hx hs.0 h.0, none_below x ys hx hs.1 h.1) refl

first_below :
    (x : ZMember) (ys : List ZMember)
    → Numeric x
    → All Numeric ys
    → All (InOrder x) ys
    → count_below x (x ∷ ys) ≡ 0
unfolding count_below
first_below x ys hx hs h = rw (lies_below_irrefl x, none_below x ys hx hs h) refl

All-lookup :
    (P : ZMember → Type 0) (k : Bytes) (l : List ZMember) {sc : ℕ}
    → All P l
    → lookup k l ≡ some sc
    → P (k, sc)
unfolding lookup
All-lookup P k [] h e = cc
All-lookup P k ((n, y) ∷ l) {sc} h e = elim (Bool-cases (bytes_eq n k)) [
  | inl t ↦
      let found = (rw t at e) in
      subst P {x = (n, y)} {y = (k, sc)} (ground (arith, t, found, bytes_eq_iff n k)) h.0
  | inr f ↦ All-lookup P k l h.1 (rw f at e)
]

counted : (n k : ℕ) → k ≡ 0 → some n ≡ some (n + k)
counted n k h = ap some (omega arith)

-- In a sorted list the rank of a member is the number of those that lie below it.
find_rank-count_below :
    (k : Bytes) (l : List ZMember) (n : ℕ) {sc : ℕ}
    → All Numeric l
    → IsSorted l
    → lookup k l ≡ some sc
    → find_rank k l n ≡ some (n + count_below (k, sc) l)
unfolding find_rank lookup count_below
find_rank-count_below k [] n hs h e = cc
find_rank-count_below k ((m, x) ∷ l) n {sc} hs h e = elim (Bool-cases (bytes_eq m k)) [
  | inl t ↦
      let found = (rw t at e) in
      let same : (m, x) ≡ (k, sc) = ground (arith, t, found, bytes_eq_iff m k) in
      let lowest : count_below (k, sc) ((m, x) ∷ l) ≡ 0 =
        subst (λ (z : ZMember). count_below z ((m, x) ∷ l) ≡ 0) {x = (m, x)} {y = (k, sc)} same
          (first_below (m, x) l hs.0 hs.1 h.0) in
      rw t (counted n (count_below (k, sc) ((m, x) ∷ l)) lowest)
  | inr f ↦
      let later = (rw f at e) in
      let above = All-lookup (InOrder (m, x)) k l h.0 later in
      let numeric = All-lookup Numeric k l hs.1 later in
      let below = lies_below_total (k, sc) (m, x) numeric hs.0 above f in
      rw (f, below, find_rank-count_below k l (suc n) hs.1 h.1 later) (ground arith)
]

scores_of-Distinct : (p : Payload) → PayloadOk p → Distinct (scores_of p)
scores_of-Distinct (string b) h = tt
scores_of-Distinct (hash m) h = tt
scores_of-Distinct (list l) h = tt
scores_of-Distinct (set m) h = tt
scores_of-Distinct (zset m) h = h.0

rank_in-count_below :
    (member : Bytes) (m : Map ℕ) {sc : ℕ}
    → Distinct m
    → All Numeric m
    → lookup member m ≡ some sc
    → rank_in member m ≡ some (count_below (member, sc) m)
rank_in-count_below member m {sc} d hs h =
    let found = lookup-sorted member m d ∙ h in
    let ranked =
      find_rank-count_below member (sorted m) 0 (sorted-Numeric m hs) (All-IsSorted m hs) found in
    rw h (ranked ∙ ap some (ground arith ∙ count_below-sorted (member, sc) m))

some_inj : {A : Type 0} {x y : A} → some x ≡ some y → x ≡ y
some_inj h = cc

rank-slice :
    (member : Bytes) (m : Map ℕ) {sc : ℕ}
    → Distinct m
    → All Numeric m
    → lookup member m ≡ some sc
    → slice (sorted m) (pos (count_below (member, sc) m)) (pos (count_below (member, sc) m))
      ≡ (member, sc) ∷ []
rank-slice member m {sc} d hs h =
    let (i, r, g) = find_rank_lem member (sorted m) 0 (lookup-sorted member m d ∙ h) in
    let found = lookup-sorted member m d ∙ h in
    let ranked =
      find_rank-count_below member (sorted m) 0 (sorted-Numeric m hs) (All-IsSorted m hs) found in
    let same : i ≡ count_below (member, sc) m =
      omega (arith, some_inj (sym r ∙ ranked), count_below-sorted (member, sc) m) in
    subst (λ k. slice (sorted m) (pos k) (pos k) ≡ (member, sc) ∷ []) same
      (slice_one (sorted m) i g)

-- In a well-formed store, where no score at the key is a NaN: the rank of a member is the number of
-- members that lie below it, by their scores as numbers and by their names where the scores are equal,
-- and the range from that rank to itself is the member with its score.
pub zrank-zrange :
    (s : Store) (now : ℤ) (key member : Bytes) (z : Map ℕ) (sc : ℕ)
    → IsValid s
    → scores_in (find_kind kind_zset s now key) ≡ ok z
    → All Numeric z
    → lookup member z ≡ some sc
    → (zrank s now key member ≡ ok (some (count_below (member, sc) z)))
      × (zrange s now key (pos (count_below (member, sc) z)) (pos (count_below (member, sc) z))
          ≡ ok ((member, sc) ∷ []))
unfolding zrank zrange
zrank-zrange s now key member z sc valid shown numeric h =
    let d = distinct (find_kind-cases kind_zset s now key) shown in
    (
      rw shown (ap ok (rank_in-count_below member z d numeric h)),
      rw shown (ap ok (rank-slice member z d numeric h)),
    )
  where
    ok_inj : {A : Type 0} {x y : A} → ok x ≡ ok y → x ≡ y
    ok_inj h = cc

    distinct :
        {r : Result (Option Entry)}
        → FindCases kind_zset s now key r
        → scores_in r ≡ ok z
        → Distinct z
    distinct (refused e live k) h = cc
    distinct (missing gone) h = subst Distinct (ok_inj h) tt
    distinct (found e live k) h =
        subst Distinct (ok_inj h)
          (scores_of-Distinct e.payload (get_locked-EntryOk s now key valid live))
