-- ===== src/Store/Cases.antt =====
-- The outcomes of the two lookups that operations on one kind of value start with.
use goredis_main.Prelude.{◌≡◌, refl, true, false, Option, none, some, Bytes, Bool-cases, inl, inr}
use goredis_main.Prelude.Int.{ℤ}
use goredis_main.Store.{
  Kind, kind_of, same_kind, Payload, Entry, Store, wrong_type, Result, ok, err, fresh, put,
  get_locked, check_kind, find_kind, create_missing, make_kind,
}

-- find_kind: an error where the kind differs, nothing where there is no live entry, or the entry.
pub data FindCases (k : Kind) (s : Store) (now : ℤ) (key : Bytes)
    : Result (Option Entry) → Type 0 where
  refused :
      (e : Entry)
      → get_locked s now key ≡ some e
      → same_kind (kind_of e.payload) k ≡ false
      → FindCases k s now key (err wrong_type)
  missing : get_locked s now key ≡ none → FindCases k s now key (ok none)
  found :
      (e : Entry)
      → get_locked s now key ≡ some e
      → same_kind (kind_of e.payload) k ≡ true
      → FindCases k s now key (ok (some e))

-- make_kind: the same, with a new entry where there was none.
pub data MakeCases (p : Payload) (s : Store) (now : ℤ) (key : Bytes)
    : Store × Result Entry → Type 0 where
  refused :
      (e : Entry)
      → get_locked s now key ≡ some e
      → same_kind (kind_of e.payload) (kind_of p) ≡ false
      → MakeCases p s now key (s, err wrong_type)
  created : get_locked s now key ≡ none → MakeCases p s now key (put key (fresh p) s, ok (fresh p))
  found :
      (e : Entry)
      → get_locked s now key ≡ some e
      → same_kind (kind_of e.payload) (kind_of p) ≡ true
      → MakeCases p s now key (s, ok e)

find_entry :
    (k : Kind) (s : Store) (now : ℤ) (key : Bytes) (e : Entry)
    → get_locked s now key ≡ some e
    → FindCases k s now key (check_kind k (some e))
unfolding check_kind
find_entry k s now key e h = elim (Bool-cases (same_kind (kind_of e.payload) k)) [
  | inl t ↦ rw t (found e h t)
  | inr f ↦ rw f (refused e h f)
]

find_cases :
    (k : Kind) (s : Store) (now : ℤ) (key : Bytes) (o : Option Entry)
    → get_locked s now key ≡ o
    → FindCases k s now key (check_kind k o)
unfolding check_kind
find_cases k s now key none h = missing h
find_cases k s now key (some e) h = find_entry k s now key e h

pub find_kind-cases :
    (k : Kind) (s : Store) (now : ℤ) (key : Bytes) → FindCases k s now key (find_kind k s now key)
unfolding find_kind
find_kind-cases k s now key = find_cases k s now key (get_locked s now key) refl

make_cases :
    (p : Payload) (s : Store) (now : ℤ) (key : Bytes) {r : Result (Option Entry)}
    → FindCases (kind_of p) s now key r
    → MakeCases p s now key (create_missing p key s r)
unfolding create_missing
make_cases p s now key (refused e h f) = refused e h f
make_cases p s now key (missing h) = created h
make_cases p s now key (found e h t) = found e h t

pub make_kind-cases :
    (p : Payload) (s : Store) (now : ℤ) (key : Bytes)
    → MakeCases p s now key (make_kind p s now key)
unfolding make_kind
make_kind-cases p s now key = make_cases p s now key (find_kind-cases (kind_of p) s now key)
