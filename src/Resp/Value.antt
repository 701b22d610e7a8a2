-- ===== src/Resp/Value.antt =====
-- internal/resp/value.go: Type and Value. Each constructor is one value of the field Type, with the
-- fields that are meaningful there; the two null frames are those with the field Null set.
use goredis_main.Prelude.{ℕ, zero, suc, Bool, true, false, List, [], ◌∷◌, Bytes, codes, map}
use goredis_main.Prelude.Int.{ℤ}

mutual
  pub data Value : Type 0 where
    simple : Bytes → Value
    error : Bytes → Value
    integer : ℤ → Value
    bulk : Bytes → Value
    null_bulk : Value
    -- the field Multi, and Elems
    array : Bool → Values → Value
    null_array : Value

  -- []Value
  pub data Values : Type 0 where
    nil : Values
    cons : Value → Values → Values

abbrev pub of_list : List Value → Values
of_list [] = nil
of_list (v ∷ vs) = cons v (of_list vs)

abbrev pub to_list : Values → List Value
to_list nil = []
to_list (cons v vs) = v ∷ to_list vs

-- len(elems)
abbrev pub count : Values → ℕ
count nil = zero
count (cons v vs) = suc (count vs)

-- v.Str, the zero string where the frame has none
abbrev pub str_of : Value → Bytes
str_of (simple s) = s
str_of (error s) = s
str_of (bulk s) = s
str_of _ = []

-- v.Elems, nil where the frame has none
abbrev pub elems_of : Value → List Value
elems_of (array multi vs) = to_list vs
elems_of _ = []

-- v.Type == TypeError
abbrev pub is_error : Value → Bool
is_error (error s) = true
is_error _ = false

-- OK, Array, MultiFrame and BulkStrings
abbrev pub ok_reply : Value
ok_reply = simple (codes "OK")

abbrev pub array_of : List Value → Value
array_of vs = array false (of_list vs)

abbrev pub multi_frame : List Value → Value
multi_frame vs = array true (of_list vs)

abbrev pub bulk_strings : List Bytes → Value
bulk_strings ss = array_of (map bulk ss)
