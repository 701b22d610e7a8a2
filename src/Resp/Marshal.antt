-- ===== src/Resp/Marshal.antt =====
-- internal/resp/value.go: Marshal and its helpers; internal/resp/writer.go: Write.
use goredis_main.Prelude.{ℕ, [], ◌∷◌, ◌++◌, Bytes, length, true, false}
use goredis_main.Resp.Value.{
  Value, Values, simple, error, integer, bulk, null_bulk, array, null_array, nil, cons, count,
}
use goredis_main.Strconv.{format_nat, format_int}

abbrev pub crlf : Bytes → Bytes
crlf rest = 13 ∷ 10 ∷ rest

unfoldable pub marshal_line : ℕ → Bytes → Bytes
marshal_line prefix s = prefix ∷ (s ++ crlf [])

unfoldable pub marshal_bulk : Bytes → Bytes
marshal_bulk s = b'$' ∷ (format_nat (length s) ++ crlf (s ++ crlf []))

unfoldable mutual
  pub marshal : Value → Bytes
  marshal (simple s) = marshal_line b'+' s
  marshal (error s) = marshal_line b'-' s
  marshal (integer n) = marshal_line b':' (format_int n)
  marshal null_bulk = b'$' ∷ b'-' ∷ b'1' ∷ crlf []
  marshal (bulk s) = marshal_bulk s
  marshal null_array = b'*' ∷ b'-' ∷ b'1' ∷ crlf []
  marshal (array multi elems) = b'*' ∷ (format_nat (count elems) ++ crlf (marshal_elems elems))

  -- the loop of marshalArray
  pub marshal_elems : Values → Bytes
  marshal_elems nil = []
  marshal_elems (cons v vs) = marshal v ++ marshal_elems vs

-- Write: the bytes that reach the connection. A bundle is written frame by frame, also where
-- bundles are nested.
unfoldable mutual
  pub write : Value → Bytes
  write (array true elems) = write_elems elems
  write (array false elems) = marshal (array false elems)
  write (simple s) = marshal (simple s)
  write (error s) = marshal (error s)
  write (integer n) = marshal (integer n)
  write null_bulk = marshal null_bulk
  write (bulk s) = marshal (bulk s)
  write null_array = marshal null_array

  pub write_elems : Values → Bytes
  write_elems nil = []
  write_elems (cons v vs) = write v ++ write_elems vs
