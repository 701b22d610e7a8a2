-- ===== src/Tests/Wire.antt =====
-- Frames on the wire, at concrete inputs.
use goredis_main.Prelude.{◌⊎◌, Bytes, List, Option, some, ◌≡◌, refl, [], ◌∷◌, ◌++◌, codes, arith}
use goredis_main.Prelude.Int.{pos}
use goredis_main.Resp.Value.{Value, bulk, integer, error, array_of}
use goredis_main.Strconv.{format_nat, put_digits}
use goredis_main.Resp.Marshal.{marshal, marshal_bulk}
use goredis_main.Resp.Reader.{Limits, ok, err, eof, unexpected_eof, read_frame}
use goredis_main.Resp.Reader.RoundTrip.{read_frame-marshal}
use goredis_main.Resp.Reader.Extends.{read_frame-append, torn-read_frame}
use goredis_main.Aof.{replay, done}
use goredis_main.Aof.Recovery.{append_all, finished, next, replay-append_all}
use goredis_main.Resp.Reader.Total.{Ends, read_frame-Ends}

abbrev limits : Limits
limits = record {
  max_elems = 1000;
  max_bytes = 1000;
  elems_fit = omega arith;
  bytes_fit = omega arith;
}

-- The command SET k 42, with an integer for its last argument.
abbrev request : Value
request = array_of (bulk (codes "SET") ∷ bulk (codes "k") ∷ integer (pos 42) ∷ [])

read_frame-marshal_example :
    read_frame limits (marshal request ++ marshal (error (codes "ERR")))
    ≡ ok (request, marshal (error (codes "ERR")))
read_frame-marshal_example =
    read_frame-marshal limits request (marshal (error (codes "ERR")))
      (refl, omega arith, (omega arith, (omega arith, (omega arith, tt))))

read_frame-Ends_example : Ends 6 (read_frame limits (codes "*2x$1:9"))
read_frame-Ends_example = read_frame-Ends limits (codes "*2x$1:9")

-- A log of two lines, and a callback that keeps what it is called with.
abbrev lines : List (List Value)
lines =
    (bulk (codes "SET") ∷ bulk (codes "k") ∷ bulk (codes "v") ∷ [])
    ∷ (bulk (codes "DEL") ∷ bulk (codes "k") ∷ [])
    ∷ []

abbrev keep : List (List Value) → List Value → Option (List (List Value))
keep seen line = some (seen ++ line ∷ [])

replay-append_all_example : replay limits keep (append_all [] lines) [] ≡ done lines
replay-append_all_example =
    replay-append_all limits keep lines [] lines
      (
        (refl, omega arith, (omega arith, (omega arith, (omega arith, tt)))),
        ((refl, omega arith, (omega arith, (omega arith, tt))), tt),
      )
      (next [] _ _ _ _ refl (next _ _ _ _ _ refl (finished lines)))

-- Two frames and the bytes after them, read as one frame and the rest.
read_frame-append_example :
    read_frame limits ((marshal request ++ marshal (bulk (codes "k"))) ++ codes "*1")
    ≡ ok (request, marshal (bulk (codes "k")) ++ codes "*1")
read_frame-append_example =
    read_frame-append limits (marshal request ++ marshal (bulk (codes "k"))) (codes "*1")
      (marshal (bulk (codes "k"))) request
      (read_frame-marshal limits request (marshal (bulk (codes "k")))
        (refl, omega arith, (omega arith, (omega arith, (omega arith, tt)))))

-- A bulk string without its last line break.
abbrev part : Bytes
part = b'$' ∷ b'1' ∷ 13 ∷ 10 ∷ b'k' ∷ []

cut : marshal (bulk (codes "k")) ≡ part ++ 13 ∷ 10 ∷ []
unfolding marshal marshal_bulk format_nat put_digits
cut = refl

torn-read_frame_example :
    (read_frame limits part ≡ err eof) ⊎ (read_frame limits part ≡ err unexpected_eof)
torn-read_frame_example =
    torn-read_frame limits (bulk (codes "k")) part (13 ∷ 10 ∷ []) (omega arith) cut (omega arith)
