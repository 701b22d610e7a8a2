-- ===== src/Aof.antt =====
-- internal/aof/aof.go: Append and Replay. The file is the list of its bytes; a write that fails is not
-- modelled.
pub mod Total
pub mod Recovery
pub mod Torn
pub mod File
use goredis_main.Prelude.{ℕ, zero, suc, List, ◌++◌, Option, none, some, Bytes, length}
use goredis_main.Resp.Value.{Value, array_of, elems_of}
use goredis_main.Resp.Marshal.{marshal}
use goredis_main.Resp.Reader.{Limits, ReadError, eof, out_of_fuel, ok, err, read_frame}

-- Append: the file is opened with O_APPEND.
unfoldable pub append : Bytes → List Value → Bytes
append file args = file ++ marshal (array_of args)

-- How a replay ends: with the callback's last state; with an error of the reader, which New returns;
-- or in a panic of the callback.
pub data Replayed {ℓ} (S : Type ℓ) : Type ℓ where
  done : S → Replayed S
  failed : ReadError → S → Replayed S
  panicked : Replayed S

module _ {ℓ} {S : Type ℓ} (lim : Limits) (fn : S → List Value → Option S) where
  abbrev read_end : ReadError → S → Replayed S
  read_end eof s = done s
  read_end e s = failed e s

  -- Replay's loop; each frame takes a byte at least, so the length of the file is fuel enough.
  unfoldable pub replay_loop : ℕ → Bytes → S → Replayed S
  replay_loop zero file s = failed out_of_fuel s
  replay_loop (suc f) file s = elim (read_frame lim file) [
    | err e ↦ read_end e s
    | ok (v, rest) ↦ elim (fn s (elems_of v)) [ none ↦ panicked | some s' ↦ replay_loop f rest s' ]
  ]

  unfoldable pub replay : Bytes → S → Replayed S
  unfolding replay_loop
  replay file s = replay_loop (suc (length file)) file s
