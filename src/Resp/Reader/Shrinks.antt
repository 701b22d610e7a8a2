-- ===== src/Resp/Reader/Shrinks.antt =====
-- A read takes a byte at least, so that a loop of reads ends with the stream.
use goredis_main.Prelude.{ℕ, ◌-◌, ◌<◌, ◌≢◌, [], ◌∷◌, Bytes, arith, length}
use goredis_main.Resp.Value.{Value}
use goredis_main.Resp.Reader.{Limits, ReadError, Result, ok, err, eof, out_of_fuel, read_frame}
use goredis_main.Resp.Reader.Total.{Ends, left, failed, read_frame-Ends}

-- A read that leaves fewer bytes than it was given, or an error of the program.
pub data Shrinks {ℓ} {A : Type ℓ} (s : Bytes) : Result (A × Bytes) → Type ℓ where
  shorter : (a : A) (rest : Bytes) → length rest < length s → Shrinks s (ok (a, rest))
  stopped : (e : ReadError) → e ≢ out_of_fuel → Shrinks s (err e)

shrunk :
    {r : Result (Value × Bytes)} (c : ℕ) (s : Bytes)
    → Ends (length (c ∷ s) - 1) r
    → Shrinks (c ∷ s) r
shrunk c s (left a rest h) = shorter a rest (omega arith)
shrunk c s (failed e h) = stopped e h

pub read_frame-Shrinks : (lim : Limits) (s : Bytes) → Shrinks s (read_frame lim s)
unfolding read_frame
read_frame-Shrinks lim [] = stopped eof (λ e. cc)
read_frame-Shrinks lim (c ∷ s) = shrunk c s (read_frame-Ends lim (c ∷ s))
