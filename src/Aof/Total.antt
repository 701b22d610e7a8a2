-- ===== src/Aof/Total.antt =====
-- internal/aof/aof.go: a replay ends, and keeps what its callback keeps.
use goredis_main.Prelude.{
  ℕ, zero, suc, ◌<◌, ◌≢◌, refl, List, Option, none, some, Bytes, arith, length,
}
use goredis_main.Resp.Value.{Value, elems_of}
use goredis_main.Resp.Reader.{
  Limits, ReadError, Result, ok, err, eof, unexpected_eof, malformed, unknown_type, bad_integer,
  panics, out_of_fuel,
}
use goredis_main.Resp.Reader.Shrinks.{Shrinks, shorter, stopped, read_frame-Shrinks}
use goredis_main.Aof.{Replayed, done, failed, panicked, read_end, replay_loop, replay}

-- The callback returned, in a state that `P` admits.
pub data Accepts {ℓ κ} {S : Type ℓ} (P : S → Type κ) : Option S → Type (ℓ ⊔ κ) where
  accepts : (s : S) → P s → Accepts P (some s)

-- The replay returned, with an error of the program if any, in a state that `P` admits.
pub data Ended {ℓ κ} {S : Type ℓ} (P : S → Type κ) : Replayed S → Type (ℓ ⊔ κ) where
  complete : (s : S) → P s → Ended P (done s)
  broken : (e : ReadError) (s : S) → e ≢ out_of_fuel → P s → Ended P (failed e s)

module _ {ℓ κ} {S : Type ℓ} (P : S → Type κ) (lim : Limits) (fn : S → List Value → Option S) where
  read_end-Ended : (e : ReadError) (s : S) → e ≢ out_of_fuel → P s → Ended P (read_end lim fn e s)
  read_end-Ended eof s h p = complete s p
  read_end-Ended unexpected_eof s h p = broken _ s h p
  read_end-Ended malformed s h p = broken _ s h p
  read_end-Ended unknown_type s h p = broken _ s h p
  read_end-Ended bad_integer s h p = broken _ s h p
  read_end-Ended panics s h p = broken _ s h p
  read_end-Ended out_of_fuel s h p = absurd (h refl)

  -- One round, where the rounds after it end.
  round-Ended :
      ((s : S) (args : List Value) → P s → Accepts P (fn s args))
      → (file : Bytes) (s : S) → P s
      → (again : Bytes → S → Replayed S)
      → ((rest : Bytes) (s' : S) → length rest < length file → P s' → Ended P (again rest s'))
      → {r : Result (Value × Bytes)} → Shrinks file r
      → Ended P (elim r [
        | err e ↦ read_end lim fn e s
        | ok (v, rest) ↦ elim (fn s (elems_of v)) [ none ↦ panicked | some s' ↦ again rest s' ]
      ])
  round-Ended keeps file s p again next (stopped e ne) = read_end-Ended e s ne p
  round-Ended keeps file s p again next (shorter v rest lt) = after (keeps s (elems_of v) p)
    where
      after :
          {o : Option S}
          → Accepts P o
          → Ended P (elim o [ none ↦ panicked | some s' ↦ again rest s' ])
      after (accepts s' p') = next rest s' lt p'

  replay_loop-Ended :
      ((s : S) (args : List Value) → P s → Accepts P (fn s args))
      → (f : ℕ) (file : Bytes) (s : S) → length file < f
      → P s
      → Ended P (replay_loop lim fn f file s)
  unfolding replay_loop
  replay_loop-Ended keeps zero file s h p = absurd (omega arith)
  replay_loop-Ended keeps (suc f) file s h p =
      round-Ended keeps file s p (replay_loop lim fn f)
        (λ rest s' lt p'. replay_loop-Ended keeps f rest s' (omega arith) p')
        (read_frame-Shrinks lim file)

  -- Where the callback returns on every line and keeps `P`, a replay of any file ends, in a state that
  -- `P` admits, and its fuel is enough.
  pub replay-Ended :
      ((s : S) (args : List Value) → P s → Accepts P (fn s args))
      → (file : Bytes) (s : S) → P s
      → Ended P (replay lim fn file s)
  unfolding replay
  replay-Ended keeps file s p = replay_loop-Ended keeps (suc (length file)) file s (omega arith) p
