-- ===== src/Once.antt =====
-- sync.Once around close(ch), as in Close of internal/store and internal/aof and in shutdown of
-- internal/server: the channel tells a background goroutine to stop, and closing it twice panics.
use goredis_main.Prelude.{
  ℕ, zero, suc, ◌≡◌, refl, Bool, true, false, Option, none, some, if◌then◌else◌,
}

-- Whether Do has run its function, and whether the channel is closed.
pub record Stopper : Type 0 where
  pub ran : Bool
  pub closed : Bool

abbrev pub new_stopper : Stopper
new_stopper = record { ran = false; closed = false }

-- close(ch): `none` is the panic at a closed channel.
abbrev close_channel : Stopper → Option Stopper
close_channel s = if s.closed then none else some (record s { closed = true })

-- once.Do(func() { close(ch) })
unfoldable pub stop_once : Stopper → Option Stopper
stop_once s = if s.ran then some s else close_channel (record s { ran = true })

-- The calls of Close, one after another.
unfoldable pub stop_times : ℕ → Stopper → Option Stopper
stop_times zero s = some s
stop_times (suc n) s = elim (stop_once s) [ none ↦ none | some s' ↦ stop_times n s' ]

-- However often Close is called, no call panics.
pub stop_times_lem :
    (n : ℕ) → (s : Stopper) × (stop_times (suc n) new_stopper ≡ some s) × (s.closed ≡ true)
unfolding stop_times stop_once
stop_times_lem n = again n
  where
    again :
        (n : ℕ)
        → (s : Stopper) × (stop_times n (record { ran = true; closed = true }) ≡ some s)
          × (s.closed ≡ true)
    again zero = (_, refl, refl)
    again (suc n) = again n
