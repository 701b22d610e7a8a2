-- ===== src/Command/Returns.antt =====
-- What every handler but those of the transactions owes: it returns, it keeps the store well-formed,
-- and it leaves the transaction alone.
use goredis_main.Prelude.{ℕ, ◌≤◌, ◌≡◌, refl, List, [], ◌∷◌, some, length, arith}
use goredis_main.Resp.Value.{Value}
use goredis_main.Store.{Store}
use goredis_main.Store.Invariant.{IsValid}
use goredis_main.Command.{World, Outcome, Dispatcher, Handler, reads}

pub record SameTx (w w' : World) : Type 0 where
  pub same_in_tx : w'.ctx.in_tx ≡ w.ctx.in_tx
  pub same_queue : w'.ctx.queue ≡ w.ctx.queue
  pub same_error : w'.ctx.tx_error ≡ w.ctx.tx_error

pub SameTx-refl : (w : World) → SameTx w w
SameTx-refl w = record { same_in_tx = refl; same_queue = refl; same_error = refl }

pub data Returns (w : World) : Outcome → Type 0 where
  returns : (w' : World) (v : Value) → IsValid w'.store → SameTx w w' → Returns w (some (w', v))

pub reads-Returns : (w : World) (v : Value) → IsValid w.store → Returns w (reads w v)
reads-Returns w v ok = returns w v ok (SameTx-refl w)

pub writes-Returns :
    (w : World) (s : Store) (v : Value) → IsValid s → Returns w (some (record w { store = s }, v))
writes-Returns w s v ok =
    returns (record w { store = s }) v ok
      (record { same_in_tx = refl; same_queue = refl; same_error = refl })

-- A handler is safe on the argument lists that `P` admits.
abbrev pub SafeOn : (List Value → Type 0) → Handler → Type 0
SafeOn P h =
    (d : Dispatcher) (w : World) (args : List Value)
    → P args
    → IsValid w.store
    → Returns w (h d w args)

abbrev pub Exactly : ℕ → List Value → Type 0
Exactly n args = length args ≡ n

abbrev pub AtLeast : ℕ → List Value → Type 0
AtLeast n args = n ≤ length args

-- Argument lists of a known length, taken apart.
pub with_one {ℓ} :
    (P : List Value → Type ℓ)
    → ((a : Value) → P (a ∷ []))
    → (args : List Value) → Exactly 1 args
    → P args
with_one P k [] h = absurd (omega arith)
with_one P k (a ∷ []) h = k a
with_one P k (a ∷ b ∷ args) h = absurd (omega arith)

pub with_two {ℓ} :
    (P : List Value → Type ℓ)
    → ((a b : Value) → P (a ∷ b ∷ []))
    → (args : List Value) → Exactly 2 args
    → P args
with_two P k [] h = absurd (omega arith)
with_two P k (a ∷ []) h = absurd (omega arith)
with_two P k (a ∷ b ∷ []) h = k a b
with_two P k (a ∷ b ∷ c ∷ args) h = absurd (omega arith)

pub with_three {ℓ} :
    (P : List Value → Type ℓ)
    → ((a b c : Value) → P (a ∷ b ∷ c ∷ []))
    → (args : List Value) → Exactly 3 args
    → P args
with_three P k [] h = absurd (omega arith)
with_three P k (a ∷ []) h = absurd (omega arith)
with_three P k (a ∷ b ∷ []) h = absurd (omega arith)
with_three P k (a ∷ b ∷ c ∷ []) h = k a b c
with_three P k (a ∷ b ∷ c ∷ d ∷ args) h = absurd (omega arith)

pub with_two_more {ℓ} :
    (P : List Value → Type ℓ)
    → ((a b : Value) (args : List Value) → P (a ∷ b ∷ args))
    → (args : List Value) → AtLeast 2 args
    → P args
with_two_more P k [] h = absurd (omega arith)
with_two_more P k (a ∷ []) h = absurd (omega arith)
with_two_more P k (a ∷ b ∷ args) h = k a b args

pub with_three_more {ℓ} :
    (P : List Value → Type ℓ)
    → ((a b c : Value) (args : List Value) → P (a ∷ b ∷ c ∷ args))
    → (args : List Value) → AtLeast 3 args
    → P args
with_three_more P k [] h = absurd (omega arith)
with_three_more P k (a ∷ []) h = absurd (omega arith)
with_three_more P k (a ∷ b ∷ []) h = absurd (omega arith)
with_three_more P k (a ∷ b ∷ c ∷ args) h = k a b c args
