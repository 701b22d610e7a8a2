-- ===== src/Command.antt =====
-- internal/command: context.go, and what the handlers share. A handler gets the state of the process
-- as its connection sees it and the arguments; `none` is a run-time panic, such as an index past the
-- end of the arguments.
pub mod Names
pub mod Returns
pub mod Acts
pub mod Generic
pub mod Strings
pub mod Lists
pub mod Hashes
pub mod ZSets
pub mod Pubsub
pub mod Transaction
pub mod Registry
use goredis_main.Prelude.{
  ℕ, zero, suc, Bool, true, false, List, [], ◌∷◌, Option, none, some, Bytes, codes, get_elem?, map,
  if◌then◌else◌,
}
use goredis_main.Prelude.Int.{ℤ, pos}
use goredis_main.Store.{
  Store, StoreError, wrong_type, not_an_integer, would_overflow, no_such_key, Result, ok, err,
}
use goredis_main.Pubsub.{Hub}
use goredis_main.Resp.Value.{Value, error, integer, bulk, null_bulk, array_of, str_of}

-- What the program takes from packages outside the repository: path.Match without its error,
-- strconv.ParseFloat and FormatFloat on bit patterns, and the text of INFO about the Go build.
pub record Env : Type 0 where
  pub match_glob : Bytes → Bytes → Bool
  pub parse_float : Bytes → Option ℕ
  pub format_float : ℕ → Bytes
  pub go_version : Bytes
  pub os_arch : Bytes

pub record QueuedCommand : Type 0 where
  pub name : Bytes
  pub args : List Value

-- Context: `sub` is the subscriber's pointer, `on_write` is OnWrite != nil.
pub record Context : Type 0 where
  pub sub : Option ℕ
  pub in_tx : Bool
  pub queue : List QueuedCommand
  pub tx_error : Bool
  pub on_write : Bool

-- The store and the hub are shared by the connections; `log` holds the command lines that OnWrite
-- was called with, oldest first. `now` and `later` are the readings of the clock during one call of
-- Dispatch: those of the lookups, and those that a second time.Now() makes.
pub record World : Type 0 where
  pub store : Store
  pub hub : Hub
  pub ctx : Context
  pub log : List (List Value)
  pub now : ℤ
  pub later : ℤ

abbrev pub Outcome : Type 0
Outcome = Option (World × Value)

-- ctx.Registry.Dispatch
abbrev pub Dispatcher : Type 0
Dispatcher = World → Bytes → List Value → Outcome

-- Handler; EXEC alone uses the dispatcher.
abbrev pub Handler : Type 0
Handler = Dispatcher → World → List Value → Outcome

infixl 5 ◌>>=◌
abbrev pub ◌>>=◌ {ℓ κ} : {A : Type ℓ} {B : Type κ} → Option A → (A → Option B) → Option B
none >>= f = none
some a >>= f = f a

abbrev string_of : Option Value → Option Bytes
string_of none = none
string_of (some v) = some (str_of v)

-- args[i].Str
abbrev pub arg : List Value → ℕ → Option Bytes
arg args i = string_of (get_elem? args i)

-- argStrings
abbrev pub arg_strings : List Value → List Bytes
arg_strings args = map str_of args

-- args[1:]
abbrev pub rest_of : List Value → Option (List Value)
rest_of [] = none
rest_of (v ∷ vs) = some vs

abbrev pub error_text : StoreError → Bytes
error_text wrong_type = codes "WRONGTYPE Operation against a key holding the wrong kind of value"
error_text not_an_integer = codes "ERR value is not an integer or out of range"
error_text would_overflow = codes "ERR increment or decrement would overflow"
error_text no_such_key = codes "ERR no such key"

abbrev pub bad_integer : Value
bad_integer = error (codes "ERR value is not an integer or out of range")

abbrev pub syntax_error : Value
syntax_error = error (codes "ERR syntax error")

abbrev pub count_reply : ℕ → Value
count_reply n = integer (pos n)

abbrev pub flag_reply : Bool → Value
flag_reply true = integer (pos 1)
flag_reply false = integer (pos 0)

abbrev pub opt_reply : Option Bytes → Value
opt_reply none = null_bulk
opt_reply (some s) = bulk s

-- A reply from a store result: the error's text, or the value by `f`.
abbrev pub reply_by {ℓ} : {A : Type ℓ} → (A → Value) → Result A → Value
reply_by f (err c) = error (error_text c)
reply_by f (ok a) = f a

-- A handler that reads the store, and one that writes it.
abbrev pub reads : World → Value → Outcome
reads w v = some (w, v)

abbrev pub writes {ℓ} : {A : Type ℓ} → World → (A → Value) → Store × A → Outcome
writes w f (s, a) = some (record w { store = s }, f a)
