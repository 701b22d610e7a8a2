-- ===== src/Command/Strings.antt =====
-- internal/command/strings.go.
pub mod Safe
pub mod Acts
use goredis_main.Prelude.{
  ℕ, zero, suc, ◌%◌, Bool, true, false, List, [], ◌∷◌, Option, none, some, Bytes, bytes_eq, codes,
  map, length, ◌==◌, if◌then◌else◌,
}
use goredis_main.Prelude.Int.{ℤ, pos, negsuc}
use goredis_main.Machine.{mul64, neg64}
use goredis_main.Strconv.{parse_int}
use goredis_main.GoMap.{Map, insert}
use goredis_main.Resp.Value.{Value, integer, error, null_bulk, ok_reply, array_of, str_of}
use goredis_main.Store.Keyspace.{second, millisecond}
use goredis_main.Store.Strings
use goredis_main.Store.Strings.{SetOptions, no_options}
use goredis_main.Command.{
  World, Outcome, Handler, ◌>>=◌, arg, arg_strings, bad_integer, syntax_error, count_reply,
  flag_reply, opt_reply, reply_by, reads, writes,
}
use goredis_main.Command.Names.{to_upper}

-- The cases of the switch in `set`; EX and PX with the unit of the number that follows.
pub data SetWord : Type 0 where
  nx xx other : SetWord
  expiry : ℕ → SetWord

unfoldable pub set_word : Bytes → SetWord
set_word s =
    if bytes_eq s (codes "NX")
    then nx
    else if bytes_eq s (codes "XX")
    then xx
    else if bytes_eq s (codes "EX")
    then expiry second
    else if bytes_eq s (codes "PX")
    then expiry millisecond
    else other

-- The options that were parsed, or the error reply.
pub data Parsed : Type 0 where
  parsed : SetOptions → Parsed
  refused : Value → Parsed

-- The loop over args[2:]. `unit` is there where EX or PX came last, and the next argument is the
-- number.
unfoldable pub set_options : List Value → Option ℕ → SetOptions → Parsed
unfolding set_word
set_options [] none opts = parsed opts
set_options [] (some unit) opts = refused syntax_error
set_options (a ∷ args) none opts = elim (set_word (to_upper (str_of a))) [
  | nx ↦ set_options args none (record opts { only_if_new = true })
  | xx ↦ set_options args none (record opts { only_if_old = true })
  | expiry unit ↦ set_options args (some unit) opts
  | other ↦ refused syntax_error
]
set_options (a ∷ args) (some unit) opts = elim (parse_int (str_of a)) [
  | none ↦ refused bad_integer
  | some n ↦ set_options args none (record opts { ttl = mul64 n (pos unit); has_ttl = true })
]

abbrev stored_reply : Bool → Value
stored_reply true = ok_reply
stored_reply false = null_bulk

set_parsed : World → Bytes → Bytes → Parsed → Outcome
set_parsed w key value (refused v) = reads w v
set_parsed w key value (parsed opts) =
    writes w stored_reply (Strings.set w.store w.now w.later key value opts)

-- args[2:]
abbrev options_of : List Value → List Value
options_of (k ∷ v ∷ opts) = opts
options_of _ = []

unfoldable pub set : Handler
unfolding set_parsed
set _ w args = do
  key ← arg args 0
  value ← arg args 1
  set_parsed w key value (set_options (options_of args) none no_options)

unfoldable pub get : Handler
get _ w args = do key ← arg args 0; reads w (reply_by opt_reply (Strings.get w.store w.now key))

unfoldable pub get_set : Handler
get_set _ w args = do
  key ← arg args 0
  value ← arg args 1
  writes w (reply_by opt_reply) (Strings.get_set w.store w.now key value)

unfoldable pub set_nx : Handler
set_nx _ w args = do
  key ← arg args 0
  value ← arg args 1
  writes w flag_reply
      (Strings.set w.store w.now w.later key value (record no_options { only_if_new = true }))

set_ex_by : World → Bytes → List Value → Option ℤ → Outcome
set_ex_by w key args none = reads w bad_integer
set_ex_by w key args (some n) = do
  value ← arg args 2
  writes w (λ _. ok_reply)
      (Strings.set w.store w.now w.later key value
        (record no_options { ttl = mul64 n (pos second); has_ttl = true }))

unfoldable pub set_ex : Handler
unfolding set_ex_by
set_ex _ w args = do n ← arg args 1; key ← arg args 0; set_ex_by w key args (parse_int n)

-- pairs[args[i].Str] = args[i+1].Str, two arguments at a time.
unfoldable pub pair_args : List Value → Map Bytes → Option (Map Bytes)
pair_args [] m = some m
pair_args (k ∷ []) m = none
pair_args (k ∷ v ∷ args) m = pair_args args (insert (str_of k) (str_of v) m)

unfoldable pub mset : Handler
unfolding pair_args
mset _ w args =
    if length args % 2 == 0
    then (do
      pairs ← pair_args args []
      some (record w { store = Strings.mset w.store pairs }, ok_reply))
    else reads w (error (codes "ERR wrong number of arguments for 'mset' command"))

unfoldable pub mget : Handler
mget _ w args = reads w (array_of (map opt_reply (Strings.mget w.store w.now (arg_strings args))))

-- incrByAmount
abbrev incr_by_amount : World → Bytes → ℤ → Outcome
incr_by_amount w key delta = writes w (reply_by integer) (Strings.incr_by w.store w.now key delta)

unfoldable pub incr : Handler
incr _ w args = do key ← arg args 0; incr_by_amount w key (pos 1)

unfoldable pub decr : Handler
decr _ w args = do key ← arg args 0; incr_by_amount w key (negsuc 0)

abbrev incr_parsed : (ℤ → ℤ) → World → Bytes → Option ℤ → Outcome
incr_parsed sign w key none = reads w bad_integer
incr_parsed sign w key (some delta) = incr_by_amount w key (sign delta)

unfoldable pub incr_by : Handler
incr_by _ w args = do n ← arg args 1; key ← arg args 0; incr_parsed (λ d. d) w key (parse_int n)

-- -delta on int64
unfoldable pub decr_by : Handler
decr_by _ w args = do n ← arg args 1; key ← arg args 0; incr_parsed neg64 w key (parse_int n)

unfoldable pub append_cmd : Handler
append_cmd _ w args = do
  key ← arg args 0
  value ← arg args 1
  writes w (reply_by count_reply) (Strings.append w.store w.now key value)

unfoldable pub strlen : Handler
strlen _ w args = do
  key ← arg args 0
  reads w (reply_by count_reply (Strings.strlen w.store w.now key))
