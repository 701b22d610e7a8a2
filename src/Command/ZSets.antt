-- ===== src/Command/ZSets.antt =====
-- internal/command/zsets.go.
pub mod Safe
pub mod Acts
use goredis_main.Prelude.{
  ℕ, zero, suc, ◌%◌, Bool, true, false, List, [], ◌∷◌, Option, none, some, Bytes, bytes_eq, codes,
  length, map, ◌==◌, ltb, if◌then◌else◌,
}
use goredis_main.Prelude.Int.{ℤ}
use goredis_main.Strconv.{parse_int}
use goredis_main.GoMap.{Map, insert}
use goredis_main.Resp.Value.{Value, bulk, error, null_bulk, array_of, bulk_strings, str_of}
use goredis_main.Store.ZSets
use goredis_main.Store.ZSets.{ZMember}
use goredis_main.Command.{
  Env, World, Outcome, Handler, ◌>>=◌, arg, arg_strings, rest_of, bad_integer, syntax_error,
  count_reply, reply_by, reads, writes,
}
use goredis_main.Command.Names.{to_upper}

-- The members that were parsed, or the error reply, or a panic.
pub data Scores : Type 0 where
  scores : Map ℕ → Scores
  bad_float out_of_range : Scores

-- The loop of ZADD over args[1:], two arguments at a time.
unfoldable pub score_args : Env → List Value → Map ℕ → Scores
score_args env [] m = scores m
score_args env (sc ∷ []) m = elim (env.parse_float (str_of sc)) [
  | none ↦ bad_float
  | some x ↦ out_of_range
]
score_args env (sc ∷ v ∷ args) m = elim (env.parse_float (str_of sc)) [
  | none ↦ bad_float
  | some x ↦ score_args env args (insert (str_of v) x m)
]

zadd_parsed : World → List Value → Scores → Outcome
zadd_parsed w args (scores m) = do
  key ← arg args 0
  writes w (reply_by count_reply) (ZSets.zadd w.store w.now key m)
zadd_parsed w args bad_float = reads w (error (codes "ERR value is not a valid float"))
zadd_parsed w args out_of_range = none

unfoldable pub zadd : Env → Handler
unfolding zadd_parsed
zadd env _ w args =
    if length args % 2 == 1
    then (do rest ← rest_of args; zadd_parsed w args (score_args env rest []))
    else reads w (error (codes "ERR wrong number of arguments for 'zadd' command"))

abbrev score_reply : Env → Option ℕ → Value
score_reply env none = null_bulk
score_reply env (some x) = bulk (env.format_float x)

unfoldable pub zscore : Env → Handler
zscore env _ w args = do
  key ← arg args 0
  member ← arg args 1
  reads w (reply_by (score_reply env) (ZSets.zscore w.store w.now key member))

unfoldable pub zrem : Handler
zrem _ w args = do
  key ← arg args 0
  rest ← rest_of args
  writes w (reply_by count_reply) (ZSets.zrem w.store w.now key (arg_strings rest))

unfoldable pub zcard : Handler
zcard _ w args = do key ← arg args 0; reads w (reply_by count_reply (ZSets.zcard w.store w.now key))

abbrev rank_reply : Option ℕ → Value
rank_reply none = null_bulk
rank_reply (some r) = count_reply r

unfoldable pub zrank : Handler
zrank _ w args = do
  key ← arg args 0
  member ← arg args 1
  reads w (reply_by rank_reply (ZSets.zrank w.store w.now key member))

abbrev names_of : List ZMember → List Bytes
names_of l = map (λ m. m.0) l

abbrev with_scores : Env → List ZMember → List Value
with_scores env [] = []
with_scores env ((m, x) ∷ l) = bulk m ∷ bulk (env.format_float x) ∷ with_scores env l

abbrev members_reply : Env → Bool → List ZMember → Value
members_reply env false l = bulk_strings (names_of l)
members_reply env true l = array_of (with_scores env l)

-- The options of ZRANGE, args[3:]: whether WITHSCORES is there; `none` is a syntax error.
unfoldable pub range_options : List Value → Option Bool
range_options [] = some false
range_options (v ∷ []) =
    if bytes_eq (to_upper (str_of v)) (codes "WITHSCORES") then some true else none
range_options (v ∷ u ∷ vs) = none

-- args[3:]
abbrev options_of : List Value → List Value
options_of (a ∷ b ∷ c ∷ opts) = opts
options_of _ = []

zrange_options : Env → World → List Value → ℤ → ℤ → Option Bool → Outcome
zrange_options env w args start stop none = reads w syntax_error
zrange_options env w args start stop (some with) = do
  key ← arg args 0
  reads w (reply_by (members_reply env with) (ZSets.zrange w.store w.now key start stop))

zrange_parsed : Env → World → List Value → Option ℤ → Option ℤ → Outcome
unfolding zrange_options
zrange_parsed env w args (some start) (some stop) =
    zrange_options env w args start stop (range_options (options_of args))
zrange_parsed env w args _ _ = reads w bad_integer

unfoldable pub zrange : Env → Handler
unfolding zrange_parsed
zrange env _ w args = do
  start ← arg args 1
  stop ← arg args 2
  zrange_parsed env w args (parse_int start) (parse_int stop)
