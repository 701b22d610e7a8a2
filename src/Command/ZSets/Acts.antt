-- ===== src/Command/ZSets/Acts.antt =====
-- How the handlers of zsets.go act on the store.
use goredis_main.Prelude.{
  ◌%◌, ◌==◌, refl, Bool, true, false, List, [], Option, none, some, length, Bool-cases, inl, inr,
}
use goredis_main.Prelude.Int.{ℤ}
use goredis_main.Strconv.{parse_int}
use goredis_main.Resp.Value.{Value}
use goredis_main.Pubsub.{Hub}
use goredis_main.Command.{Env, World, Context, arg, arg_strings, rest_of, count_reply}
use goredis_main.Command.Acts.{twin, Acts, ActsOn, bind-Acts, reads-Acts, results-Acts}
use goredis_main.Store.ZSets
use goredis_main.Store.ZSets.Atomic.{zadd-Atomic, zrem-Atomic}
use goredis_main.Command.Acts.{panics}
use goredis_main.Command.ZSets.{
  Scores, scores, bad_float, out_of_range, score_args, zadd_parsed, zadd, zscore, zrem, zcard,
  zrank, range_options, options_of, zrange_options, zrange_parsed, zrange,
}

zadd_parsed-Acts :
    (w : World) (hub : Hub) (ctx : Context) (log : List (List Value)) (args : List Value)
    (o : Scores)
    → Acts true w
        (twin w hub ctx log)
        (zadd_parsed w args o)
        (zadd_parsed (twin w hub ctx log) args o)
unfolding zadd_parsed
zadd_parsed-Acts w hub ctx log args (scores m) = bind-Acts (arg args 0) λ key.
    results-Acts w hub ctx log count_reply (ZSets.zadd w.store w.now key m) (λ a. refl)
      (zadd-Atomic w.store w.now key m)
zadd_parsed-Acts w hub ctx log args bad_float = reads-Acts w hub ctx log true _
zadd_parsed-Acts w hub ctx log args out_of_range = panics

pub zadd-Acts : (env : Env) → ActsOn true (zadd env)
unfolding zadd
zadd-Acts env d d' w hub ctx log args = elim (Bool-cases (length args % 2 == 1)) [
  | inl e ↦ rw e (
      bind-Acts (rest_of args) λ rest. zadd_parsed-Acts w hub ctx log args (score_args env rest []))
  | inr e ↦ rw e (reads-Acts w hub ctx log true _)
]

pub zscore-Acts : (env : Env) → ActsOn false (zscore env)
unfolding zscore
zscore-Acts env d d' w hub ctx log args =
    bind-Acts (arg args 0) λ key. bind-Acts (arg args 1) λ member. reads-Acts w hub ctx log false _

pub zrem-Acts : ActsOn true zrem
unfolding zrem
zrem-Acts d d' w hub ctx log args = bind-Acts (arg args 0) λ key. bind-Acts (rest_of args) λ rest.
    results-Acts w hub ctx log count_reply (ZSets.zrem w.store w.now key (arg_strings rest))
      (λ a. refl) (zrem-Atomic w.store w.now key (arg_strings rest))

pub zcard-Acts : ActsOn false zcard
unfolding zcard
zcard-Acts d d' w hub ctx log args = bind-Acts (arg args 0) λ key. reads-Acts w hub ctx log false _

pub zrank-Acts : ActsOn false zrank
unfolding zrank
zrank-Acts d d' w hub ctx log args =
    bind-Acts (arg args 0) λ key. bind-Acts (arg args 1) λ member. reads-Acts w hub ctx log false _

zrange_options-Acts :
    (env : Env) (w : World) (hub : Hub) (ctx : Context) (log : List (List Value))
    (args : List Value) (start stop : ℤ) (o : Option Bool)
    → Acts false w
        (twin w hub ctx log)
        (zrange_options env w args start stop o)
        (zrange_options env (twin w hub ctx log) args start stop o)
unfolding zrange_options
zrange_options-Acts env w hub ctx log args start stop none = reads-Acts w hub ctx log false _
zrange_options-Acts env w hub ctx log args start stop (some with) =
    bind-Acts (arg args 0) λ key. reads-Acts w hub ctx log false _

zrange_parsed-Acts :
    (env : Env) (w : World) (hub : Hub) (ctx : Context) (log : List (List Value))
    (args : List Value) (start stop : Option ℤ)
    → Acts false w
        (twin w hub ctx log)
        (zrange_parsed env w args start stop)
        (zrange_parsed env (twin w hub ctx log) args start stop)
unfolding zrange_parsed
zrange_parsed-Acts env w hub ctx log args (some i) (some j) =
    zrange_options-Acts env w hub ctx log args i j (range_options (options_of args))
zrange_parsed-Acts env w hub ctx log args (some i) none = reads-Acts w hub ctx log false _
zrange_parsed-Acts env w hub ctx log args none j = reads-Acts w hub ctx log false _

pub zrange-Acts : (env : Env) → ActsOn false (zrange env)
unfolding zrange
zrange-Acts env d d' w hub ctx log args = bind-Acts (arg args 1) λ start.
    bind-Acts (arg args 2)
      λ stop. zrange_parsed-Acts env w hub ctx log args (parse_int start) (parse_int stop)
