-- ===== src/Command/ZSets/Safe.antt =====
-- The handlers of zsets.go are safe on the arguments that their arity admits.
use goredis_main.Prelude.{
  ℕ, suc, ◌+◌, ◌<◌, ◌%◌, ◌≡◌, Bool, List, [], ◌∷◌, Option, none, some, length, ◌==◌, if_intro,
  arith,
}
use goredis_main.Prelude.Int.{ℤ}
use goredis_main.Strconv.{parse_int}
use goredis_main.GoMap.{Map, insert, size}
use goredis_main.Resp.Value.{Value, str_of}
use goredis_main.Store.Invariant.{IsValid}
use goredis_main.Command.{Env, World}
use goredis_main.Command.Returns.{
  Returns, reads-Returns, writes-Returns, SafeOn, Exactly, AtLeast, with_one, with_two,
  with_two_more, with_three_more,
}
use goredis_main.Prelude.{Option-cases, inl, inr}
use goredis_main.GoMap.Laws.{size-insert_pos}
use goredis_main.Store.ZSets.Invariant.{zadd-IsValid, zrem-IsValid}
use goredis_main.Command.ZSets.{
  Scores, scores, bad_float, out_of_range, score_args, zadd_parsed, zadd, zscore, zrem, zcard,
  zrank, range_options, options_of, zrange_options, zrange_parsed, zrange,
}

-- What an even number of arguments is parsed to: never an index out of range.
abbrev ScoresOk : Scores → Type 0
ScoresOk (scores m) = 0 < size m
ScoresOk bad_float = Unit
ScoresOk out_of_range = ⊥

score_args-ScoresOk :
    (env : Env) (args : List Value) (m : Map ℕ)
    → length args % 2 ≡ 0
    → 0 < size m + length args
    → ScoresOk (score_args env args m)
unfolding score_args
score_args-ScoresOk env [] m h p = omega arith
score_args-ScoresOk env (k ∷ []) m h p = absurd (omega arith)
score_args-ScoresOk env (sc ∷ v ∷ args) m h p = elim (Option-cases (env.parse_float (str_of sc))) [
  | inl e ↦ rw (e, score_args) tt
  | inr (x, e) ↦
      rw (e, score_args)
        (score_args-ScoresOk env args (insert (str_of v) x m) (omega arith)
          (omega (arith, size-insert_pos (str_of v) x m)))
]

zadd_parsed-Safe :
    (w : World) (a : Value) (args : List Value) (p : Scores)
    → ScoresOk p
    → IsValid w.store
    → Returns w (zadd_parsed w (a ∷ args) p)
unfolding zadd_parsed
zadd_parsed-Safe w a args (scores m) p ok =
    writes-Returns w _ _ (zadd-IsValid w.store w.now (str_of a) ok m p)
zadd_parsed-Safe w a args bad_float p ok = reads-Returns w _ ok
zadd_parsed-Safe w a args out_of_range p ok = absurd p

pub zadd-Safe : (env : Env) → SafeOn (AtLeast 3) (zadd env)
unfolding zadd
zadd-Safe env d w [] h ok = absurd (omega arith)
zadd-Safe env d w (k ∷ args) h ok =
    if_intro (Returns w) (suc (length args) % 2 == 1) _ _
      (λ odd.
        zadd_parsed-Safe w k args _ (score_args-ScoresOk env args [] (ground arith) (omega arith))
          ok)
      (λ _. reads-Returns w _ ok)

zrange_options-Safe :
    (env : Env) (w : World) (a : Value) (args : List Value) (i j : ℤ) (o : Option Bool)
    → IsValid w.store
    → Returns w (zrange_options env w (a ∷ args) i j o)
unfolding zrange_options
zrange_options-Safe env w a args i j none ok = reads-Returns w _ ok
zrange_options-Safe env w a args i j (some b) ok = reads-Returns w _ ok

zrange_parsed-Safe :
    (env : Env) (w : World) (a : Value) (args : List Value) (i j : Option ℤ)
    → IsValid w.store
    → Returns w (zrange_parsed env w (a ∷ args) i j)
unfolding zrange_parsed
zrange_parsed-Safe env w a args (some i) (some j) ok =
    zrange_options-Safe env w a args i j (range_options (options_of (a ∷ args))) ok
zrange_parsed-Safe env w a args (some i) none ok = reads-Returns w _ ok
zrange_parsed-Safe env w a args none j ok = reads-Returns w _ ok

pub zscore-Safe : (env : Env) → SafeOn (Exactly 2) (zscore env)
unfolding zscore
zscore-Safe env d w args h ok =
    with_two (λ args. Returns w (zscore env d w args)) (λ a b. reads-Returns w _ ok) args h

pub zrem-Safe : SafeOn (AtLeast 2) zrem
unfolding zrem
zrem-Safe d w args h ok =
    with_two_more (λ args. Returns w (zrem d w args))
      (λ a b args. writes-Returns w _ _ (zrem-IsValid w.store w.now (str_of a) ok _)) args h

pub zcard-Safe : SafeOn (Exactly 1) zcard
unfolding zcard
zcard-Safe d w args h ok =
    with_one (λ args. Returns w (zcard d w args)) (λ a. reads-Returns w _ ok) args h

pub zrank-Safe : SafeOn (Exactly 2) zrank
unfolding zrank
zrank-Safe d w args h ok =
    with_two (λ args. Returns w (zrank d w args)) (λ a b. reads-Returns w _ ok) args h

pub zrange-Safe : (env : Env) → SafeOn (AtLeast 3) (zrange env)
unfolding zrange
zrange-Safe env d w args h ok =
    with_three_more (λ args. Returns w (zrange env d w args))
      (λ a b c args.
        zrange_parsed-Safe env w a (b ∷ c ∷ args) (parse_int (str_of b)) (parse_int (str_of c)) ok)
      args h
