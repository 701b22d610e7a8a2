-- ===== src/Command/Lists/Safe.antt =====
-- The handlers of lists.go are safe on the arguments that their arity admits.
use goredis_main.Prelude.{List, [], ◌∷◌, Option, none, some, arith}
use goredis_main.Prelude.Int.{ℤ}
use goredis_main.Strconv.{parse_int}
use goredis_main.Resp.Value.{Value, str_of}
use goredis_main.Store.Invariant.{IsValid}
use goredis_main.Command.{World}
use goredis_main.Command.Returns.{
  Returns, reads-Returns, writes-Returns, SafeOn, Exactly, AtLeast, with_one, with_two, with_three,
  with_two_more,
}
use goredis_main.Store.Lists.Invariant.{lpush-IsValid, rpush-IsValid, lpop-IsValid, rpop-IsValid}
use goredis_main.Command.Lists.{
  lpush, rpush, lpop, rpop, llen, range_reply, lrange, index_reply, lindex,
}

pub lpush-Safe : SafeOn (AtLeast 2) lpush
unfolding lpush
lpush-Safe d w args h ok =
    with_two_more (λ args. Returns w (lpush d w args))
      (λ a b args. writes-Returns w _ _ (lpush-IsValid w.store w.now (str_of a) ok _ (omega arith)))
      args h

pub rpush-Safe : SafeOn (AtLeast 2) rpush
unfolding rpush
rpush-Safe d w args h ok =
    with_two_more (λ args. Returns w (rpush d w args))
      (λ a b args. writes-Returns w _ _ (rpush-IsValid w.store w.now (str_of a) ok _ (omega arith)))
      args h

pub lpop-Safe : SafeOn (Exactly 1) lpop
unfolding lpop
lpop-Safe d w args h ok =
    with_one (λ args. Returns w (lpop d w args))
      (λ a. writes-Returns w _ _ (lpop-IsValid w.store w.now (str_of a) ok)) args h

pub rpop-Safe : SafeOn (Exactly 1) rpop
unfolding rpop
rpop-Safe d w args h ok =
    with_one (λ args. Returns w (rpop d w args))
      (λ a. writes-Returns w _ _ (rpop-IsValid w.store w.now (str_of a) ok)) args h

pub llen-Safe : SafeOn (Exactly 1) llen
unfolding llen
llen-Safe d w args h ok =
    with_one (λ args. Returns w (llen d w args)) (λ a. reads-Returns w _ ok) args h

range_reply-Safe :
    (w : World) (a : Value) (args : List Value) (start stop : Option ℤ)
    → IsValid w.store
    → Returns w (range_reply w (a ∷ args) start stop)
unfolding range_reply
range_reply-Safe w a args (some i) (some j) ok = reads-Returns w _ ok
range_reply-Safe w a args (some i) none ok = reads-Returns w _ ok
range_reply-Safe w a args none j ok = reads-Returns w _ ok

index_reply-Safe :
    (w : World) (a : Value) (args : List Value) (i : Option ℤ)
    → IsValid w.store
    → Returns w (index_reply w (a ∷ args) i)
unfolding index_reply
index_reply-Safe w a args none ok = reads-Returns w _ ok
index_reply-Safe w a args (some i) ok = reads-Returns w _ ok

pub lrange-Safe : SafeOn (Exactly 3) lrange
unfolding lrange
lrange-Safe d w args h ok =
    with_three (λ args. Returns w (lrange d w args))
      (λ a b c. range_reply-Safe w a (b ∷ c ∷ []) (parse_int (str_of b)) (parse_int (str_of c)) ok)
      args h

pub lindex-Safe : SafeOn (Exactly 2) lindex
unfolding lindex
lindex-Safe d w args h ok =
    with_two (λ args. Returns w (lindex d w args))
      (λ a b. index_reply-Safe w a (b ∷ []) (parse_int (str_of b)) ok) args h
