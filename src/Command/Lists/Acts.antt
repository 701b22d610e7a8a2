-- ===== src/Command/Lists/Acts.antt =====
-- How the handlers of lists.go act on the store.
use goredis_main.Prelude.{refl, true, false, List, Option, none, some}
use goredis_main.Prelude.Int.{ℤ}
use goredis_main.Strconv.{parse_int}
use goredis_main.Resp.Value.{Value}
use goredis_main.Pubsub.{Hub}
use goredis_main.Command.{World, Context, arg, arg_strings, rest_of, count_reply, opt_reply}
use goredis_main.Command.Acts.{twin, Acts, ActsOn, bind-Acts, reads-Acts, results-Acts, opt_fine}
use goredis_main.Store.Lists
use goredis_main.Store.Lists.Atomic.{lpush-Atomic, rpush-Atomic, lpop-Atomic, rpop-Atomic}
use goredis_main.Command.Lists.{
  lpush, rpush, lpop, rpop, llen, range_reply, lrange, index_reply, lindex,
}

pub lpush-Acts : ActsOn true lpush
unfolding lpush
lpush-Acts d d' w hub ctx log args = bind-Acts (arg args 0) λ key. bind-Acts (rest_of args) λ rest.
    results-Acts w hub ctx log count_reply (Lists.lpush w.store w.now key (arg_strings rest))
      (λ a. refl) (lpush-Atomic w.store w.now key (arg_strings rest))

pub rpush-Acts : ActsOn true rpush
unfolding rpush
rpush-Acts d d' w hub ctx log args = bind-Acts (arg args 0) λ key. bind-Acts (rest_of args) λ rest.
    results-Acts w hub ctx log count_reply (Lists.rpush w.store w.now key (arg_strings rest))
      (λ a. refl) (rpush-Atomic w.store w.now key (arg_strings rest))

pub lpop-Acts : ActsOn true lpop
unfolding lpop
lpop-Acts d d' w hub ctx log args = bind-Acts (arg args 0) λ key.
    results-Acts w hub ctx log opt_reply (Lists.lpop w.store w.now key) opt_fine
      (lpop-Atomic w.store w.now key)

pub rpop-Acts : ActsOn true rpop
unfolding rpop
rpop-Acts d d' w hub ctx log args = bind-Acts (arg args 0) λ key.
    results-Acts w hub ctx log opt_reply (Lists.rpop w.store w.now key) opt_fine
      (rpop-Atomic w.store w.now key)

pub llen-Acts : ActsOn false llen
unfolding llen
llen-Acts d d' w hub ctx log args = bind-Acts (arg args 0) λ key. reads-Acts w hub ctx log false _

range_reply-Acts :
    (w : World) (hub : Hub) (ctx : Context) (log : List (List Value)) (args : List Value)
    (start stop : Option ℤ)
    → Acts false w
        (twin w hub ctx log)
        (range_reply w args start stop)
        (range_reply (twin w hub ctx log) args start stop)
unfolding range_reply
range_reply-Acts w hub ctx log args (some i) (some j) =
    bind-Acts (arg args 0) λ key. reads-Acts w hub ctx log false _
range_reply-Acts w hub ctx log args (some i) none = reads-Acts w hub ctx log false _
range_reply-Acts w hub ctx log args none j = reads-Acts w hub ctx log false _

pub lrange-Acts : ActsOn false lrange
unfolding lrange
lrange-Acts d d' w hub ctx log args = bind-Acts (arg args 1) λ start.
    bind-Acts (arg args 2)
      λ stop. range_reply-Acts w hub ctx log args (parse_int start) (parse_int stop)

index_reply-Acts :
    (w : World) (hub : Hub) (ctx : Context) (log : List (List Value)) (args : List Value)
    (i : Option ℤ)
    → Acts false w
        (twin w hub ctx log)
        (index_reply w args i)
        (index_reply (twin w hub ctx log) args i)
unfolding index_reply
index_reply-Acts w hub ctx log args none = reads-Acts w hub ctx log false _
index_reply-Acts w hub ctx log args (some i) =
    bind-Acts (arg args 0) λ key. reads-Acts w hub ctx log false _

pub lindex-Acts : ActsOn false lindex
unfolding lindex
lindex-Acts d d' w hub ctx log args =
    bind-Acts (arg args 1) λ i. index_reply-Acts w hub ctx log args (parse_int i)
