-- ===== src/Command/Hashes/Acts.antt =====
-- How the handlers of hashes.go and sets.go act on the store.
use goredis_main.Prelude.{
  ◌%◌, ◌==◌, refl, true, false, List, [], Option, none, some, length, Bool-cases, inl, inr,
}
use goredis_main.Prelude.Int.{ℤ}
use goredis_main.Strconv.{parse_int}
use goredis_main.Resp.Value.{Value}
use goredis_main.Pubsub.{Hub}
use goredis_main.Command.{World, Context, arg, arg_strings, rest_of, count_reply}
use goredis_main.Command.Acts.{twin, Acts, ActsOn, bind-Acts, reads-Acts, results-Acts}
use goredis_main.Resp.Value.{integer}
use goredis_main.Store.Hashes
use goredis_main.Store.Sets
use goredis_main.Store.Hashes.Atomic.{hset-Atomic, hdel-Atomic, hincr_by-Atomic}
use goredis_main.Store.Sets.Atomic.{sadd-Atomic, srem-Atomic}
use goredis_main.Command.Strings.{pair_args}
use goredis_main.Command.Hashes.{
  hset, hget, hgetall, hdel, hexists, hlen, hkeys, hvals, hmget, hincr_reply, hincrby, sadd, srem,
  smembers, sismember, scard,
}

pub hset-Acts : ActsOn true hset
unfolding hset
hset-Acts d d' w hub ctx log args = elim (Bool-cases (length args % 2 == 1)) [
  | inl e ↦ rw e (
      bind-Acts (rest_of args) λ rest. bind-Acts (pair_args rest []) λ fields.
        bind-Acts (arg args 0) λ key.
          results-Acts w hub ctx log count_reply (Hashes.hset w.store w.now key fields) (λ a. refl)
            (hset-Atomic w.store w.now key fields))
  | inr e ↦ rw e (reads-Acts w hub ctx log true _)
]

pub hget-Acts : ActsOn false hget
unfolding hget
hget-Acts d d' w hub ctx log args =
    bind-Acts (arg args 0) λ key. bind-Acts (arg args 1) λ field. reads-Acts w hub ctx log false _

pub hgetall-Acts : ActsOn false hgetall
unfolding hgetall
hgetall-Acts d d' w hub ctx log args =
    bind-Acts (arg args 0) λ key. reads-Acts w hub ctx log false _

pub hdel-Acts : ActsOn true hdel
unfolding hdel
hdel-Acts d d' w hub ctx log args = bind-Acts (arg args 0) λ key. bind-Acts (rest_of args) λ rest.
    results-Acts w hub ctx log count_reply (Hashes.hdel w.store w.now key (arg_strings rest))
      (λ a. refl) (hdel-Atomic w.store w.now key (arg_strings rest))

pub hexists-Acts : ActsOn false hexists
unfolding hexists
hexists-Acts d d' w hub ctx log args =
    bind-Acts (arg args 0) λ key. bind-Acts (arg args 1) λ field. reads-Acts w hub ctx log false _

pub hlen-Acts : ActsOn false hlen
unfolding hlen
hlen-Acts d d' w hub ctx log args = bind-Acts (arg args 0) λ key. reads-Acts w hub ctx log false _

pub hkeys-Acts : ActsOn false hkeys
unfolding hkeys
hkeys-Acts d d' w hub ctx log args = bind-Acts (arg args 0) λ key. reads-Acts w hub ctx log false _

pub hvals-Acts : ActsOn false hvals
unfolding hvals
hvals-Acts d d' w hub ctx log args = bind-Acts (arg args 0) λ key. reads-Acts w hub ctx log false _

pub hmget-Acts : ActsOn false hmget
unfolding hmget
hmget-Acts d d' w hub ctx log args =
    bind-Acts (arg args 0) λ key. bind-Acts (rest_of args) λ rest. reads-Acts w hub ctx log false _

hincr_reply-Acts :
    (w : World) (hub : Hub) (ctx : Context) (log : List (List Value)) (args : List Value)
    (o : Option ℤ)
    → Acts true w
        (twin w hub ctx log)
        (hincr_reply w args o)
        (hincr_reply (twin w hub ctx log) args o)
unfolding hincr_reply
hincr_reply-Acts w hub ctx log args none = reads-Acts w hub ctx log true _
hincr_reply-Acts w hub ctx log args (some delta) = bind-Acts (arg args 0) λ key.
    bind-Acts (arg args 1) λ field.
      results-Acts w hub ctx log integer (Hashes.hincr_by w.store w.now key field delta) (λ a. refl)
        (hincr_by-Atomic w.store w.now key field delta)

pub hincrby-Acts : ActsOn true hincrby
unfolding hincrby
hincrby-Acts d d' w hub ctx log args =
    bind-Acts (arg args 2) λ n. hincr_reply-Acts w hub ctx log args (parse_int n)

pub sadd-Acts : ActsOn true sadd
unfolding sadd
sadd-Acts d d' w hub ctx log args = bind-Acts (arg args 0) λ key. bind-Acts (rest_of args) λ rest.
    results-Acts w hub ctx log count_reply (Sets.sadd w.store w.now key (arg_strings rest))
      (λ a. refl) (sadd-Atomic w.store w.now key (arg_strings rest))

pub srem-Acts : ActsOn true srem
unfolding srem
srem-Acts d d' w hub ctx log args = bind-Acts (arg args 0) λ key. bind-Acts (rest_of args) λ rest.
    results-Acts w hub ctx log count_reply (Sets.srem w.store w.now key (arg_strings rest))
      (λ a. refl) (srem-Atomic w.store w.now key (arg_strings rest))

pub smembers-Acts : ActsOn false smembers
unfolding smembers
smembers-Acts d d' w hub ctx log args =
    bind-Acts (arg args 0) λ key. reads-Acts w hub ctx log false _

pub sismember-Acts : ActsOn false sismember
unfolding sismember
sismember-Acts d d' w hub ctx log args =
    bind-Acts (arg args 0) λ key. bind-Acts (arg args 1) λ member. reads-Acts w hub ctx log false _

pub scard-Acts : ActsOn false scard
unfolding scard
scard-Acts d d' w hub ctx log args = bind-Acts (arg args 0) λ key. reads-Acts w hub ctx log false _
