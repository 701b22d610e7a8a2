-- ===== src/Command/Generic/Acts.antt =====
-- How the handlers of generic.go, connection.go and server.go act on the store.
use goredis_main.Prelude.{ℕ, refl, true, false, List, [], ◌∷◌, Option, none, some, Bytes}
use goredis_main.Prelude.Int.{ℤ, pos}
use goredis_main.Strconv.{parse_int}
use goredis_main.Resp.Value.{Value}
use goredis_main.Pubsub.{Hub}
use goredis_main.Command.{Env, World, Context, arg, arg_strings, count_reply, flag_reply}
use goredis_main.Command.Acts.{
  twin, Acts, ActsOn, bind-Acts, reads-Acts, stores-Acts, writes-Acts, results-Acts, flag_fine,
}
use goredis_main.Machine.{mul64}
use goredis_main.Resp.Value.{ok_reply}
use goredis_main.Store.Keyspace
use goredis_main.Store.Keyspace.{second, millisecond}
use goredis_main.Store.Keyspace.Atomic.{rename-Atomic}
use goredis_main.Command.Generic.{
  del, exists, expire_by, expire, pexpire, ttl, pttl, persist, type_cmd, keys, rename, ping, echo,
  flushall, dbsize, info,
}

pub del-Acts : ActsOn true del
unfolding del
del-Acts d d' w hub ctx log args =
    writes-Acts w hub ctx log count_reply (Keyspace.del w.store w.now (arg_strings args)) (λ e. cc)

pub exists-Acts : ActsOn false exists
unfolding exists
exists-Acts d d' w hub ctx log args = reads-Acts w hub ctx log false _

expire_by-Acts :
    (unit : ℕ) (w : World) (hub : Hub) (ctx : Context) (log : List (List Value)) (key : Bytes)
    (o : Option ℤ)
    → Acts true w
        (twin w hub ctx log)
        (expire_by unit w key o)
        (expire_by unit (twin w hub ctx log) key o)
expire_by-Acts unit w hub ctx log key none = reads-Acts w hub ctx log true _
expire_by-Acts unit w hub ctx log key (some n) =
    writes-Acts w hub ctx log flag_reply
      (Keyspace.expire w.store w.now w.later key (mul64 n (pos unit))) (flag_fine _)

pub expire-Acts : ActsOn true expire
unfolding expire
expire-Acts d d' w hub ctx log args =
    bind-Acts (arg args 1)
      λ n. bind-Acts (arg args 0) λ key. expire_by-Acts second w hub ctx log key (parse_int n)

pub pexpire-Acts : ActsOn true pexpire
unfolding pexpire
pexpire-Acts d d' w hub ctx log args =
    bind-Acts (arg args 1)
      λ n. bind-Acts (arg args 0) λ key. expire_by-Acts millisecond w hub ctx log key (parse_int n)

pub ttl-Acts : ActsOn false ttl
unfolding ttl
ttl-Acts d d' w hub ctx log args = bind-Acts (arg args 0) λ key. reads-Acts w hub ctx log false _

pub pttl-Acts : ActsOn false pttl
unfolding pttl
pttl-Acts d d' w hub ctx log args = bind-Acts (arg args 0) λ key. reads-Acts w hub ctx log false _

pub persist-Acts : ActsOn true persist
unfolding persist
persist-Acts d d' w hub ctx log args =
    bind-Acts (arg args 0)
      λ key. writes-Acts w hub ctx log flag_reply (Keyspace.persist w.store w.now key) (flag_fine _)

pub type_cmd-Acts : ActsOn false type_cmd
unfolding type_cmd
type_cmd-Acts d d' w hub ctx log args =
    bind-Acts (arg args 0) λ key. reads-Acts w hub ctx log false _

pub keys-Acts : (env : Env) → ActsOn false (keys env)
unfolding keys
keys-Acts env d d' w hub ctx log args =
    bind-Acts (arg args 0) λ pattern'. reads-Acts w hub ctx log false _

pub rename-Acts : ActsOn true rename
unfolding rename
rename-Acts d d' w hub ctx log args = bind-Acts (arg args 0) λ src. bind-Acts (arg args 1) λ dst.
    results-Acts w hub ctx log (λ _. ok_reply) (Keyspace.rename w.store w.now src dst) (λ a. refl)
      (rename-Atomic w.store w.now src dst)

pub ping-Acts : ActsOn false ping
unfolding ping
ping-Acts d d' w hub ctx log [] = reads-Acts w hub ctx log false _
ping-Acts d d' w hub ctx log (v ∷ vs) = reads-Acts w hub ctx log false _

pub echo-Acts : ActsOn false echo
unfolding echo
echo-Acts d d' w hub ctx log args = bind-Acts (arg args 0) λ s. reads-Acts w hub ctx log false _

pub flushall-Acts : ActsOn true flushall
unfolding flushall
flushall-Acts d d' w hub ctx log args =
    stores-Acts w hub ctx log (Keyspace.flush_all w.store) ok_reply (λ e. cc)

pub dbsize-Acts : ActsOn false dbsize
unfolding dbsize
dbsize-Acts d d' w hub ctx log args = reads-Acts w hub ctx log false _

pub info-Acts : (env : Env) → ActsOn false (info env)
unfolding info
info-Acts env d d' w hub ctx log args = reads-Acts w hub ctx log false _
