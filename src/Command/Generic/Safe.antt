-- ===== src/Command/Generic/Safe.antt =====
-- The handlers of generic.go, connection.go and server.go are safe on the arguments that their
-- arity admits.
use goredis_main.Prelude.{ℕ, refl, [], ◌∷◌, Option, none, some, Bytes}
use goredis_main.Prelude.Int.{ℤ}
use goredis_main.Strconv.{parse_int}
use goredis_main.Resp.Value.{str_of}
use goredis_main.Store.Invariant.{IsValid}
use goredis_main.Command.{Env, World, arg_strings}
use goredis_main.Command.Returns.{
  Returns, returns, reads-Returns, writes-Returns, SafeOn, Exactly, AtLeast, with_one, with_two,
}
use goredis_main.Store.Keyspace.Invariant.{
  del-IsValid, expire-IsValid, persist-IsValid, flush_all-IsValid, rename-IsValid,
}
use goredis_main.Command.Generic.{
  del, exists, expire_by, expire, pexpire, ttl, pttl, persist, type_cmd, keys, rename, ping, echo,
  flushall, dbsize, info,
}

pub del-Safe : SafeOn (AtLeast 1) del
unfolding del
del-Safe d w args h ok = writes-Returns w _ _ (del-IsValid w.store w.now (arg_strings args) ok)

pub exists-Safe : SafeOn (AtLeast 1) exists
unfolding exists
exists-Safe d w args h ok = reads-Returns w _ ok

expire_by-Safe :
    (unit : ℕ) (w : World) (key : Bytes) (n : Option ℤ)
    → IsValid w.store
    → Returns w (expire_by unit w key n)
expire_by-Safe unit w key none ok = reads-Returns w _ ok
expire_by-Safe unit w key (some n) ok =
    writes-Returns w _ _ (expire-IsValid w.store w.now w.later key _ ok)

pub expire-Safe : SafeOn (Exactly 2) expire
unfolding expire
expire-Safe d w args h ok =
    with_two (λ args. Returns w (expire d w args))
      (λ a b. expire_by-Safe _ w (str_of a) (parse_int (str_of b)) ok) args h

pub pexpire-Safe : SafeOn (Exactly 2) pexpire
unfolding pexpire
pexpire-Safe d w args h ok =
    with_two (λ args. Returns w (pexpire d w args))
      (λ a b. expire_by-Safe _ w (str_of a) (parse_int (str_of b)) ok) args h

pub ttl-Safe : SafeOn (Exactly 1) ttl
unfolding ttl
ttl-Safe d w args h ok =
    with_one (λ args. Returns w (ttl d w args)) (λ a. reads-Returns w _ ok) args h

pub pttl-Safe : SafeOn (Exactly 1) pttl
unfolding pttl
pttl-Safe d w args h ok =
    with_one (λ args. Returns w (pttl d w args)) (λ a. reads-Returns w _ ok) args h

pub persist-Safe : SafeOn (Exactly 1) persist
unfolding persist
persist-Safe d w args h ok =
    with_one (λ args. Returns w (persist d w args))
      (λ a. writes-Returns w _ _ (persist-IsValid w.store w.now (str_of a) ok)) args h

pub type_cmd-Safe : SafeOn (Exactly 1) type_cmd
unfolding type_cmd
type_cmd-Safe d w args h ok =
    with_one (λ args. Returns w (type_cmd d w args)) (λ a. reads-Returns w _ ok) args h

pub keys-Safe : (env : Env) → SafeOn (Exactly 1) (keys env)
unfolding keys
keys-Safe env d w args h ok =
    with_one (λ args. Returns w (keys env d w args)) (λ a. reads-Returns w _ ok) args h

pub rename-Safe : SafeOn (Exactly 2) rename
unfolding rename
rename-Safe d w args h ok =
    with_two (λ args. Returns w (rename d w args))
      (λ a b. writes-Returns w _ _ (rename-IsValid w.store w.now (str_of a) (str_of b) ok)) args h

pub ping-Safe : SafeOn (AtLeast 0) ping
unfolding ping
ping-Safe d w [] h ok = reads-Returns w _ ok
ping-Safe d w (v ∷ vs) h ok = reads-Returns w _ ok

pub echo-Safe : SafeOn (Exactly 1) echo
unfolding echo
echo-Safe d w args h ok =
    with_one (λ args. Returns w (echo d w args)) (λ a. reads-Returns w _ ok) args h

pub flushall-Safe : SafeOn (Exactly 0) flushall
unfolding flushall
flushall-Safe d w args h ok =
    returns _ _ (flush_all-IsValid w.store)
      (record { same_in_tx = refl; same_queue = refl; same_error = refl })

pub dbsize-Safe : SafeOn (Exactly 0) dbsize
unfolding dbsize
dbsize-Safe d w args h ok = reads-Returns w _ ok

pub info-Safe : (env : Env) → SafeOn (AtLeast 0) (info env)
unfolding info
info-Safe env d w args h ok = reads-Returns w _ ok
