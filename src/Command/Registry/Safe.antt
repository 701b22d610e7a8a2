-- ===== src/Command/Registry/Safe.antt =====
-- Every command of the registry but the three of the transactions is safe on the arguments that its
-- arity admits.
use goredis_main.Prelude.{ℕ, ◌≡◌, true, false, some, Bytes, bytes_eq, length, arith}
use goredis_main.GoMap.{lookup}
use goredis_main.Command.{Env, Handler}
use goredis_main.Command.Returns.{SafeOn, Exactly, AtLeast}
use goredis_main.Command.Generic
use goredis_main.Command.Strings
use goredis_main.Command.Lists
use goredis_main.Command.Hashes
use goredis_main.Command.ZSets
use goredis_main.Command.Pubsub
use goredis_main.Command.Registry.Families.{Each, ◌&◌, Families, Families-lookup}
use goredis_main.Command.Registry.{
  Spec, exactly, at_least, check_arity, bypasses_queue, new_registry, connection_commands,
  generic_commands, string_commands, hash_commands, list_commands, set_commands, zset_commands,
  server_commands, pubsub_commands, transaction_commands,
}

-- A handler on the arguments that an arity admits.
abbrev pub SpecSafe : Spec → Type 0
SpecSafe spec = SafeOn (λ args. check_arity spec.arity (length args) ≡ true) spec.handler

-- What is shown of the spec under a name: it is safe, or the name bypasses the queue.
abbrev pub Good : Bytes → Spec → Type 0
Good name spec = bypasses_queue name ≡ false → SpecSafe spec

exactly-Safe :
    (n : ℕ) {h : Handler}
    → SafeOn (Exactly n) h
    → SafeOn (λ args. check_arity (exactly n) (length args) ≡ true) h
unfolding check_arity
exactly-Safe n safe d w args fits ok = safe d w args (ground arith) ok

at_least-Safe :
    (n : ℕ) {h : Handler}
    → SafeOn (AtLeast n) h
    → SafeOn (λ args. check_arity (at_least n) (length args) ≡ true) h
unfolding check_arity
at_least-Safe n safe d w args fits ok = safe d w args (ground arith) ok

connection_commands-Good : Each Good connection_commands
unfolding connection_commands
connection_commands-Good =
    (λ _. at_least-Safe 0 Generic.Safe.ping-Safe)
    & (λ _. exactly-Safe 1 Generic.Safe.echo-Safe)
    & tt

generic_commands-Good : (env : Env) → Each Good (generic_commands env)
unfolding generic_commands
generic_commands-Good env =
    (λ _. at_least-Safe 1 Generic.Safe.del-Safe)
    & (λ _. at_least-Safe 1 Generic.Safe.exists-Safe)
    & (λ _. exactly-Safe 2 Generic.Safe.expire-Safe)
    & (λ _. exactly-Safe 2 Generic.Safe.pexpire-Safe)
    & (λ _. exactly-Safe 1 Generic.Safe.ttl-Safe)
    & (λ _. exactly-Safe 1 Generic.Safe.pttl-Safe)
    & (λ _. exactly-Safe 1 Generic.Safe.persist-Safe)
    & (λ _. exactly-Safe 1 Generic.Safe.type_cmd-Safe)
    & (λ _. exactly-Safe 1 (Generic.Safe.keys-Safe env))
    & (λ _. exactly-Safe 2 Generic.Safe.rename-Safe)
    & tt

string_commands-Good : Each Good string_commands
unfolding string_commands
string_commands-Good =
    (λ _. at_least-Safe 2 Strings.Safe.set-Safe)
    & (λ _. exactly-Safe 1 Strings.Safe.get-Safe)
    & (λ _. exactly-Safe 2 Strings.Safe.get_set-Safe)
    & (λ _. exactly-Safe 2 Strings.Safe.set_nx-Safe)
    & (λ _. exactly-Safe 3 Strings.Safe.set_ex-Safe)
    & (λ _. at_least-Safe 2 Strings.Safe.mset-Safe)
    & (λ _. at_least-Safe 1 Strings.Safe.mget-Safe)
    & (λ _. exactly-Safe 1 Strings.Safe.incr-Safe)
    & (λ _. exactly-Safe 2 Strings.Safe.incr_by-Safe)
    & (λ _. exactly-Safe 1 Strings.Safe.decr-Safe)
    & (λ _. exactly-Safe 2 Strings.Safe.decr_by-Safe)
    & (λ _. exactly-Safe 2 Strings.Safe.append_cmd-Safe)
    & (λ _. exactly-Safe 1 Strings.Safe.strlen-Safe)
    & tt

hash_commands-Good : Each Good hash_commands
unfolding hash_commands
hash_commands-Good =
    (λ _. at_least-Safe 3 Hashes.Safe.hset-Safe)
    & (λ _. exactly-Safe 2 Hashes.Safe.hget-Safe)
    & (λ _. exactly-Safe 1 Hashes.Safe.hgetall-Safe)
    & (λ _. at_least-Safe 2 Hashes.Safe.hdel-Safe)
    & (λ _. exactly-Safe 2 Hashes.Safe.hexists-Safe)
    & (λ _. exactly-Safe 1 Hashes.Safe.hlen-Safe)
    & (λ _. exactly-Safe 1 Hashes.Safe.hkeys-Safe)
    & (λ _. exactly-Safe 1 Hashes.Safe.hvals-Safe)
    & (λ _. at_least-Safe 2 Hashes.Safe.hmget-Safe)
    & (λ _. exactly-Safe 3 Hashes.Safe.hincrby-Safe)
    & tt

list_commands-Good : Each Good list_commands
unfolding list_commands
list_commands-Good =
    (λ _. at_least-Safe 2 Lists.Safe.lpush-Safe)
    & (λ _. at_least-Safe 2 Lists.Safe.rpush-Safe)
    & (λ _. exactly-Safe 1 Lists.Safe.lpop-Safe)
    & (λ _. exactly-Safe 1 Lists.Safe.rpop-Safe)
    & (λ _. exactly-Safe 1 Lists.Safe.llen-Safe)
    & (λ _. exactly-Safe 3 Lists.Safe.lrange-Safe)
    & (λ _. exactly-Safe 2 Lists.Safe.lindex-Safe)
    & tt

set_commands-Good : Each Good set_commands
unfolding set_commands
set_commands-Good =
    (λ _. at_least-Safe 2 Hashes.Safe.sadd-Safe)
    & (λ _. at_least-Safe 2 Hashes.Safe.srem-Safe)
    & (λ _. exactly-Safe 1 Hashes.Safe.smembers-Safe)
    & (λ _. exactly-Safe 2 Hashes.Safe.sismember-Safe)
    & (λ _. exactly-Safe 1 Hashes.Safe.scard-Safe)
    & tt

zset_commands-Good : (env : Env) → Each Good (zset_commands env)
unfolding zset_commands
zset_commands-Good env =
    (λ _. at_least-Safe 3 (ZSets.Safe.zadd-Safe env))
    & (λ _. exactly-Safe 2 (ZSets.Safe.zscore-Safe env))
    & (λ _. at_least-Safe 2 ZSets.Safe.zrem-Safe)
    & (λ _. exactly-Safe 1 ZSets.Safe.zcard-Safe)
    & (λ _. exactly-Safe 2 ZSets.Safe.zrank-Safe)
    & (λ _. at_least-Safe 3 (ZSets.Safe.zrange-Safe env))
    & tt

server_commands-Good : (env : Env) → Each Good (server_commands env)
unfolding server_commands
server_commands-Good env =
    (λ _. exactly-Safe 0 Generic.Safe.flushall-Safe)
    & (λ _. exactly-Safe 0 Generic.Safe.dbsize-Safe)
    & (λ _. at_least-Safe 0 (Generic.Safe.info-Safe env))
    & tt

pubsub_commands-Good : Each Good pubsub_commands
unfolding pubsub_commands
pubsub_commands-Good =
    (λ _. at_least-Safe 1 Pubsub.Safe.subscribe-Safe)
    & (λ _. at_least-Safe 0 Pubsub.Safe.unsubscribe-Safe)
    & (λ _. exactly-Safe 2 Pubsub.Safe.publish-Safe)
    & tt

transaction_commands-Good : Each Good transaction_commands
unfolding transaction_commands bypasses_queue bytes_eq
transaction_commands-Good = (λ e. cc) & (λ e. cc) & (λ e. cc) & tt

all-Good : (env : Env) → Families Good env
all-Good env = record {
  connection = connection_commands-Good;
  generic = generic_commands-Good env;
  string = string_commands-Good;
  hash = hash_commands-Good;
  list = list_commands-Good;
  set = set_commands-Good;
  zset = zset_commands-Good env;
  server = server_commands-Good env;
  pubsub = pubsub_commands-Good;
  transaction = transaction_commands-Good;
}

-- What a lookup in the registry finds under a name that does not bypass the queue is safe.
pub registry-SpecSafe :
    (env : Env) (name : Bytes) {spec : Spec}
    → bypasses_queue name ≡ false
    → lookup name (new_registry env) ≡ some spec
    → SpecSafe spec
registry-SpecSafe env name plain e = Families-lookup Good env name (all-Good env) e plain
