-- ===== src/Command/Registry/Effects.antt =====
-- internal/command: what the commands of the registry may change, those of the transactions aside.
use goredis_main.Prelude.{◌≡◌, ◌⊎◌, refl, false, inl, inr, some, Bytes}
use goredis_main.GoMap.{lookup}
use goredis_main.Command.{Env}
use goredis_main.Command.Acts.{ActsOn}
use goredis_main.Command.Generic
use goredis_main.Command.Strings
use goredis_main.Command.Lists
use goredis_main.Command.Hashes
use goredis_main.Command.ZSets
use goredis_main.Command.Pubsub
use goredis_main.Command.Transaction.{multi, exec, discard}
use goredis_main.Command.Registry.Families.{Each, ◌&◌, Families, Families-lookup}
use goredis_main.Command.Registry.{
  Spec, new_registry, connection_commands, generic_commands, string_commands, hash_commands,
  list_commands, set_commands, zset_commands, server_commands, pubsub_commands,
  transaction_commands,
}

pub data Behaves (name : Bytes) (spec : Spec) : Type 0 where
  acting : ActsOn spec.write spec.handler → Behaves name spec
  transacting :
      (spec.write ≡ false)
        × ((spec.handler ≡ multi) ⊎ ((spec.handler ≡ exec) ⊎ (spec.handler ≡ discard)))
      → Behaves name spec

connection_commands-Behaves : Each Behaves connection_commands
unfolding connection_commands
connection_commands-Behaves = acting Generic.Acts.ping-Acts & acting Generic.Acts.echo-Acts & tt

generic_commands-Behaves : (env : Env) → Each Behaves (generic_commands env)
unfolding generic_commands
generic_commands-Behaves env =
    acting Generic.Acts.del-Acts
    & acting Generic.Acts.exists-Acts
    & acting Generic.Acts.expire-Acts
    & acting Generic.Acts.pexpire-Acts
    & acting Generic.Acts.ttl-Acts
    & acting Generic.Acts.pttl-Acts
    & acting Generic.Acts.persist-Acts
    & acting Generic.Acts.type_cmd-Acts
    & acting (Generic.Acts.keys-Acts env)
    & acting Generic.Acts.rename-Acts
    & tt

string_commands-Behaves : Each Behaves string_commands
unfolding string_commands
string_commands-Behaves =
    acting Strings.Acts.set-Acts
    & acting Strings.Acts.get-Acts
    & acting Strings.Acts.get_set-Acts
    & acting Strings.Acts.set_nx-Acts
    & acting Strings.Acts.set_ex-Acts
    & acting Strings.Acts.mset-Acts
    & acting Strings.Acts.mget-Acts
    & acting Strings.Acts.incr-Acts
    & acting Strings.Acts.incr_by-Acts
    & acting Strings.Acts.decr-Acts
    & acting Strings.Acts.decr_by-Acts
    & acting Strings.Acts.append_cmd-Acts
    & acting Strings.Acts.strlen-Acts
    & tt

hash_commands-Behaves : Each Behaves hash_commands
unfolding hash_commands
hash_commands-Behaves =
    acting Hashes.Acts.hset-Acts
    & acting Hashes.Acts.hget-Acts
    & acting Hashes.Acts.hgetall-Acts
    & acting Hashes.Acts.hdel-Acts
    & acting Hashes.Acts.hexists-Acts
    & acting Hashes.Acts.hlen-Acts
    & acting Hashes.Acts.hkeys-Acts
    & acting Hashes.Acts.hvals-Acts
    & acting Hashes.Acts.hmget-Acts
    & acting Hashes.Acts.hincrby-Acts
    & tt

list_commands-Behaves : Each Behaves list_commands
unfolding list_commands
list_commands-Behaves =
    acting Lists.Acts.lpush-Acts
    & acting Lists.Acts.rpush-Acts
    & acting Lists.Acts.lpop-Acts
    & acting Lists.Acts.rpop-Acts
    & acting Lists.Acts.llen-Acts
    & acting Lists.Acts.lrange-Acts
    & acting Lists.Acts.lindex-Acts
    & tt

set_commands-Behaves : Each Behaves set_commands
unfolding set_commands
set_commands-Behaves =
    acting Hashes.Acts.sadd-Acts
    & acting Hashes.Acts.srem-Acts
    & acting Hashes.Acts.smembers-Acts
    & acting Hashes.Acts.sismember-Acts
    & acting Hashes.Acts.scard-Acts
    & tt

zset_commands-Behaves : (env : Env) → Each Behaves (zset_commands env)
unfolding zset_commands
zset_commands-Behaves env =
    acting (ZSets.Acts.zadd-Acts env)
    & acting (ZSets.Acts.zscore-Acts env)
    & acting ZSets.Acts.zrem-Acts
    & acting ZSets.Acts.zcard-Acts
    & acting ZSets.Acts.zrank-Acts
    & acting (ZSets.Acts.zrange-Acts env)
    & tt

server_commands-Behaves : (env : Env) → Each Behaves (server_commands env)
unfolding server_commands
server_commands-Behaves env =
    acting Generic.Acts.flushall-Acts
    & acting Generic.Acts.dbsize-Acts
    & acting (Generic.Acts.info-Acts env)
    & tt

pubsub_commands-Behaves : Each Behaves pubsub_commands
unfolding pubsub_commands
pubsub_commands-Behaves =
    acting Pubsub.Acts.subscribe-Acts
    & acting Pubsub.Acts.unsubscribe-Acts
    & acting Pubsub.Acts.publish-Acts
    & tt

transaction_commands-Behaves : Each Behaves transaction_commands
unfolding transaction_commands
transaction_commands-Behaves =
    transacting (refl, inl refl)
    & transacting (refl, inr (inl refl))
    & transacting (refl, inr (inr refl))
    & tt

all-Behaves : (env : Env) → Families Behaves env
all-Behaves env = record {
  connection = connection_commands-Behaves;
  generic = generic_commands-Behaves env;
  string = string_commands-Behaves;
  hash = hash_commands-Behaves;
  list = list_commands-Behaves;
  set = set_commands-Behaves;
  zset = zset_commands-Behaves env;
  server = server_commands-Behaves env;
  pubsub = pubsub_commands-Behaves;
  transaction = transaction_commands-Behaves;
}

-- What a lookup in the registry finds behaves.
pub registry-Behaves :
    (env : Env) (name : Bytes) {spec : Spec}
    → lookup name (new_registry env) ≡ some spec
    → Behaves name spec
registry-Behaves env name e = Families-lookup Behaves env name (all-Behaves env) e
