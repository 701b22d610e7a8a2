-- ===== src/Command/Registry.antt =====
-- internal/command: registry.go, the command tables at the head of the other files, and queueCommand
-- of context.go.
pub mod Families
pub mod Cases
pub mod Safe
pub mod Effects
pub mod Atomic
pub mod Plain
pub mod Total
pub mod Exec
use goredis_main.Prelude.{
  ℕ, zero, suc, ◌++◌, Bool, true, false, not, ◌&&◌, ◌||◌, List, [], ◌∷◌, Option, none, some, Bytes,
  bytes_eq, codes, length, leb, ◌==◌, if◌then◌else◌,
}
use goredis_main.GoMap.{Map, lookup, insert}
use goredis_main.Resp.Value.{Value, simple, error, bulk, is_error, str_of}
use goredis_main.Command.{Env, World, Context, QueuedCommand, Outcome, Dispatcher, Handler, ◌>>=◌}
use goredis_main.Command.Names.{to_upper, to_lower}
use goredis_main.Command.Generic
use goredis_main.Command.Strings
use goredis_main.Command.Lists
use goredis_main.Command.Hashes
use goredis_main.Command.ZSets
use goredis_main.Command.Pubsub
use goredis_main.Command.Transaction

-- The fields Arity and MinArity: an exact count, or -1 and a least count.
pub data Arity : Type 0 where
  exactly at_least : ℕ → Arity

pub record Spec : Type 0 where
  pub name : Bytes
  pub handler : Handler
  pub arity : Arity
  pub write : Bool

abbrev pub reader : Bytes → Handler → Arity → Spec
reader n h a = record { name = n; handler = h; arity = a; write = false }

abbrev pub writer : Bytes → Handler → Arity → Spec
writer n h a = record { name = n; handler = h; arity = a; write = true }

pub connection_commands : List Spec
connection_commands =
    reader (codes "PING") Generic.ping (at_least 0)
    ∷ reader (codes "ECHO") Generic.echo (exactly 1)
    ∷ []

pub generic_commands : Env → List Spec
generic_commands env =
    writer (codes "DEL") Generic.del (at_least 1)
    ∷ reader (codes "EXISTS") Generic.exists (at_least 1)
    ∷ writer (codes "EXPIRE") Generic.expire (exactly 2)
    ∷ writer (codes "PEXPIRE") Generic.pexpire (exactly 2)
    ∷ reader (codes "TTL") Generic.ttl (exactly 1)
    ∷ reader (codes "PTTL") Generic.pttl (exactly 1)
    ∷ writer (codes "PERSIST") Generic.persist (exactly 1)
    ∷ reader (codes "TYPE") Generic.type_cmd (exactly 1)
    ∷ reader (codes "KEYS") (Generic.keys env) (exactly 1)
    ∷ writer (codes "RENAME") Generic.rename (exactly 2)
    ∷ []

pub string_commands : List Spec
string_commands =
    writer (codes "SET") Strings.set (at_least 2)
    ∷ reader (codes "GET") Strings.get (exactly 1)
    ∷ writer (codes "GETSET") Strings.get_set (exactly 2)
    ∷ writer (codes "SETNX") Strings.set_nx (exactly 2)
    ∷ writer (codes "SETEX") Strings.set_ex (exactly 3)
    ∷ writer (codes "MSET") Strings.mset (at_least 2)
    ∷ reader (codes "MGET") Strings.mget (at_least 1)
    ∷ writer (codes "INCR") Strings.incr (exactly 1)
    ∷ writer (codes "INCRBY") Strings.incr_by (exactly 2)
    ∷ writer (codes "DECR") Strings.decr (exactly 1)
    ∷ writer (codes "DECRBY") Strings.decr_by (exactly 2)
    ∷ writer (codes "APPEND") Strings.append_cmd (exactly 2)
    ∷ reader (codes "STRLEN") Strings.strlen (exactly 1)
    ∷ []

pub hash_commands : List Spec
hash_commands =
    writer (codes "HSET") Hashes.hset (at_least 3)
    ∷ reader (codes "HGET") Hashes.hget (exactly 2)
    ∷ reader (codes "HGETALL") Hashes.hgetall (exactly 1)
    ∷ writer (codes "HDEL") Hashes.hdel (at_least 2)
    ∷ reader (codes "HEXISTS") Hashes.hexists (exactly 2)
    ∷ reader (codes "HLEN") Hashes.hlen (exactly 1)
    ∷ reader (codes "HKEYS") Hashes.hkeys (exactly 1)
    ∷ reader (codes "HVALS") Hashes.hvals (exactly 1)
    ∷ reader (codes "HMGET") Hashes.hmget (at_least 2)
    ∷ writer (codes "HINCRBY") Hashes.hincrby (exactly 3)
    ∷ []

pub list_commands : List Spec
list_commands =
    writer (codes "LPUSH") Lists.lpush (at_least 2)
    ∷ writer (codes "RPUSH") Lists.rpush (at_least 2)
    ∷ writer (codes "LPOP") Lists.lpop (exactly 1)
    ∷ writer (codes "RPOP") Lists.rpop (exactly 1)
    ∷ reader (codes "LLEN") Lists.llen (exactly 1)
    ∷ reader (codes "LRANGE") Lists.lrange (exactly 3)
    ∷ reader (codes "LINDEX") Lists.lindex (exactly 2)
    ∷ []

pub set_commands : List Spec
set_commands =
    writer (codes "SADD") Hashes.sadd (at_least 2)
    ∷ writer (codes "SREM") Hashes.srem (at_least 2)
    ∷ reader (codes "SMEMBERS") Hashes.smembers (exactly 1)
    ∷ reader (codes "SISMEMBER") Hashes.sismember (exactly 2)
    ∷ reader (codes "SCARD") Hashes.scard (exactly 1)
    ∷ []

pub zset_commands : Env → List Spec
zset_commands env =
    writer (codes "ZADD") (ZSets.zadd env) (at_least 3)
    ∷ reader (codes "ZSCORE") (ZSets.zscore env) (exactly 2)
    ∷ writer (codes "ZREM") ZSets.zrem (at_least 2)
    ∷ reader (codes "ZCARD") ZSets.zcard (exactly 1)
    ∷ reader (codes "ZRANK") ZSets.zrank (exactly 2)
    ∷ reader (codes "ZRANGE") (ZSets.zrange env) (at_least 3)
    ∷ []

pub server_commands : Env → List Spec
server_commands env =
    writer (codes "FLUSHALL") Generic.flushall (exactly 0)
    ∷ reader (codes "DBSIZE") Generic.dbsize (exactly 0)
    ∷ reader (codes "INFO") (Generic.info env) (at_least 0)
    ∷ []

pub pubsub_commands : List Spec
pubsub_commands =
    reader (codes "SUBSCRIBE") Pubsub.subscribe (at_least 1)
    ∷ reader (codes "UNSUBSCRIBE") Pubsub.unsubscribe (at_least 0)
    ∷ writer (codes "PUBLISH") Pubsub.publish (exactly 2)
    ∷ []

pub transaction_commands : List Spec
transaction_commands =
    reader (codes "MULTI") Transaction.multi (exactly 0)
    ∷ reader (codes "EXEC") Transaction.exec (exactly 0)
    ∷ reader (codes "DISCARD") Transaction.discard (exactly 0)
    ∷ []

-- register: a later Spec of the same name would win.
unfoldable pub register : List Spec → Map Spec → Map Spec
register [] specs = specs
register (s ∷ ss) specs = register ss (insert s.name s specs)

-- NewRegistry's calls of register, in order.
all_commands : Env → List Spec
all_commands env =
    connection_commands
    ++ generic_commands env
    ++ string_commands
    ++ hash_commands
    ++ list_commands
    ++ set_commands
    ++ zset_commands env
    ++ server_commands env
    ++ pubsub_commands
    ++ transaction_commands

unfoldable pub new_registry : Env → Map Spec
unfolding register all_commands connection_commands generic_commands string_commands hash_commands
    list_commands set_commands zset_commands server_commands pubsub_commands transaction_commands
new_registry env = register (all_commands env) []

-- Lookup
unfoldable pub find_spec : Map Spec → Bytes → Option Spec
find_spec registry name = lookup (to_upper name) registry

unfoldable pub check_arity : Arity → ℕ → Bool
check_arity (exactly n) argc = argc == n
check_arity (at_least n) argc = leb n argc

abbrev quote : Bytes → Bytes
quote s = b'\'' ∷ (s ++ b'\'' ∷ [])

-- The arguments in quotes, with spaces between.
quote_args : List Value → Bytes
quote_args [] = []
quote_args (a ∷ []) = quote (str_of a)
quote_args (a ∷ b ∷ args) = quote (str_of a) ++ b' ' ∷ quote_args (b ∷ args)

unfoldable pub unknown_command : Bytes → List Value → Value
unfolding quote_args
unknown_command name args = error (
    codes "ERR unknown command '"
    ++ (name ++ (codes "', with args beginning with: " ++ quote_args args)))

unfoldable pub wrong_arity : Bytes → Value
wrong_arity name =
    error (codes "ERR wrong number of arguments for '" ++ (to_lower name ++ codes "' command"))

-- What validate returns: a Spec to run, or the error to send back.
pub data Validated : Type 0 where
  runnable : Spec → Validated
  invalid : Value → Validated

pub validate_spec : Bytes → List Value → Option Spec → Validated
validate_spec name args none = invalid (unknown_command name args)
validate_spec name args (some spec) =
    if check_arity spec.arity (length args) then runnable spec else invalid (wrong_arity name)

unfoldable pub validate : Map Spec → Bytes → List Value → Validated
unfolding validate_spec
validate registry name args = validate_spec name args (find_spec registry name)

-- commandsBypassingQueue
unfoldable pub bypasses_queue : Bytes → Bool
bypasses_queue name =
    bytes_eq name (codes "MULTI")
    || (bytes_eq name (codes "EXEC") || bytes_eq name (codes "DISCARD"))

enqueue : World → Bytes → List Value → Validated → World × Value
enqueue w name args (invalid v) = (record w { ctx = record w.ctx { tx_error = true } }, v)
enqueue w name args (runnable spec) = (
  record w {
    ctx = record w.ctx { queue = w.ctx.queue ++ record { name = name; args = args } ∷ [] };
  },
  simple (codes "QUEUED"),
)

-- queueCommand
unfoldable pub queue_command : Map Spec → World → Bytes → List Value → World × Value
unfolding enqueue
queue_command registry w name args = enqueue w name args (validate registry name args)

-- The call of OnWrite after a handler.
unfoldable pub log_write : Bool → Bytes → List Value → World × Value → World × Value
log_write write name args (w, v) =
    if write && not (is_error v) && w.ctx.on_write
    then (record w { log = w.log ++ (bulk name ∷ args) ∷ [] }, v)
    else (w, v)

abbrev pub logged : Bool → Bytes → List Value → Outcome → Outcome
logged write name args none = none
logged write name args (some r) = some (log_write write name args r)

-- The rest of Dispatch, after validate.
pub run_spec : Dispatcher → World → Bytes → List Value → Validated → Outcome
run_spec dispatch w name args (invalid v) = some (w, v)
run_spec dispatch w name args (runnable spec) =
    logged spec.write name args (spec.handler dispatch w args)

dispatch_upper : Map Spec → Dispatcher → World → Bytes → List Value → Outcome
unfolding run_spec
dispatch_upper registry again w upper args =
    if w.ctx.in_tx && not (bypasses_queue upper)
    then some (queue_command registry w upper args)
    else run_spec again w upper args (validate registry upper args)

-- Dispatch calls itself through EXEC; each level of nesting takes one unit of fuel.
unfoldable pub dispatch : Map Spec → ℕ → Dispatcher
unfolding dispatch_upper
dispatch registry zero w name args = none
dispatch registry (suc f) w name args =
    dispatch_upper registry (dispatch registry f) w (to_upper name) args
