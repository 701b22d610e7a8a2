-- ===== src/Command/Generic.antt =====
-- internal/command: generic.go, connection.go and server.go.
pub mod Safe
pub mod Acts
use goredis_main.Prelude.{
  ℕ, zero, suc, ◌++◌, Bool, true, false, List, [], ◌∷◌, Option, none, some, Bytes, codes,
}
use goredis_main.Prelude.Int.{ℤ, pos}
use goredis_main.Machine.{mul64}
use goredis_main.Strconv.{parse_int, format_nat}
use goredis_main.Resp.Value.{Value, simple, bulk, integer, ok_reply, bulk_strings, str_of}
use goredis_main.Store.{Kind, kind_string, kind_hash, kind_list, kind_set, kind_zset, Store}
use goredis_main.Store.Keyspace
use goredis_main.Store.Keyspace.{second, millisecond}
use goredis_main.Command.{
  Env, World, Outcome, Handler, ◌>>=◌, arg, arg_strings, bad_integer, count_reply, flag_reply,
  reply_by, reads, writes,
}

unfoldable pub del : Handler
del _ w args = writes w count_reply (Keyspace.del w.store w.now (arg_strings args))

unfoldable pub exists : Handler
exists _ w args = reads w (count_reply (Keyspace.exists w.store w.now (arg_strings args)))

-- EXPIRE and PEXPIRE from the parsed number on; time.Duration(n) * unit wraps.
abbrev expire_by : ℕ → World → Bytes → Option ℤ → Outcome
expire_by unit w key none = reads w bad_integer
expire_by unit w key (some n) =
    writes w flag_reply (Keyspace.expire w.store w.now w.later key (mul64 n (pos unit)))

unfoldable pub expire : Handler
expire _ w args = do n ← arg args 1; key ← arg args 0; expire_by second w key (parse_int n)

unfoldable pub pexpire : Handler
pexpire _ w args = do n ← arg args 1; key ← arg args 0; expire_by millisecond w key (parse_int n)

unfoldable pub ttl : Handler
ttl _ w args = do
  key ← arg args 0
  reads w (integer (Keyspace.ttl_seconds w.store w.now w.later key))

unfoldable pub pttl : Handler
pttl _ w args = do
  key ← arg args 0
  reads w (integer (Keyspace.ttl_millis w.store w.now w.later key))

unfoldable pub persist : Handler
persist _ w args = do key ← arg args 0; writes w flag_reply (Keyspace.persist w.store w.now key)

abbrev pub kind_name : Option Kind → Bytes
kind_name none = codes "none"
kind_name (some kind_string) = codes "string"
kind_name (some kind_hash) = codes "hash"
kind_name (some kind_list) = codes "list"
kind_name (some kind_set) = codes "set"
kind_name (some kind_zset) = codes "zset"

unfoldable pub type_cmd : Handler
type_cmd _ w args = do
  key ← arg args 0
  reads w (simple (kind_name (Keyspace.type_of w.store w.now key)))

unfoldable pub keys : Env → Handler
keys env _ w args = do
  pattern' ← arg args 0
  reads w (bulk_strings (Keyspace.keys env.match_glob w.store w.now pattern'))

unfoldable pub rename : Handler
rename _ w args = do
  src ← arg args 0
  dst ← arg args 1
  writes w (reply_by (λ _. ok_reply)) (Keyspace.rename w.store w.now src dst)

unfoldable pub ping : Handler
ping _ w [] = reads w (simple (codes "PONG"))
ping _ w (v ∷ vs) = reads w (bulk (str_of v))

unfoldable pub echo : Handler
echo _ w args = do s ← arg args 0; reads w (bulk s)

unfoldable pub flushall : Handler
flushall _ w args = some (record w { store = Keyspace.flush_all w.store }, ok_reply)

unfoldable pub dbsize : Handler
dbsize _ w args = reads w (count_reply (Keyspace.db_size w.store w.now))

abbrev line_end : Bytes
line_end = 13 ∷ 10 ∷ []

unfoldable pub info : Env → Handler
info env _ w args = reads w (bulk body)
  where
    body : Bytes
    body =
        codes "# Server"
        ++ line_end
        ++ codes "goredis_version:1.0.0"
        ++ line_end
        ++ codes "go_version:"
        ++ env.go_version
        ++ line_end
        ++ codes "os:"
        ++ env.os_arch
        ++ line_end
        ++ line_end
        ++ codes "# Keyspace"
        ++ line_end
        ++ codes "db0:keys="
        ++ format_nat (Keyspace.db_size w.store w.now)
        ++ line_end
