-- ===== src/Command/Hashes.antt =====
-- internal/command: hashes.go and sets.go.
pub mod Safe
pub mod Acts
use goredis_main.Prelude.{
  ℕ, zero, suc, ◌%◌, Bool, true, false, List, [], ◌∷◌, Option, none, some, Bytes, codes, length,
  map, ◌==◌, if◌then◌else◌,
}
use goredis_main.Prelude.Int.{ℤ}
use goredis_main.Strconv.{parse_int}
use goredis_main.GoMap.{Map}
use goredis_main.Resp.Value.{Value, integer, bulk, error, array_of, bulk_strings}
use goredis_main.Store.Hashes
use goredis_main.Store.Sets
use goredis_main.Command.{
  World, Outcome, Handler, ◌>>=◌, arg, arg_strings, rest_of, bad_integer, count_reply, flag_reply,
  opt_reply, reply_by, reads, writes,
}
use goredis_main.Command.Strings.{pair_args}

unfoldable pub hset : Handler
hset _ w args =
    if length args % 2 == 1
    then (do
      rest ← rest_of args
      fields ← pair_args rest []
      key ← arg args 0
      writes w (reply_by count_reply) (Hashes.hset w.store w.now key fields))
    else reads w (error (codes "ERR wrong number of arguments for 'hset' command"))

unfoldable pub hget : Handler
hget _ w args = do
  key ← arg args 0
  field ← arg args 1
  reads w (reply_by opt_reply (Hashes.hget w.store w.now key field))

-- A field and its value, one after the other.
abbrev pub flatten_pairs : Map Bytes → List Value
flatten_pairs [] = []
flatten_pairs ((f, v) ∷ h) = bulk f ∷ bulk v ∷ flatten_pairs h

unfoldable pub hgetall : Handler
hgetall _ w args = do
  key ← arg args 0
  reads w (reply_by (λ h. array_of (flatten_pairs h)) (Hashes.hget_all w.store w.now key))

unfoldable pub hdel : Handler
hdel _ w args = do
  key ← arg args 0
  rest ← rest_of args
  writes w (reply_by count_reply) (Hashes.hdel w.store w.now key (arg_strings rest))

unfoldable pub hexists : Handler
hexists _ w args = do
  key ← arg args 0
  field ← arg args 1
  reads w (reply_by flag_reply (Hashes.hexists w.store w.now key field))

unfoldable pub hlen : Handler
hlen _ w args = do key ← arg args 0; reads w (reply_by count_reply (Hashes.hlen w.store w.now key))

unfoldable pub hkeys : Handler
hkeys _ w args = do
  key ← arg args 0
  reads w (reply_by bulk_strings (Hashes.hkeys w.store w.now key))

unfoldable pub hvals : Handler
hvals _ w args = do
  key ← arg args 0
  reads w (reply_by bulk_strings (Hashes.hvals w.store w.now key))

unfoldable pub hmget : Handler
hmget _ w args = do
  key ← arg args 0
  rest ← rest_of args
  reads w (
      reply_by (λ vs. array_of (map opt_reply vs))
        (Hashes.hmget w.store w.now key (arg_strings rest)))

hincr_reply : World → List Value → Option ℤ → Outcome
hincr_reply w args none = reads w bad_integer
hincr_reply w args (some delta) = do
  key ← arg args 0
  field ← arg args 1
  writes w (reply_by integer) (Hashes.hincr_by w.store w.now key field delta)

unfoldable pub hincrby : Handler
unfolding hincr_reply
hincrby _ w args = do n ← arg args 2; hincr_reply w args (parse_int n)

unfoldable pub sadd : Handler
sadd _ w args = do
  key ← arg args 0
  rest ← rest_of args
  writes w (reply_by count_reply) (Sets.sadd w.store w.now key (arg_strings rest))

unfoldable pub srem : Handler
srem _ w args = do
  key ← arg args 0
  rest ← rest_of args
  writes w (reply_by count_reply) (Sets.srem w.store w.now key (arg_strings rest))

unfoldable pub smembers : Handler
smembers _ w args = do
  key ← arg args 0
  reads w (reply_by bulk_strings (Sets.smembers w.store w.now key))

unfoldable pub sismember : Handler
sismember _ w args = do
  key ← arg args 0
  member ← arg args 1
  reads w (reply_by flag_reply (Sets.sismember w.store w.now key member))

unfoldable pub scard : Handler
scard _ w args = do key ← arg args 0; reads w (reply_by count_reply (Sets.scard w.store w.now key))
