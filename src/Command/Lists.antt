-- ===== src/Command/Lists.antt =====
-- internal/command/lists.go.
pub mod Safe
pub mod Acts
use goredis_main.Prelude.{ℕ, zero, suc, List, [], ◌∷◌, Option, none, some, Bytes}
use goredis_main.Prelude.Int.{ℤ}
use goredis_main.Strconv.{parse_int}
use goredis_main.Resp.Value.{Value, bulk_strings}
use goredis_main.Store.Lists
use goredis_main.Command.{
  World, Outcome, Handler, ◌>>=◌, arg, arg_strings, rest_of, bad_integer, count_reply, opt_reply,
  reply_by, reads, writes,
}

unfoldable pub lpush : Handler
lpush _ w args = do
  key ← arg args 0
  rest ← rest_of args
  writes w (reply_by count_reply) (Lists.lpush w.store w.now key (arg_strings rest))

unfoldable pub rpush : Handler
rpush _ w args = do
  key ← arg args 0
  rest ← rest_of args
  writes w (reply_by count_reply) (Lists.rpush w.store w.now key (arg_strings rest))

unfoldable pub lpop : Handler
lpop _ w args = do key ← arg args 0; writes w (reply_by opt_reply) (Lists.lpop w.store w.now key)

unfoldable pub rpop : Handler
rpop _ w args = do key ← arg args 0; writes w (reply_by opt_reply) (Lists.rpop w.store w.now key)

unfoldable pub llen : Handler
llen _ w args = do key ← arg args 0; reads w (reply_by count_reply (Lists.llen w.store w.now key))

range_reply : World → List Value → Option ℤ → Option ℤ → Outcome
range_reply w args (some start) (some stop) = do
  key ← arg args 0
  reads w (reply_by bulk_strings (Lists.lrange w.store w.now key start stop))
range_reply w args _ _ = reads w bad_integer

unfoldable pub lrange : Handler
unfolding range_reply
lrange _ w args = do
  start ← arg args 1
  stop ← arg args 2
  range_reply w args (parse_int start) (parse_int stop)

index_reply : World → List Value → Option ℤ → Outcome
index_reply w args none = reads w bad_integer
index_reply w args (some i) = do
  key ← arg args 0
  reads w (reply_by opt_reply (Lists.lindex w.store w.now key i))

unfoldable pub lindex : Handler
unfolding index_reply
lindex _ w args = do i ← arg args 1; index_reply w args (parse_int i)
