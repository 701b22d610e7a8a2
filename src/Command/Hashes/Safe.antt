-- ===== src/Command/Hashes/Safe.antt =====
-- The handlers of hashes.go and sets.go are safe on the arguments that their arity admits.
use goredis_main.Prelude.{suc, ◌%◌, ◌≡◌, [], ◌∷◌, Option, none, some, length, ◌==◌, if_intro, arith}
use goredis_main.Prelude.Int.{ℤ}
use goredis_main.Strconv.{parse_int}
use goredis_main.Resp.Value.{Value, str_of}
use goredis_main.Store.Invariant.{IsValid}
use goredis_main.Command.{World, writes, ◌>>=◌, count_reply, reply_by}
use goredis_main.Command.Returns.{
  Returns, reads-Returns, writes-Returns, SafeOn, Exactly, AtLeast, with_one, with_two, with_three,
  with_two_more,
}
use goredis_main.Store.Hashes
use goredis_main.Store.Hashes.Invariant.{hset-IsValid, hdel-IsValid, hincr_by-IsValid}
use goredis_main.Store.Sets.Invariant.{sadd-IsValid, srem-IsValid}
use goredis_main.Command.Strings.{pair_args}
use goredis_main.Command.Strings.Safe.{pair_args_total}
use goredis_main.Command.Hashes.{
  hset, hget, hgetall, hdel, hexists, hlen, hkeys, hvals, hmget, hincr_reply, hincrby, sadd, srem,
  smembers, sismember, scard,
}

pub hset-Safe : SafeOn (AtLeast 3) hset
unfolding hset
hset-Safe d w [] h ok = absurd (omega arith)
hset-Safe d w (k ∷ args) h ok =
    if_intro (Returns w) (suc (length args) % 2 == 1) _ _ (λ odd. stored (ground arith))
      (λ _. reads-Returns w _ ok)
  where
    stored :
        length args % 2 ≡ 0
        → Returns w (
            pair_args args [] >>= λ fields.
            writes w (reply_by count_reply) (Hashes.hset w.store w.now (str_of k) fields))
    stored even =
        let (m, e, p) = pair_args_total args [] even (omega arith) in
        rw e (writes-Returns w _ _ (hset-IsValid w.store w.now (str_of k) ok m p))

pub hget-Safe : SafeOn (Exactly 2) hget
unfolding hget
hget-Safe d w args h ok =
    with_two (λ args. Returns w (hget d w args)) (λ a b. reads-Returns w _ ok) args h

pub hgetall-Safe : SafeOn (Exactly 1) hgetall
unfolding hgetall
hgetall-Safe d w args h ok =
    with_one (λ args. Returns w (hgetall d w args)) (λ a. reads-Returns w _ ok) args h

pub hdel-Safe : SafeOn (AtLeast 2) hdel
unfolding hdel
hdel-Safe d w args h ok =
    with_two_more (λ args. Returns w (hdel d w args))
      (λ a b args. writes-Returns w _ _ (hdel-IsValid w.store w.now (str_of a) ok _)) args h

pub hexists-Safe : SafeOn (Exactly 2) hexists
unfolding hexists
hexists-Safe d w args h ok =
    with_two (λ args. Returns w (hexists d w args)) (λ a b. reads-Returns w _ ok) args h

pub hlen-Safe : SafeOn (Exactly 1) hlen
unfolding hlen
hlen-Safe d w args h ok =
    with_one (λ args. Returns w (hlen d w args)) (λ a. reads-Returns w _ ok) args h

pub hkeys-Safe : SafeOn (Exactly 1) hkeys
unfolding hkeys
hkeys-Safe d w args h ok =
    with_one (λ args. Returns w (hkeys d w args)) (λ a. reads-Returns w _ ok) args h

pub hvals-Safe : SafeOn (Exactly 1) hvals
unfolding hvals
hvals-Safe d w args h ok =
    with_one (λ args. Returns w (hvals d w args)) (λ a. reads-Returns w _ ok) args h

pub hmget-Safe : SafeOn (AtLeast 2) hmget
unfolding hmget
hmget-Safe d w args h ok =
    with_two_more (λ args. Returns w (hmget d w args)) (λ a b args. reads-Returns w _ ok) args h

hincr_reply-Safe :
    (w : World) (a b c : Value) (n : Option ℤ)
    → IsValid w.store
    → Returns w (hincr_reply w (a ∷ b ∷ c ∷ []) n)
unfolding hincr_reply
hincr_reply-Safe w a b c none ok = reads-Returns w _ ok
hincr_reply-Safe w a b c (some n) ok =
    writes-Returns w _ _ (hincr_by-IsValid w.store w.now (str_of a) ok (str_of b) n)

pub hincrby-Safe : SafeOn (Exactly 3) hincrby
unfolding hincrby
hincrby-Safe d w args h ok =
    with_three (λ args. Returns w (hincrby d w args))
      (λ a b c. hincr_reply-Safe w a b c (parse_int (str_of c)) ok) args h

pub sadd-Safe : SafeOn (AtLeast 2) sadd
unfolding sadd
sadd-Safe d w args h ok =
    with_two_more (λ args. Returns w (sadd d w args))
      (λ a b args. writes-Returns w _ _ (sadd-IsValid w.store w.now (str_of a) ok _ (omega arith)))
      args h

pub srem-Safe : SafeOn (AtLeast 2) srem
unfolding srem
srem-Safe d w args h ok =
    with_two_more (λ args. Returns w (srem d w args))
      (λ a b args. writes-Returns w _ _ (srem-IsValid w.store w.now (str_of a) ok _)) args h

pub smembers-Safe : SafeOn (Exactly 1) smembers
unfolding smembers
smembers-Safe d w args h ok =
    with_one (λ args. Returns w (smembers d w args)) (λ a. reads-Returns w _ ok) args h

pub sismember-Safe : SafeOn (Exactly 2) sismember
unfolding sismember
sismember-Safe d w args h ok =
    with_two (λ args. Returns w (sismember d w args)) (λ a b. reads-Returns w _ ok) args h

pub scard-Safe : SafeOn (Exactly 1) scard
unfolding scard
scard-Safe d w args h ok =
    with_one (λ args. Returns w (scard d w args)) (λ a. reads-Returns w _ ok) args h
