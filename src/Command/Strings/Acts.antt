-- ===== src/Command/Strings/Acts.antt =====
-- How the handlers of strings.go act on the store.
use goredis_main.Prelude.{
  ◌%◌, ◌==◌, ◌≡◌, refl, Bool, true, false, List, [], Option, none, some, Bytes, length, Bool-cases,
  inl, inr,
}
use goredis_main.Prelude.Int.{ℤ, pos, negsuc}
use goredis_main.Strconv.{parse_int}
use goredis_main.Resp.Value.{Value, is_error}
use goredis_main.Pubsub.{Hub}
use goredis_main.Command.{World, Context, arg, count_reply, flag_reply, opt_reply}
use goredis_main.Command.Acts.{
  twin, Acts, ActsOn, bind-Acts, reads-Acts, stores-Acts, writes-Acts, results-Acts, opt_fine,
  flag_fine,
}
use goredis_main.Machine.{mul64, neg64}
use goredis_main.Resp.Value.{integer, ok_reply}
use goredis_main.Store.Keyspace.{second}
use goredis_main.Store.Strings
use goredis_main.Store.Strings.{no_options}
use goredis_main.Store.Strings.Atomic.{get_set-Atomic, incr_by-Atomic, append-Atomic}
use goredis_main.Command.Strings.{
  Parsed, parsed, refused, set_options, options_of, stored_reply, set_parsed, set, get, get_set,
  set_nx, set_ex_by, set_ex, pair_args, mset, mget, incr, decr, incr_parsed, incr_by, decr_by,
  append_cmd, strlen,
}

stored_fine : (b : Bool) {A : Type 0} → is_error (stored_reply b) ≡ true → A
stored_fine true h = cc
stored_fine false h = cc

set_parsed-Acts :
    (w : World) (hub : Hub) (ctx : Context) (log : List (List Value)) (key value : Bytes)
    (o : Parsed)
    → Acts true w
        (twin w hub ctx log)
        (set_parsed w key value o)
        (set_parsed (twin w hub ctx log) key value o)
unfolding set_parsed
set_parsed-Acts w hub ctx log key value (refused v) = reads-Acts w hub ctx log true _
set_parsed-Acts w hub ctx log key value (parsed opts) =
    writes-Acts w hub ctx log stored_reply (Strings.set w.store w.now w.later key value opts)
      (stored_fine _)

pub set-Acts : ActsOn true set
unfolding set
set-Acts d d' w hub ctx log args = bind-Acts (arg args 0) λ key.
    bind-Acts (arg args 1) λ value.
      set_parsed-Acts w hub ctx log key value (set_options (options_of args) none no_options)

pub get-Acts : ActsOn false get
unfolding get
get-Acts d d' w hub ctx log args = bind-Acts (arg args 0) λ key. reads-Acts w hub ctx log false _

pub get_set-Acts : ActsOn true get_set
unfolding get_set
get_set-Acts d d' w hub ctx log args = bind-Acts (arg args 0) λ key. bind-Acts (arg args 1) λ value.
    results-Acts w hub ctx log opt_reply (Strings.get_set w.store w.now key value) opt_fine
      (get_set-Atomic w.store w.now key value)

pub set_nx-Acts : ActsOn true set_nx
unfolding set_nx
set_nx-Acts d d' w hub ctx log args = bind-Acts (arg args 0) λ key. bind-Acts (arg args 1) λ value.
    writes-Acts w hub ctx log flag_reply
      (Strings.set w.store w.now w.later key value (record no_options { only_if_new = true }))
      (flag_fine _)

set_ex_by-Acts :
    (w : World) (hub : Hub) (ctx : Context) (log : List (List Value)) (key : Bytes)
    (args : List Value) (o : Option ℤ)
    → Acts true w
        (twin w hub ctx log)
        (set_ex_by w key args o)
        (set_ex_by (twin w hub ctx log) key args o)
unfolding set_ex_by
set_ex_by-Acts w hub ctx log key args none = reads-Acts w hub ctx log true _
set_ex_by-Acts w hub ctx log key args (some n) = bind-Acts (arg args 2) λ value.
    writes-Acts w hub ctx log (λ _. ok_reply)
      (Strings.set w.store w.now w.later key value
        (record no_options { ttl = mul64 n (pos second); has_ttl = true }))
      (λ e. cc)

pub set_ex-Acts : ActsOn true set_ex
unfolding set_ex
set_ex-Acts d d' w hub ctx log args =
    bind-Acts (arg args 1)
      λ n. bind-Acts (arg args 0) λ key. set_ex_by-Acts w hub ctx log key args (parse_int n)

pub mset-Acts : ActsOn true mset
unfolding mset
mset-Acts d d' w hub ctx log args = elim (Bool-cases (length args % 2 == 0)) [
  | inl e ↦ rw e (
      bind-Acts (pair_args args [])
        λ pairs. stores-Acts w hub ctx log (Strings.mset w.store pairs) ok_reply (λ e. cc))
  | inr e ↦ rw e (reads-Acts w hub ctx log true _)
]

pub mget-Acts : ActsOn false mget
unfolding mget
mget-Acts d d' w hub ctx log args = reads-Acts w hub ctx log false _

pub incr-Acts : ActsOn true incr
unfolding incr
incr-Acts d d' w hub ctx log args = bind-Acts (arg args 0) λ key.
    results-Acts w hub ctx log integer (Strings.incr_by w.store w.now key (pos 1)) (λ a. refl)
      (incr_by-Atomic w.store w.now key (pos 1))

pub decr-Acts : ActsOn true decr
unfolding decr
decr-Acts d d' w hub ctx log args = bind-Acts (arg args 0) λ key.
    results-Acts w hub ctx log integer (Strings.incr_by w.store w.now key (negsuc 0)) (λ a. refl)
      (incr_by-Atomic w.store w.now key (negsuc 0))

incr_parsed-Acts :
    (sign : ℤ → ℤ) (w : World) (hub : Hub) (ctx : Context) (log : List (List Value)) (key : Bytes)
    (o : Option ℤ)
    → Acts true w
        (twin w hub ctx log)
        (incr_parsed sign w key o)
        (incr_parsed sign (twin w hub ctx log) key o)
incr_parsed-Acts sign w hub ctx log key none = reads-Acts w hub ctx log true _
incr_parsed-Acts sign w hub ctx log key (some delta) =
    results-Acts w hub ctx log integer (Strings.incr_by w.store w.now key (sign delta)) (λ a. refl)
      (incr_by-Atomic w.store w.now key (sign delta))

pub incr_by-Acts : ActsOn true incr_by
unfolding incr_by
incr_by-Acts d d' w hub ctx log args =
    bind-Acts (arg args 1)
      λ n. bind-Acts (arg args 0) λ key. incr_parsed-Acts (λ d. d) w hub ctx log key (parse_int n)

pub decr_by-Acts : ActsOn true decr_by
unfolding decr_by
decr_by-Acts d d' w hub ctx log args =
    bind-Acts (arg args 1)
      λ n. bind-Acts (arg args 0) λ key. incr_parsed-Acts neg64 w hub ctx log key (parse_int n)

pub append_cmd-Acts : ActsOn true append_cmd
unfolding append_cmd
append_cmd-Acts d d' w hub ctx log args = bind-Acts (arg args 0) λ key.
    bind-Acts (arg args 1) λ value.
      results-Acts w hub ctx log count_reply (Strings.append w.store w.now key value) (λ a. refl)
        (append-Atomic w.store w.now key value)

pub strlen-Acts : ActsOn false strlen
unfolding strlen
strlen-Acts d d' w hub ctx log args = bind-Acts (arg args 0) λ key. reads-Acts w hub ctx log false _
