-- ===== src/Command/Registry/Total.antt =====
-- Dispatch returns for every request: no handler panics, the nesting of EXEC needs two units of fuel,
-- and the store stays well-formed.
use goredis_main.Prelude.{
  ◌≡◌, refl, sym, subst, ◌∙◌, Bool, true, false, not, ◌&&◌, List, [], Option, some, Bytes, bytes_eq,
  bytes_eq_sound, codes, length, All-append, Bool-cases, if_intro, inl, inr, ◌⊎◌, arith,
}
use goredis_main.GoMap.{Map, lookup, insert}
use goredis_main.Resp.Value.{Value, is_error, array_of}
use goredis_main.Store.Invariant.{IsValid}
use goredis_main.Command.{Env, World, QueuedCommand, Outcome, Dispatcher, ◌>>=◌}
use goredis_main.Command.Names.{to_upper}
use goredis_main.Command.Returns.{Returns, returns}
use goredis_main.Command.Transaction.{reset, exec, multi, discard}
use goredis_main.Command.Registry.{
  Spec, exactly, reader, check_arity, bypasses_queue, new_registry, find_spec, Validated, runnable,
  invalid, validate_spec, validate, enqueue, queue_command, log_write, logged, run_spec, dispatch,
}
use goredis_main.Command.Registry.Plain.{
  to_upper_idem, IsPlain, QueueOk, WorldOk, Runs, runs, ServesPlain, is_plain, run_queue-Runs,
  run_plain, dispatch_plain,
}

-- The call returned, in a well-formed world.
pub data Goes : Outcome → Type 0 where
  goes : (w : World) (v : Value) → WorldOk w → Goes (some (w, v))

module _ (env : Env) where
  -- The three specs of the transactions.
  find-multi :
      lookup (codes "MULTI") (new_registry env) ≡ some (reader (codes "MULTI") multi (exactly 0))
  unfolding new_registry lookup insert bytes_eq
  find-multi = refl

  pub find-exec :
      lookup (codes "EXEC") (new_registry env) ≡ some (reader (codes "EXEC") exec (exactly 0))
  unfolding new_registry lookup insert bytes_eq
  find-exec = refl

  find-discard :
      lookup (codes "DISCARD") (new_registry env)
      ≡ some (reader (codes "DISCARD") discard (exactly 0))
  unfolding new_registry lookup insert bytes_eq
  find-discard = refl

log_write-Goes :
    (write : Bool) (name : Bytes) (args : List Value) (w : World) (v : Value)
    → WorldOk w
    → Goes (some (log_write write name args (w, v)))
unfolding log_write
log_write-Goes write name args w v ok =
    if_intro (λ r. Goes (some r)) (write && not (is_error v) && w.ctx.on_write) _ _
      (λ _. goes _ v (record { valid = ok.valid; plain = ok.plain })) (λ _. goes w v ok)

logged-Goes :
    (write : Bool) (name : Bytes) (args : List Value) {o : Outcome}
    → Goes o
    → Goes (logged write name args o)
logged-Goes write name args (goes w v ok) = log_write-Goes write name args w v ok

Returns-Goes : {w : World} {o : Outcome} → WorldOk w → Returns w o → Goes o
Returns-Goes ok (returns w' v valid same) =
    goes w' v (record { valid = valid; plain = subst QueueOk (sym same.same_queue) ok.plain })

reset-WorldOk : (b : Bool) (w : World) → IsValid w.store → WorldOk (reset b w)
reset-WorldOk b w ok = record { valid = ok; plain = tt }

multi-Goes : (d : Dispatcher) (w : World) (args : List Value) → WorldOk w → Goes (multi d w args)
unfolding multi
multi-Goes d w args ok =
    if_intro Goes w.ctx.in_tx _ _ (λ _. goes w _ ok) (λ _. goes _ _ (reset-WorldOk true w ok.valid))

discard-Goes :
    (d : Dispatcher) (w : World) (args : List Value) → WorldOk w → Goes (discard d w args)
unfolding discard
discard-Goes d w args ok =
    if_intro Goes (not w.ctx.in_tx) _ _ (λ _. goes w _ ok)
      (λ _. goes _ _ (reset-WorldOk false w ok.valid))

Runs-Goes :
    (w : World) (queue : List QueuedCommand) {o : Option (World × List Value)}
    → w.ctx.queue ≡ []
    → Runs w queue o
    → Goes (o >>= λ rs. some (rs.0, array_of rs.1))
Runs-Goes w queue e (runs w' vs valid same len) =
    goes w' _ (record { valid = valid; plain = subst QueueOk (sym (same.same_queue ∙ e)) tt })

exec-Goes :
    (d : Dispatcher) (w : World) (args : List Value)
    → ServesPlain d
    → WorldOk w
    → Goes (exec d w args)
unfolding exec
exec-Goes d w args serves ok =
    if_intro Goes (not w.ctx.in_tx) _ _ (λ _. goes w _ ok)
      λ _.
        if_intro Goes w.ctx.tx_error _ _ (λ _. goes _ _ (reset-WorldOk false w ok.valid))
          λ _.
            Runs-Goes (reset false w) w.ctx.queue refl
              (run_queue-Runs d serves w.ctx.queue (reset false w) ok.plain refl ok.valid)

run_spec-Goes :
    (again : Dispatcher) (w : World) (name : Bytes) (args : List Value) (spec : Spec)
    → WorldOk w
    → Goes (spec.handler again w args)
    → Goes (run_spec again w name args (validate_spec name args (some spec)))
unfolding run_spec validate_spec
run_spec-Goes again w name args spec ok h =
    if_intro (λ r. Goes (run_spec again w name args r)) (check_arity spec.arity (length args)) _ _
      (λ _. logged-Goes spec.write name args h) (λ _. goes w _ ok)

bypassing :
    (name : Bytes)
    → bypasses_queue name ≡ true
    → (name ≡ codes "MULTI") ⊎ ((name ≡ codes "EXEC") ⊎ (name ≡ codes "DISCARD"))
unfolding bypasses_queue
bypassing name h = ground (
  arith,
  bytes_eq_sound name (codes "MULTI"),
  bytes_eq_sound name (codes "EXEC"),
  bytes_eq_sound name (codes "DISCARD"),
)

queue_command-Goes :
    (registry : Map Spec) (w : World) (name : Bytes) (args : List Value)
    → WorldOk w
    → IsPlain name
    → Goes (some (queue_command registry w name args))
unfolding queue_command
queue_command-Goes registry w name args ok plain = after (validate registry name args)
  where
    after : (r : Validated) → Goes (some (enqueue w name args r))
    after (invalid v) = goes _ v (record { valid = ok.valid; plain = ok.plain })
    after (runnable spec) = goes _ _ (record {
      valid = ok.valid;
      plain = All-append (λ qc. IsPlain qc.name) w.ctx.queue _ ok.plain (plain, tt);
    })

module _ (env : Env) where
  -- MULTI, EXEC and DISCARD.
  run_bypassing :
      (again : Dispatcher) (w : World) (name : Bytes) (args : List Value)
      → ServesPlain again
      → WorldOk w
      → bypasses_queue name ≡ true
      → Goes (run_spec again w name args (validate_spec name args (lookup name (new_registry env))))
  run_bypassing again w name args serves ok h = elim (bypassing name h) [
    | inl e ↦
        rw (e, find-multi env) (run_spec-Goes again w _ args _ ok (multi-Goes again w args ok))
    | inr (inl e) ↦
        rw (e, find-exec env) (run_spec-Goes again w _ args _ ok (exec-Goes again w args serves ok))
    | inr (inr e) ↦
        rw (e, find-discard env) (run_spec-Goes again w _ args _ ok (discard-Goes again w args ok))
  ]

  run_any :
      (again : Dispatcher) (w : World) (upper : Bytes) (args : List Value)
      → ServesPlain again
      → WorldOk w
      → Goes
          (run_spec again w upper args (validate_spec upper args (lookup upper (new_registry env))))
  run_any again w upper args serves ok = elim (Bool-cases (bypasses_queue upper)) [
    | inl bypass ↦ run_bypassing again w upper args serves ok bypass
    | inr plain ↦ Returns-Goes ok (run_plain env again w upper args _ refl plain ok.valid)
  ]

  -- Whatever the command and its arguments, at a nesting of two Dispatch returns a state and a reply:
  -- no handler indexes past its arguments, and the fuel does not run out. The state has a well-formed
  -- store and a queue of plain commands, if the one before had.
  pub dispatch-Goes :
      (w : World) (name : Bytes) (args : List Value)
      → WorldOk w
      → Goes (dispatch (new_registry env) 2 w name args)
  unfolding dispatch validate find_spec
  dispatch-Goes w name args ok =
      if_intro Goes (w.ctx.in_tx && not (bypasses_queue (to_upper name))) _ _
        (λ queued.
          queue_command-Goes (new_registry env) w (to_upper name) args ok
            (rw (to_upper_idem name) (is_plain _ (bypasses_queue (to_upper name)) queued)))
        (λ _. rw (to_upper_idem name) (
          run_any (dispatch (new_registry env) 1) w (to_upper name) args (dispatch_plain env 0) ok))
