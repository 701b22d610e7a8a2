-- ===== src/Command/Registry/Atomic.antt =====
-- internal/command: requests that are answered with an error, and the store.
use goredis_main.Prelude.{
  ℕ, zero, suc, ◌≡◌, inl, inr, refl, subst, Bool, true, false, not, ◌&&◌, List, Option, none, some,
  Bytes, if_intro,
}
use goredis_main.Resp.Value.{Value, is_error, array_of}
use goredis_main.Command.{Env, World, Outcome, Dispatcher, ◌>>=◌}
use goredis_main.Command.Acts.{extract, some-inj, no_result}
use goredis_main.Command.Names.{to_upper}
use goredis_main.Command.Transaction.{reset, run_queue, multi, exec, discard}
use goredis_main.Command.Registry.{Spec, new_registry, log_write, logged, dispatch}
use goredis_main.Command.Registry.Cases.{Dispatched, queued, refused, ran, dispatch-cases}
use goredis_main.Command.Registry.Effects.{Behaves, acting, transacting, registry-Behaves}

-- An outcome that is an error leaves the store of `w`.
abbrev FailsClean : World → Outcome → Type 0
FailsClean w o = (r : World × Value) → o ≡ some r → is_error r.1 ≡ true → r.0.store ≡ w.store

clean :
    (w w' : World) (v : Value)
    → (is_error v ≡ true → w'.store ≡ w.store)
    → FailsClean w (some (w', v))
clean w w' v h r e =
    subst (λ x. is_error x.1 ≡ true → x.0.store ≡ w.store) {x = (w', v)} {y = r} (some-inj e) h

multi-FailsClean : (d : Dispatcher) (w : World) (args : List Value) → FailsClean w (multi d w args)
unfolding multi
multi-FailsClean d w args =
    if_intro (FailsClean w) w.ctx.in_tx _ _ (λ _. clean w _ _ (λ _. refl))
      (λ _. clean w _ _ (λ _. refl))

discard-FailsClean :
    (d : Dispatcher) (w : World) (args : List Value) → FailsClean w (discard d w args)
unfolding discard
discard-FailsClean d w args =
    if_intro (FailsClean w) (not w.ctx.in_tx) _ _ (λ _. clean w _ _ (λ _. refl))
      (λ _. clean w _ _ (λ _. refl))

replies-FailsClean :
    (w : World) (o : Option (World × List Value))
    → FailsClean w (o >>= λ rs. some (rs.0, array_of rs.1))
replies-FailsClean w none = λ r e. no_result e
replies-FailsClean w (some rs) = clean w _ _ (λ e. cc)

exec-FailsClean : (d : Dispatcher) (w : World) (args : List Value) → FailsClean w (exec d w args)
unfolding exec
exec-FailsClean d w args =
    if_intro (FailsClean w) (not w.ctx.in_tx) _ _ (λ _. clean w _ _ (λ _. refl))
      λ _.
        if_intro (FailsClean w) w.ctx.tx_error _ _ (λ _. clean w _ _ (λ _. refl))
          λ _. replies-FailsClean w (run_queue d (reset false w) w.ctx.queue)

log_write-FailsClean :
    (b : Bool) (name : Bytes) (args : List Value) (w w' : World) (v : Value)
    → (is_error v ≡ true → w'.store ≡ w.store)
    → FailsClean w (some (log_write b name args (w', v)))
unfolding log_write
log_write-FailsClean b name args w w' v h =
    if_intro (λ (r : World × Value). FailsClean w (some r))
      (b && not (is_error v) && w'.ctx.on_write) _ _ (λ _. clean w _ _ h) (λ _. clean w _ _ h)

logged-FailsClean :
    (b : Bool) (name : Bytes) (args : List Value) (w : World) (o : Outcome)
    → FailsClean w o
    → FailsClean w (logged b name args o)
logged-FailsClean b name args w none h = λ r e. no_result e
logged-FailsClean b name args w (some (w', v)) h =
    log_write-FailsClean b name args w w' v (h (w', v) refl)

module _ (env : Env) where
  spec-FailsClean :
      (f : ℕ) (w : World) (name : Bytes) (args : List Value) (spec : Spec)
      → Behaves name spec
      → FailsClean w (spec.handler (dispatch (new_registry env) f) w args)
  spec-FailsClean f w name args spec (acting behaves) = λ r e.
      (extract r
        (behaves (dispatch (new_registry env) f) (dispatch (new_registry env) f) w w.hub w.ctx w.log
          args)
        e).on_error
  spec-FailsClean f w name args spec (transacting (_, inl e)) = rw e (multi-FailsClean _ w args)
  spec-FailsClean f w name args spec (transacting (_, inr (inl e))) =
      rw e (exec-FailsClean _ w args)
  spec-FailsClean f w name args spec (transacting (_, inr (inr e))) =
      rw e (discard-FailsClean _ w args)

  case-FailsClean :
      (f : ℕ) (w : World) (name : Bytes) (args : List Value) {o : Outcome}
      → Dispatched env f w name args o
      → FailsClean w o
  case-FailsClean f w name args (queued w' v s l n t o) = clean w w' v (λ _. s)
  case-FailsClean f w name args (refused v) = clean w w v (λ _. refl)
  case-FailsClean f w name args (ran spec found fits) =
      logged-FailsClean spec.write name args w _
        (spec-FailsClean f w name args spec (registry-Behaves env name found))

  -- Whatever the command, the arguments and the nesting: where Dispatch replies with an error, the
  -- store is the one before.
  pub dispatch_atomic :
      (f : ℕ) (w w' : World) (name : Bytes) (args : List Value) (v : Value)
      → dispatch (new_registry env) f w name args ≡ some (w', v)
      → is_error v ≡ true
      → w'.store ≡ w.store
  unfolding dispatch
  dispatch_atomic zero w w' name args v e bad = no_result e
  dispatch_atomic (suc f) w w' name args v e bad =
      case-FailsClean f w (to_upper name) args (dispatch-cases env f w args name) (w', v) e bad
