-- ===== src/Command/Registry/Cases.antt =====
-- The ways in which a call of Dispatch goes: the command is queued, it is refused, or its handler runs.
use goredis_main.Prelude.{
  ℕ, suc, ◌≡◌, refl, Bool, true, false, not, ◌&&◌, List, Option, none, some, Bytes, length,
  Bool-cases, inl, inr, if_intro,
}
use goredis_main.GoMap.{lookup}
use goredis_main.Resp.Value.{Value}
use goredis_main.Command.{Env, World, Outcome}
use goredis_main.Command.Names.{to_upper}
use goredis_main.Command.Registry.{
  Spec, check_arity, bypasses_queue, new_registry, find_spec, Validated, runnable, invalid,
  validate_spec, validate, enqueue, queue_command, logged, run_spec, dispatch,
}
use goredis_main.Command.Registry.Plain.{to_upper_idem}

pub data Dispatched (env : Env) (f : ℕ) (w : World) (upper : Bytes) (args : List Value)
    : Outcome → Type 0 where
  queued :
      (w' : World) (v : Value)
      → w'.store ≡ w.store
      → w'.log ≡ w.log
      → w'.now ≡ w.now
      → w'.later ≡ w.later
      → w'.ctx.on_write ≡ w.ctx.on_write
      → Dispatched env f w upper args (some (w', v))
  refused : (v : Value) → Dispatched env f w upper args (some (w, v))
  ran :
      (spec : Spec)
      → lookup upper (new_registry env) ≡ some spec
      → check_arity spec.arity (length args) ≡ true
      → Dispatched env f w upper args
          (logged spec.write upper args (spec.handler (dispatch (new_registry env) f) w args))

not_queued : (b c : Bool) → b ≡ false → (b && not c) ≡ false
not_queued true c e = cc
not_queued false c e = refl

module _ (env : Env) (f : ℕ) (w : World) (args : List Value) where
  queue_command-Dispatched :
      (upper : Bytes)
      → Dispatched env f w upper args (some (queue_command (new_registry env) w upper args))
  unfolding queue_command
  queue_command-Dispatched upper = after (validate (new_registry env) upper args)
    where
      after : (r : Validated) → Dispatched env f w upper args (some (enqueue w upper args r))
      after (invalid v) = queued _ v refl refl refl refl refl
      after (runnable spec) = queued _ _ refl refl refl refl refl

  run_spec-Dispatched :
      (upper : Bytes) (o : Option Spec)
      → lookup upper (new_registry env) ≡ o
      → Dispatched env f w upper args
          (run_spec (dispatch (new_registry env) f) w upper args (validate_spec upper args o))
  unfolding run_spec validate_spec
  run_spec-Dispatched upper none e = refused _
  run_spec-Dispatched upper (some spec) e =
      elim (Bool-cases (check_arity spec.arity (length args))) [
        | inl fits ↦ rw fits (ran spec e fits)
        | inr bad ↦ rw bad (refused _)
      ]

  pub dispatch-cases :
      (name : Bytes)
      → Dispatched env f w (to_upper name) args (dispatch (new_registry env) (suc f) w name args)
  unfolding dispatch validate find_spec
  dispatch-cases name =
      if_intro (Dispatched env f w (to_upper name) args)
        (w.ctx.in_tx && not (bypasses_queue (to_upper name))) _ _
        (λ _. queue_command-Dispatched (to_upper name))
        (λ _. rw (to_upper_idem name) (run_spec-Dispatched (to_upper name) _ refl))

  -- Outside MULTI the handler of a command that fits its arity runs.
  pub dispatch_outside :
      (upper : Bytes) (spec : Spec)
      → w.ctx.in_tx ≡ false
      → to_upper upper ≡ upper
      → lookup upper (new_registry env) ≡ some spec
      → check_arity spec.arity (length args) ≡ true
      → dispatch (new_registry env) (suc f) w upper args
        ≡ logged spec.write upper args (spec.handler (dispatch (new_registry env) f) w args)
  unfolding dispatch validate find_spec run_spec validate_spec
  dispatch_outside upper spec outside same found fits =
      rw (same, not_queued _ (bypasses_queue upper) outside, same, found, fits) refl
