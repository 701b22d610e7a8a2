-- ===== src/Command/Registry/Plain.antt =====
-- Dispatch on the commands that can be queued, and EXEC's loop over the queue.
use goredis_main.Prelude.{
  ℕ, suc, ◌≡◌, refl, ◌∙◌, ap, Bool, true, false, not, ◌&&◌, List, [], ◌∷◌, Option, none, some,
  Bytes, length, All, Bool-cases, if_intro, inl, inr, arith,
}
use goredis_main.GoMap.{lookup}
use goredis_main.Resp.Value.{Value, is_error}
use goredis_main.Store.Invariant.{IsValid}
use goredis_main.Command.{Env, World, QueuedCommand, Outcome, Dispatcher, ◌>>=◌}
use goredis_main.Command.Names.{upper_byte, to_upper}
use goredis_main.Command.Returns.{SameTx, SameTx-refl, Returns, returns}
use goredis_main.Command.Transaction.{run_queue}
use goredis_main.Command.Registry.{
  Spec, check_arity, bypasses_queue, new_registry, find_spec, validate_spec, validate, log_write,
  logged, run_spec, dispatch,
}
use goredis_main.Command.Registry.Safe.{registry-SpecSafe}

upper_byte_idem : (c : ℕ) → upper_byte (upper_byte c) ≡ upper_byte c
unfolding upper_byte
upper_byte_idem c = ground arith

pub to_upper_idem : (s : Bytes) → to_upper (to_upper s) ≡ to_upper s
to_upper_idem [] = refl
to_upper_idem (c ∷ s) = cc (upper_byte_idem c, to_upper_idem s)

-- A name that is queued inside MULTI: it does not bypass the queue.
abbrev pub IsPlain : Bytes → Type 0
IsPlain name = bypasses_queue (to_upper name) ≡ false

abbrev pub QueueOk : List QueuedCommand → Type 0
QueueOk queue = All (λ qc. IsPlain qc.name) queue

pub record WorldOk (w : World) : Type 0 where
  pub valid : IsValid w.store
  pub plain : QueueOk w.ctx.queue

log_write-Returns :
    (w : World) (write : Bool) (name : Bytes) (args : List Value) (w' : World) (v : Value)
    → IsValid w'.store
    → SameTx w w'
    → Returns w (some (log_write write name args (w', v)))
unfolding log_write
log_write-Returns w write name args w' v ok same =
    elim (Bool-cases (write && not (is_error v) && w'.ctx.on_write)) [
      | inl e ↦ rw e (
          returns _ v ok (record {
            same_in_tx = same.same_in_tx;
            same_queue = same.same_queue;
            same_error = same.same_error;
          }))
      | inr e ↦ rw e (returns w' v ok same)
    ]

logged-Returns :
    (w : World) (write : Bool) (name : Bytes) (args : List Value) {o : Outcome}
    → Returns w o
    → Returns w (logged write name args o)
logged-Returns w write name args (returns w' v ok same) =
    log_write-Returns w write name args w' v ok same

not_queued : (b c : Bool) → b ≡ false → (b && not c) ≡ true → ⊥
not_queued true c e t = cc
not_queued false c e t = cc

pub is_plain : (b c : Bool) → (b && not c) ≡ true → c ≡ false
is_plain true true t = cc
is_plain true false t = refl
is_plain false c t = cc

-- What EXEC's loop leaves: one reply for each command, and the transaction as it was.
pub data Runs (w : World) (queue : List QueuedCommand) : Option (World × List Value) → Type 0 where
  runs :
      (w' : World) (vs : List Value)
      → IsValid w'.store
      → SameTx w w'
      → length vs ≡ length queue
      → Runs w queue (some (w', vs))

SameTx-trans : {u v w : World} → SameTx u v → SameTx v w → SameTx u w
SameTx-trans a b = record {
  same_in_tx = b.same_in_tx ∙ a.same_in_tx;
  same_queue = b.same_queue ∙ a.same_queue;
  same_error = b.same_error ∙ a.same_error;
}

-- A dispatcher that serves plain commands outside MULTI.
abbrev pub ServesPlain : Dispatcher → Type 0
ServesPlain d =
    (w : World) (name : Bytes) (args : List Value)
    → IsPlain name
    → w.ctx.in_tx ≡ false
    → IsValid w.store
    → Returns w (d w name args)

run_rest :
    (d : Dispatcher) (w : World) (qc : QueuedCommand) (queue : List QueuedCommand) {o : Outcome}
    → Returns w o
    → ((w' : World) → SameTx w w' → IsValid w'.store → Runs w' queue (run_queue d w' queue))
    → Runs w (qc ∷ queue) (o >>= λ r. run_queue d r.0 queue >>= λ rs. some (rs.0, r.1 ∷ rs.1))
run_rest d w qc queue (returns w' v ok same) next = after (next w' same ok)
  where
    after :
        {o : Option (World × List Value)}
        → Runs w' queue o
        → Runs w (qc ∷ queue) (o >>= λ rs. some (rs.0, v ∷ rs.1))
    after (runs w'' vs ok' same' len) = runs w'' (v ∷ vs) ok' (SameTx-trans same same') (ap suc len)

pub run_queue-Runs :
    (d : Dispatcher)
    → ServesPlain d
    → (queue : List QueuedCommand) (w : World) → QueueOk queue
    → w.ctx.in_tx ≡ false
    → IsValid w.store
    → Runs w queue (run_queue d w queue)
unfolding run_queue
run_queue-Runs d serves [] w q outside ok = runs w [] ok (SameTx-refl w) refl
run_queue-Runs d serves (qc ∷ queue) w q outside ok =
    run_rest d w qc queue (serves w qc.name qc.args q.0 outside ok)
      λ w' same ok'. run_queue-Runs d serves queue w' q.1 (same.same_in_tx ∙ outside) ok'

module _ (env : Env) where
  -- A plain command outside MULTI.
  pub run_plain :
      (again : Dispatcher) (w : World) (upper : Bytes) (args : List Value) (o : Option Spec)
      → lookup upper (new_registry env) ≡ o
      → bypasses_queue upper ≡ false
      → IsValid w.store
      → Returns w (run_spec again w upper args (validate_spec upper args o))
  unfolding run_spec validate_spec
  run_plain again w upper args none e plain ok = returns w _ ok (SameTx-refl w)
  run_plain again w upper args (some spec) e plain ok =
      elim (Bool-cases (check_arity spec.arity (length args))) [
        | inl fits ↦ rw fits (
            logged-Returns w spec.write upper args
              (registry-SpecSafe env upper plain e again w args fits ok))
        | inr bad ↦ rw bad (returns w _ ok (SameTx-refl w))
      ]

  pub dispatch_plain :
      (f : ℕ) (w : World) (name : Bytes) (args : List Value)
      → IsPlain name
      → w.ctx.in_tx ≡ false
      → IsValid w.store
      → Returns w (dispatch (new_registry env) (suc f) w name args)
  unfolding dispatch validate find_spec
  dispatch_plain f w name args plain outside ok =
      if_intro (Returns w) (w.ctx.in_tx && not (bypasses_queue (to_upper name))) _ _
        (λ queued. absurd (not_queued _ (bypasses_queue (to_upper name)) outside queued))
        (λ _.
          rw (to_upper_idem name)
            (run_plain (dispatch (new_registry env) f) w (to_upper name) args _ refl plain ok))
