-- ===== src/Command/Transaction/Laws.antt =====
-- internal/command/transaction.go: EXEC runs the queue as the same requests would run one by one.
use goredis_main.Prelude.{
  ◌≡◌, true, false, List, [], ◌∷◌, none, some, Option-cases, subst, inl, inr,
}
use goredis_main.Resp.Value.{Value, array_of}
use goredis_main.Command.{World, QueuedCommand, Dispatcher}
use goredis_main.Command.Transaction.{reset, run_queue, exec}

no_result : {A : Type 0} {x : A} → none ≡ some x → ⊥
no_result h = cc

some-inj : {A : Type 0} {x y : A} → some x ≡ some y → x ≡ y
some-inj h = cc

-- The requests run one by one, each in the state that the one before it left, with their replies.
pub data Sequence (d : Dispatcher) : World → List QueuedCommand → World → List Value → Type 0 where
  finished : (w : World) → Sequence d w [] w []
  next :
      (w w' w'' : World) (qc : QueuedCommand) (queue : List QueuedCommand) (v : Value)
      (vs : List Value)
      → d w qc.name qc.args ≡ some (w', v)
      → Sequence d w' queue w'' vs
      → Sequence d w (qc ∷ queue) w'' (v ∷ vs)

-- A queue that EXEC's loop gets through ran one by one.
run_queue-Sequence :
    (d : Dispatcher) (w : World) (queue : List QueuedCommand) {w' : World} {vs : List Value}
    → run_queue d w queue ≡ some (w', vs)
    → Sequence d w queue w' vs
unfolding run_queue
run_queue-Sequence d w [] {w'} {vs} h =
    subst (λ r. Sequence d w [] r.0 r.1) {x = (w, [])} {y = (w', vs)} (some-inj h) (finished w)
run_queue-Sequence d w (qc ∷ queue) {w'} {vs} h = elim (Option-cases (d w qc.name qc.args)) [
  | inl e ↦ absurd (no_result (rw e at h))
  | inr ((w1, v), e) ↦ elim (Option-cases (run_queue d w1 queue)) [
    | inl e' ↦ absurd (no_result (rw (e, e') at h))
    | inr ((w2, vs'), e') ↦
        subst (λ r. Sequence d w (qc ∷ queue) r.0 r.1) {x = (w2, v ∷ vs')} {y = (w', vs)}
          (some-inj (rw (e, e') at h))
          (next w w1 w2 qc queue v vs' e (run_queue-Sequence d w1 queue e'))
  ]
]

-- EXEC inside MULTI, with no error while queueing, ends where its loop does, and replies with the
-- loop's replies.
pub exec-run_queue :
    (d : Dispatcher) (w w' : World) (args vs : List Value)
    → w.ctx.in_tx ≡ true
    → w.ctx.tx_error ≡ false
    → run_queue d (reset false w) w.ctx.queue ≡ some (w', vs)
    → (Sequence d (reset false w) w.ctx.queue w' vs) × (exec d w args ≡ some (w', array_of vs))
unfolding exec
exec-run_queue d w w' args vs inside clean ran =
    (run_queue-Sequence d (reset false w) w.ctx.queue ran, rw (inside, clean, ran))
