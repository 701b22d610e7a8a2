-- ===== src/Server/Rebuild/Transactions.antt =====
-- internal/server: the replay of the lines of MULTI, DISCARD and EXEC.
use goredis_main.Prelude.{
  ◌≡◌, refl, subst, ◌∙◌, inl, inr, Bool, true, false, not, List, [], ◌∷◌, Option, none, some, Bytes,
  Option-cases, if_intro,
}
use goredis_main.Resp.Value.{Value, array_of}
use goredis_main.Command.{Env, World, QueuedCommand, Outcome, Dispatcher, ◌>>=◌}
use goredis_main.Command.Transaction.{reset, run_queue, multi, exec, discard}
use goredis_main.Server.Rebuild.{Rebuilt, idle-Rebuilt, Rebuilt-trans}
use goredis_main.Command.Acts.{some-inj, no_result}

-- Every call of a dispatcher that returns is rebuilt.
abbrev pub Rebuilds : Env → Dispatcher → Type 0
Rebuilds env d =
    (w : World) (name : Bytes) (args : List Value) (r : World × Value)
    → w.ctx.on_write ≡ true
    → d w name args ≡ some r
    → Rebuilt env w r.0

-- An outcome, if it is one, is rebuilt.
abbrev pub OutcomeRebuilt : Env → World → Outcome → Type 0
OutcomeRebuilt env w o = (r : World × Value) → o ≡ some r → Rebuilt env w r.0

module _ (env : Env) where
  pub returned : {w w' : World} (v : Value) → Rebuilt env w w' → OutcomeRebuilt env w (some (w', v))
  returned {w} {w'} v b r e = subst (λ x. Rebuilt env w x.0) {x = (w', v)} {y = r} (some-inj e) b

  reset-Rebuilt : (b : Bool) (w : World) → Rebuilt env w (reset b w)
  reset-Rebuilt b w = idle-Rebuilt env w (reset b w) refl refl refl refl refl

  pub same-Rebuilt : (w : World) → Rebuilt env w w
  same-Rebuilt w = idle-Rebuilt env w w refl refl refl refl refl

  pub multi-Rebuilt :
      (d : Dispatcher) (w : World) (args : List Value) → OutcomeRebuilt env w (multi d w args)
  unfolding multi
  multi-Rebuilt d w args =
      if_intro (OutcomeRebuilt env w) w.ctx.in_tx _ _ (λ _. returned _ (same-Rebuilt w))
        (λ _. returned _ (reset-Rebuilt true w))

  pub discard-Rebuilt :
      (d : Dispatcher) (w : World) (args : List Value) → OutcomeRebuilt env w (discard d w args)
  unfolding discard
  discard-Rebuilt d w args =
      if_intro (OutcomeRebuilt env w) (not w.ctx.in_tx) _ _ (λ _. returned _ (same-Rebuilt w))
        (λ _. returned _ (reset-Rebuilt false w))

  run_queue-Rebuilt :
      (d : Dispatcher)
      → Rebuilds env d
      → (queue : List QueuedCommand) (w : World) (rs : World × List Value) → w.ctx.on_write ≡ true
      → run_queue d w queue ≡ some rs
      → Rebuilt env w rs.0
  unfolding run_queue
  run_queue-Rebuilt d again [] w rs on e =
      subst (λ x. Rebuilt env w x.0) {x = (w, [])} {y = rs} (some-inj e) (same-Rebuilt w)
  run_queue-Rebuilt d again (qc ∷ queue) w rs on e = elim (Option-cases (d w qc.name qc.args)) [
    | inl e1 ↦ no_result (rw e1 at e)
    | inr (r1, e1) ↦ elim (Option-cases (run_queue d r1.0 queue)) [
      | inl e2 ↦ no_result (rw (e1, e2) at e)
      | inr (r2, e2) ↦
          let first = again w qc.name qc.args r1 on e1 in
          let others = run_queue-Rebuilt d again queue r1.0 r2 (first.kept_on_write ∙ on) e2 in
          subst (λ x. Rebuilt env w x.0) {x = (r2.0, r1.1 ∷ r2.1)} {y = rs}
            (some-inj (rw (e1, e2) at e)) (Rebuilt-trans env w r1.0 r2.0 first others)
    ]
  ]

  pub exec-Rebuilt :
      (d : Dispatcher) (w : World) (args : List Value)
      → Rebuilds env d
      → w.ctx.on_write ≡ true
      → OutcomeRebuilt env w (exec d w args)
  unfolding exec
  exec-Rebuilt d w args again on =
      if_intro (OutcomeRebuilt env w) (not w.ctx.in_tx) _ _ (λ _. returned _ (same-Rebuilt w))
        λ _.
          if_intro (OutcomeRebuilt env w) w.ctx.tx_error _ _
            (λ _. returned _ (reset-Rebuilt false w))
            λ _. replies (run_queue d (reset false w) w.ctx.queue) refl
    where
      replies :
          (o : Option (World × List Value))
          → run_queue d (reset false w) w.ctx.queue ≡ o
          → OutcomeRebuilt env w (o >>= λ rs. some (rs.0, array_of rs.1))
      replies none e = λ r h. no_result h
      replies (some rs) e = returned _ (
          Rebuilt-trans env w (reset false w) rs.0 (reset-Rebuilt false w)
            (run_queue-Rebuilt d again w.ctx.queue (reset false w) rs on e))
