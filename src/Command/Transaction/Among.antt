-- ===== src/Command/Transaction/Among.antt =====
-- internal/command/transaction.go: EXEC among other connections. Each queued command locks the store on
-- its own, so that what other connections do can come before any of them.
use goredis_main.Prelude.{
  ℕ, suc, ◌≡◌, refl, ap, ◌∙◌, true, false, not, List, [], ◌∷◌, Option, none, some, codes, length,
  if◌then◌else◌,
}
use goredis_main.Resp.Value.{Value, error, array_of}
use goredis_main.Command.{Env, World, QueuedCommand, Dispatcher, Outcome, ◌>>=◌, reads}
use goredis_main.Command.Transaction.{reset, run_queue, exec}
use goredis_main.Store.Invariant.{IsValid}
use goredis_main.Command.Registry.{new_registry, dispatch}
use goredis_main.Command.Registry.Plain.{WorldOk, QueueOk, ServesPlain, dispatch_plain}
use goredis_main.Command.Returns.{Returns, returns}

-- The loop of EXEC from the i-th queued command on; `others i` is what other connections do to the state
-- before that one.
unfoldable pub run_queue_among :
    Dispatcher → (ℕ → World → World) → ℕ → World → List QueuedCommand → Option (World × List Value)
run_queue_among dispatch others i w [] = some (w, [])
run_queue_among dispatch others i w (qc ∷ queue) = do
  (w', v) ← dispatch (others i w) qc.name qc.args
  (w'', vs) ← run_queue_among dispatch others (suc i) w' queue
  some (w'', v ∷ vs)

unfoldable pub exec_among : Dispatcher → (ℕ → World → World) → World → List Value → Outcome
exec_among dispatch others w args =
    if not w.ctx.in_tx
    then reads w (error (codes "ERR EXEC without MULTI"))
    else if w.ctx.tx_error
    then some
        (reset false w, error (codes "EXECABORT Transaction discarded because of previous errors."))
    else (do
      (w', vs) ← run_queue_among dispatch others 0 (reset false w) w.ctx.queue
      some (w', array_of vs))

-- The rest of a round of the loop, by the loop after it.
abbrev joined : Outcome → (World → Option (World × List Value)) → Option (World × List Value)
joined o rest = o >>= λ r. rest r.0 >>= λ rs. some (rs.0, r.1 ∷ rs.1)

prepend : Value → Option (World × List Value) → Option (World × List Value)
prepend v o = o >>= λ rs. some (rs.0, v ∷ rs.1)

undisturbed_queue :
    (d : Dispatcher) (i : ℕ) (w : World) (queue : List QueuedCommand)
    → run_queue_among d (λ i w. w) i w queue ≡ run_queue d w queue
unfolding run_queue_among run_queue prepend
undisturbed_queue d i w [] = refl
undisturbed_queue d i w (qc ∷ queue) =
    after (λ w'. undisturbed_queue d (suc i) w' queue) (d w qc.name qc.args)
  where
    after :
        ((w' : World) → run_queue_among d (λ i w. w) (suc i) w' queue ≡ run_queue d w' queue)
        → (o : Outcome)
        → joined o (λ w'. run_queue_among d (λ i w. w) (suc i) w' queue)
          ≡ joined o (λ w'. run_queue d w' queue)
    after again none = refl
    after again (some (w', v)) = ap (prepend v) (again w')

-- The requests run one by one, each in the state that the one before it left, changed by what the other
-- connections did since then, with their replies.
pub data SequenceAmong (d : Dispatcher) (others : ℕ → World → World)
    : ℕ → World → List QueuedCommand → World → List Value → Type 0 where
  finished : (i : ℕ) (w : World) → SequenceAmong d others i w [] w []
  next :
      (i : ℕ) (w w' w'' : World) (qc : QueuedCommand) (queue : List QueuedCommand) (v : Value)
      (vs : List Value)
      → d (others i w) qc.name qc.args ≡ some (w', v)
      → SequenceAmong d others (suc i) w' queue w'' vs
      → SequenceAmong d others i w (qc ∷ queue) w'' (v ∷ vs)

-- The loop came to its end.
record Ran (d : Dispatcher) (others : ℕ → World → World) (i : ℕ) (w : World)
    (queue : List QueuedCommand) : Type 0 where
  state : World
  replies : List Value
  sequence : SequenceAmong d others i w queue state replies
  counted : length replies ≡ length queue
  ran : run_queue_among d others i w queue ≡ some (state, replies)

-- What other connections do keeps the store well-formed and this connection's MULTI.
abbrev pub Others : (ℕ → World → World) → Type 0
Others others =
    (i : ℕ) (w : World)
    → IsValid w.store
    → IsValid (others i w).store × ((others i w).ctx.in_tx ≡ w.ctx.in_tx)

module _ (d : Dispatcher) (serves : ServesPlain d) (others : ℕ → World → World)
    (keeps : Others others) where
  run_queue_among-Ran :
      (queue : List QueuedCommand) (i : ℕ) (w : World)
      → QueueOk queue
      → w.ctx.in_tx ≡ false
      → IsValid w.store
      → Ran d others i w queue
  unfolding run_queue_among
  run_queue_among-Ran [] i w q outside ok = record {
    state = w;
    replies = [];
    sequence = finished i w;
    counted = refl;
    ran = refl;
  }
  run_queue_among-Ran (qc ∷ queue) i w q outside ok =
      let (ok1, same1) = keeps i w ok in
      first
        (λ w' in_tx ok'. run_queue_among-Ran queue (suc i) w' q.1 (in_tx ∙ (same1 ∙ outside)) ok')
        (serves (others i w) qc.name qc.args q.0 (same1 ∙ outside) ok1) refl
    where
      first :
          ((w' : World)
            → w'.ctx.in_tx ≡ (others i w).ctx.in_tx
            → IsValid w'.store
            → Ran d others (suc i) w' queue)
          → {o : Outcome} → Returns (others i w) o
          → d (others i w) qc.name qc.args ≡ o
          → Ran d others i w (qc ∷ queue)
      first again (returns w' v ok' same) e =
          let rest = again w' same.same_in_tx ok' in
          record {
            state = rest.state;
            replies = v ∷ rest.replies;
            sequence = next i w w' rest.state qc queue v rest.replies e rest.sequence;
            counted = ap suc rest.counted;
            ran = rw (e, rest.ran) refl;
          }

module _ (env : Env) where
  -- EXEC of a clean transaction in a well-formed state, among other connections, which may change the
  -- store and the hub before each queued command, since each takes the locks on its own: the queued commands run to the end one
  -- by one, outside MULTI, each in the state that the one before it left, changed by what the others did
  -- since then; the state after EXEC is the one that the last one leaves, and the reply holds their
  -- replies in their order, one for each. The others keep the store well-formed, and leave this
  -- connection's MULTI alone.
  pub exec_among_lem :
      (others : ℕ → World → World) (w : World)
      → Others others
      → WorldOk w
      → w.ctx.in_tx ≡ true
      → w.ctx.tx_error ≡ false
      → (w' : World) × (vs : List Value) × (SequenceAmong
          (dispatch (new_registry env) 1)
          others
          0
          (reset false w)
          w.ctx.queue
          w'
          vs)
        × (length vs ≡ length w.ctx.queue)
        × (exec_among (dispatch (new_registry env) 1) others w [] ≡ some (w', array_of vs))
  unfolding exec_among
  exec_among_lem others w keeps ok inside clean =
      let r =
        run_queue_among-Ran (dispatch (new_registry env) 1) (dispatch_plain env 0) others keeps
          w.ctx.queue 0 (reset false w) ok.plain refl ok.valid in
      (r.state, r.replies, r.sequence, r.counted, rw (inside, clean, r.ran) refl)

-- With nothing in between it is the EXEC of the registry.
undisturbed :
    (d : Dispatcher) (w : World) (args : List Value)
    → exec_among d (λ i w. w) w args ≡ exec d w args
unfolding exec_among exec
undisturbed d w args = rw (undisturbed_queue d 0 (reset false w) w.ctx.queue) refl
