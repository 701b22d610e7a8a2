-- ===== src/Command/Registry/Exec.antt =====
-- Transactions as a client sees them: EXEC on the registry of the program.
use goredis_main.Prelude.{
  bytes_eq, ◌≡◌, refl, ◌∙◌, Bytes, Bool, true, false, not, ◌&&◌, List, [], Option, none, some,
  codes, length,
}
use goredis_main.Resp.Value.{Value, array_of}
use goredis_main.Command.{Env, World, Outcome}
use goredis_main.Command.Names.{upper_byte}
use goredis_main.Command.Transaction.{reset, run_queue, exec}
use goredis_main.Command.Transaction.Laws.{Sequence, exec-run_queue}
use goredis_main.Command.Registry.{
  bypasses_queue, new_registry, find_spec, check_arity, validate_spec, validate, log_write, logged,
  run_spec, dispatch,
}
use goredis_main.Command.Registry.Plain.{WorldOk, Runs, runs, run_queue-Runs, dispatch_plain}
use goredis_main.Command.Registry.Total.{find-exec}

-- EXEC is not queued, inside MULTI or outside.
never : (b : Bool) → (b && not true) ≡ false
never true = refl
never false = refl

-- A command that is no write is not logged.
logged_reader : (name : Bytes) (args : List Value) (o : Outcome) → logged false name args o ≡ o
unfolding log_write
logged_reader name args none = refl
logged_reader name args (some r) = refl

module _ (env : Env) where
  -- EXEC of a clean transaction in a well-formed state, where no other connection comes between the
  -- queued commands: they run to the end one by one, outside MULTI, each in the state that the one before it left; the state after
  -- EXEC is the one they leave, and the reply holds their replies in their order, one for each.
  pub exec_lem :
      (w : World)
      → WorldOk w
      → w.ctx.in_tx ≡ true
      → w.ctx.tx_error ≡ false
      → (w' : World) × (vs : List Value) × (Sequence
          (dispatch (new_registry env) 1)
          (reset false w)
          w.ctx.queue
          w'
          vs)
        × (length vs ≡ length w.ctx.queue)
        × (dispatch (new_registry env) 2 w (codes "EXEC") [] ≡ some (w', array_of vs))
  unfolding dispatch validate find_spec bytes_eq upper_byte bypasses_queue run_spec validate_spec
      log_write check_arity
  exec_lem w valid inside clean =
      from
        (run_queue-Runs (dispatch (new_registry env) 1) (dispatch_plain env 0) w.ctx.queue
          (reset false w) valid.plain refl valid.valid)
        refl
    where
      from :
          {o : Option (World × List Value)}
          → Runs (reset false w) w.ctx.queue o
          → run_queue (dispatch (new_registry env) 1) (reset false w) w.ctx.queue ≡ o
          → (w' : World) × (vs : List Value) × (Sequence
              (dispatch (new_registry env) 1)
              (reset false w)
              w.ctx.queue
              w'
              vs)
            × (length vs ≡ length w.ctx.queue)
            × (dispatch (new_registry env) 2 w (codes "EXEC") [] ≡ some (w', array_of vs))
      from (runs w' vs ok same len) ran =
          let (sequence, whole) =
            exec-run_queue (dispatch (new_registry env) 1) w w' [] vs inside clean ran in
          (
            w',
            vs,
            sequence,
            len,
            rw (never w.ctx.in_tx, find-exec env)
                (logged_reader (codes "EXEC") [] (exec (dispatch (new_registry env) 1) w [])
                  ∙ whole),
          )
