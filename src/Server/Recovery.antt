-- ===== src/Server/Recovery.antt =====
-- internal/server and internal/aof: what a restart recovers.
use goredis_main.Prelude.{
  ℕ, zero, suc, ◌≡◌, ◌⊎◌, refl, sym, ap, subst, ◌∙◌, inl, inr, true, false, not, ◌&&◌, if_intro,
  List, [], ◌∷◌, ◌++◌, none, some, Bytes, All, length,
}
use goredis_main.GoMap.{lookup}
use goredis_main.Resp.Value.{
  Value, simple, error, integer, bulk, array, null_bulk, null_array, array_of, str_of, to_list,
}
use goredis_main.Pubsub.{Hub}
use goredis_main.Resp.Reader.{Limits}
use goredis_main.Resp.Reader.RoundTrip.{Fits}
use goredis_main.Command.{Env, World, Context, Outcome}
use goredis_main.Command.Acts.{twin}
use goredis_main.Command.Pubsub.{in_subscriber_mode}
use goredis_main.Command.Names.{to_upper}
use goredis_main.Command.Transaction.{multi, exec, discard}
use goredis_main.Command.Registry.{Spec, check_arity, new_registry, log_write, logged, dispatch}
use goredis_main.Command.Registry.Cases.{Dispatched, queued, refused, ran, dispatch-cases}
use goredis_main.Command.Registry.Plain.{to_upper_idem}
use goredis_main.Command.Registry.Effects.{Behaves, acting, transacting, registry-Behaves}
use goredis_main.Aof.{replay, done}
use goredis_main.Aof.Recovery.{Ran, append_all, replay-append_all}
use goredis_main.Server.{
  nesting, subscriber_mode_allowed, handle_elems, handle_request, replay_command,
}
use goredis_main.Server.Rebuild.{Rebuilt, Rebuilt-trans, idle-Rebuilt}
use goredis_main.Command.Acts.{no_result}
use goredis_main.Server.Rebuild.Commands.{acting-Rebuilt}
use goredis_main.Server.Rebuild.Transactions.{
  Rebuilds, OutcomeRebuilt, returned, same-Rebuilt, multi-Rebuilt, discard-Rebuilt, exec-Rebuilt,
}

module _ (env : Env) where
  -- A command that is no write is not logged.
  quiet : (name : Bytes) (args : List Value) (o : Outcome) → logged false name args o ≡ o
  unfolding log_write
  quiet name args none = refl
  quiet name args (some r) = refl

  transacting-Rebuilt :
      (f : ℕ) (w : World) (upper : Bytes) (args : List Value) (spec : Spec)
      → Rebuilds env (dispatch (new_registry env) f)
      → w.ctx.on_write ≡ true
      → Behaves upper spec
      → to_upper upper ≡ upper
      → lookup upper (new_registry env) ≡ some spec
      → check_arity spec.arity (length args) ≡ true
      → OutcomeRebuilt env w
          (logged spec.write upper args (spec.handler (dispatch (new_registry env) f) w args))
  transacting-Rebuilt f w upper args spec again on (acting behaves) same found fits =
      logs (spec.handler (dispatch (new_registry env) f) w args) refl
    where
      logs :
          (o : Outcome)
          → spec.handler (dispatch (new_registry env) f) w args ≡ o
          → OutcomeRebuilt env w (logged spec.write upper args o)
      logs none e = λ r h. no_result h
      logs (some (w', v)) e =
          returned env _ (acting-Rebuilt env f w upper args spec behaves on same found fits w' v e)
  transacting-Rebuilt f w upper args spec again on (transacting (reader, which)) same found fits =
      rw (reader, quiet upper args (spec.handler (dispatch (new_registry env) f) w args)) (by which)
    where
      by :
          (spec.handler ≡ multi) ⊎ ((spec.handler ≡ exec) ⊎ (spec.handler ≡ discard))
          → OutcomeRebuilt env w (spec.handler (dispatch (new_registry env) f) w args)
      by (inl e) = rw e (multi-Rebuilt env (dispatch (new_registry env) f) w args)
      by (inr (inl e)) = rw e (exec-Rebuilt env (dispatch (new_registry env) f) w args again on)
      by (inr (inr e)) = rw e (discard-Rebuilt env (dispatch (new_registry env) f) w args)

  case-Rebuilt :
      (f : ℕ) (w : World) (name : Bytes) (args : List Value)
      → Rebuilds env (dispatch (new_registry env) f)
      → w.ctx.on_write ≡ true
      → {o : Outcome} → Dispatched env f w (to_upper name) args o
      → OutcomeRebuilt env w o
  case-Rebuilt f w name args again on (queued w' v s l n t o) =
      returned env v (idle-Rebuilt env w w' s l n t o)
  case-Rebuilt f w name args again on (refused v) = returned env v (same-Rebuilt env w)
  case-Rebuilt f w name args again on (ran spec found fits) =
      transacting-Rebuilt f w (to_upper name) args spec again on
        (registry-Behaves env (to_upper name) found) (to_upper_idem name) found fits

  dispatch-Rebuilds : (f : ℕ) → Rebuilds env (dispatch (new_registry env) f)
  unfolding dispatch
  dispatch-Rebuilds zero w name args r on e = no_result e
  dispatch-Rebuilds (suc f) w name args r on e =
      case-Rebuilt f w name args (dispatch-Rebuilds f) on (dispatch-cases env f w args name) r e

  handle_elems-Rebuilt :
      (w : World) (vs : List Value)
      → w.ctx.on_write ≡ true
      → OutcomeRebuilt env w (handle_elems (new_registry env) w vs)
  unfolding handle_elems
  handle_elems-Rebuilt w [] on = returned env _ (same-Rebuilt env w)
  handle_elems-Rebuilt w (v ∷ args) on =
      if_intro (OutcomeRebuilt env w)
        (in_subscriber_mode w && not (subscriber_mode_allowed (to_upper (str_of v)))) _ _
        (λ _. returned env _ (same-Rebuilt env w))
        (λ _ r e. dispatch-Rebuilds nesting w (to_upper (str_of v)) args r on e)

  handle_request-Rebuilt :
      (w : World) (req : Value)
      → w.ctx.on_write ≡ true
      → OutcomeRebuilt env w (handle_request (new_registry env) w req)
  unfolding handle_request
  handle_request-Rebuilt w (simple s) on = returned env _ (same-Rebuilt env w)
  handle_request-Rebuilt w (error s) on = returned env _ (same-Rebuilt env w)
  handle_request-Rebuilt w (integer n) on = returned env _ (same-Rebuilt env w)
  handle_request-Rebuilt w (bulk s) on = returned env _ (same-Rebuilt env w)
  handle_request-Rebuilt w null_bulk on = returned env _ (same-Rebuilt env w)
  handle_request-Rebuilt w (array m vs) on = handle_elems-Rebuilt w (to_list vs) on
  handle_request-Rebuilt w null_array on = returned env _ (same-Rebuilt env w)

-- What the connections of a process do to its world between two ticks of the clock: one of them has a
-- request served; another one is next, logging as well; the hub changes, as a message is forwarded or
-- a connection closes.
pub data Session (env : Env) (w : World) : World → Type 0 where
  start : Session env w w
  serves :
      {w1 : World} (req : Value) (w2 : World) (v : Value)
      → Session env w w1
      → handle_request (new_registry env) w1 req ≡ some (w2, v)
      → Session env w w2
  switches :
      {w1 : World} (ctx : Context)
      → Session env w w1
      → ctx.on_write ≡ true
      → Session env w (record w1 { ctx = ctx })
  forwards : {w1 : World} (hub : Hub) → Session env w w1 → Session env w (record w1 { hub = hub })

module _ (env : Env) (w : World) where
  Session-Rebuilt : {w' : World} → w.ctx.on_write ≡ true → Session env w w' → Rebuilt env w w'
  Session-Rebuilt on start = same-Rebuilt env w
  Session-Rebuilt on (serves {w1 = w1} req w2 v before e) =
      let b = Session-Rebuilt on before in
      Rebuilt-trans env w w1 w2 b
        (handle_request-Rebuilt env w1 req (b.kept_on_write ∙ on) (w2, v) e)
  Session-Rebuilt on (switches {w1 = w1} ctx before logging) =
      let b = Session-Rebuilt on before in
      Rebuilt-trans env w w1 (record w1 { ctx = ctx }) b
        (idle-Rebuilt env w1 (record w1 { ctx = ctx }) refl refl refl refl
          (logging ∙ sym (b.kept_on_write ∙ on)))
  Session-Rebuilt on (forwards {w1 = w1} hub before) =
      let b = Session-Rebuilt on before in
      Rebuilt-trans env w w1 (record w1 { hub = hub }) b
        (idle-Rebuilt env w1 (record w1 { hub = hub }) refl refl refl refl refl)

  -- While the clock stands still, a restart recovers the keyspace: from a process with an empty log,
  -- whatever requests its connections have served, in any order of whole requests and with MULTI and
  -- EXEC among them, replaying the log that Append made of the lines of OnWrite, over the store that
  -- the process started with, ends and gives the store of the process, if the lines fit the wire.
  pub Session-recovered :
      (lim : Limits) (w' : World) (hub : Hub) (ctx : Context)
      → w.ctx.on_write ≡ true
      → w.log ≡ []
      → Session env w w'
      → All (λ line. Fits lim (array_of line)) w'.log
      → ctx.in_tx ≡ false
      → (u : World) × (replay lim
            (replay_command (new_registry env))
            (append_all [] w'.log)
            (twin w hub ctx [])
          ≡ done u)
        × (u.store ≡ w'.store)
  Session-recovered lim w' hub ctx on fresh session fits outside =
      let b = Session-Rebuilt on session in
      let lines : w'.log ≡ b.lines = b.written ∙ ap (λ l. l ++ b.lines) fresh in
      let (u, replayed, like, _) =
        b.rebuilds (twin w hub ctx [])
          (record { like_store = refl; like_now = refl; like_later = refl }) outside in
      (
        u,
        replay-append_all lim (replay_command (new_registry env)) w'.log (twin w hub ctx []) u fits
            (subst (λ l. Ran (replay_command (new_registry env)) (twin w hub ctx []) l u)
              (sym lines) replayed),
        like.like_store,
      )
