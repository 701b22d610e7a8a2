-- ===== src/Server/Rebuild/Commands.antt =====
-- internal/server: the replay of a command's own line in the log.
use goredis_main.Prelude.{
  ℕ, ◌≡◌, refl, ap, ◌∙◌, ◌⊎◌, inl, inr, Bool, true, false, not, ◌&&◌, List, [], ◌∷◌, ◌++◌, some,
  Bytes, if_intro, length,
}
use goredis_main.GoMap.{lookup}
use goredis_main.Resp.Value.{Value, bulk, is_error}
use goredis_main.Command.{Env, World}
use goredis_main.Command.Acts.{Extracted, extract, twin, ActsOn}
use goredis_main.Command.Names.{to_upper}
use goredis_main.Command.Registry.{Spec, check_arity, new_registry, log_write, logged, dispatch}
use goredis_main.Command.Registry.Cases.{dispatch_outside}
use goredis_main.Aof.Recovery.{finished, next}
use goredis_main.Server.{drop_reply, replay_command}
use goredis_main.Server.Rebuild.{Like, Like-twin, Replays, Rebuilt, idle-Rebuilt}

-- Logging changes nothing that a replay looks at.
record SameButLog (w w' : World) : Type 0 where
  like : Like w w'
  outside : w'.ctx.in_tx ≡ w.ctx.in_tx

log_write-SameButLog :
    (b : Bool) (name : Bytes) (args : List Value) (w : World) (v : Value)
    → SameButLog w (log_write b name args (w, v)).0
unfolding log_write
log_write-SameButLog b name args w v =
    if_intro (λ (r : World × Value). SameButLog w r.0) (b && not (is_error v) && w.ctx.on_write) _ _
      (λ _. record {
        like = record { like_store = refl; like_now = refl; like_later = refl };
        outside = refl;
      })
      (λ _. record {
        like = record { like_store = refl; like_now = refl; like_later = refl };
        outside = refl;
      })

replay_line :
    (env : Env) (u u' : World) (upper : Bytes) (args : List Value) (v : Value) (spec : Spec)
    → u.ctx.in_tx ≡ false
    → to_upper upper ≡ upper
    → lookup upper (new_registry env) ≡ some spec
    → check_arity spec.arity (length args) ≡ true
    → spec.handler (dispatch (new_registry env) 1) u args ≡ some (u', v)
    → replay_command (new_registry env) u (bulk upper ∷ args)
      ≡ some (log_write spec.write upper args (u', v)).0
unfolding replay_command
replay_line env u u' upper args v spec outside same found fits e = ap drop_reply (
    dispatch_outside env 1 u args upper spec outside same found fits
    ∙ ap (logged spec.write upper args) e)

Like-trans : {u v w : World} → Like u v → Like v w → Like u w
Like-trans a b = record {
  like_store = b.like_store ∙ a.like_store;
  like_now = b.like_now ∙ a.like_now;
  like_later = b.like_later ∙ a.like_later;
}

unlogged : (a b c : Bool) → (a && not b && c) ≡ false → c ≡ true → (a ≡ false) ⊎ (b ≡ true)
unlogged true true c h e = inr refl
unlogged true false c h e = cc
unlogged false b c h e = inl refl

module _ (env : Env) (f : ℕ) (w : World) (upper : Bytes) (args : List Value) (spec : Spec) where
  pub acting-Rebuilt :
      ActsOn spec.write spec.handler
      → w.ctx.on_write ≡ true
      → to_upper upper ≡ upper
      → lookup upper (new_registry env) ≡ some spec
      → check_arity spec.arity (length args) ≡ true
      → (w' : World) (v : Value)
      → spec.handler (dispatch (new_registry env) f) w args ≡ some (w', v)
      → Rebuilt env w (log_write spec.write upper args (w', v)).0
  unfolding log_write
  acting-Rebuilt behaves on same found fits w' v e =
      if_intro (λ (r : World × Value). Rebuilt env w r.0)
        (spec.write && not (is_error v) && w'.ctx.on_write) _ _
        (λ _. record {
          lines = (bulk upper ∷ args) ∷ [];
          written = ap (λ l. l ++ (bulk upper ∷ args) ∷ []) own.frame.same_log;
          kept_now = own.frame.same_now;
          kept_later = own.frame.same_later;
          kept_on_write = own.frame.same_on_write;
          rebuilds = λ u like outside.
              let (u', replayed, like', outside') = again u like outside in
              (
                u',
                replayed,
                record {
                  like_store = like'.like_store;
                  like_now = like'.like_now;
                  like_later = like'.like_later;
                },
                outside',
              );
        })
        (λ quiet.
          idle-Rebuilt env w w' (untouched quiet) own.frame.same_log own.frame.same_now
            own.frame.same_later own.frame.same_on_write)
    where
      own :
          Extracted spec.write w
            (twin w w.hub w.ctx w.log)
            (spec.handler (dispatch (new_registry env) f) (twin w w.hub w.ctx w.log) args)
            (w', v)
      own =
          extract (w', v)
            (behaves (dispatch (new_registry env) f) (dispatch (new_registry env) f) w w.hub w.ctx
              w.log args)
            e

      untouched : (spec.write && not (is_error v) && w'.ctx.on_write) ≡ false → w'.store ≡ w.store
      untouched quiet = elim (unlogged _ _ _ quiet (own.frame.same_on_write ∙ on)) [
        | inl reader ↦ own.on_read reader
        | inr failed ↦ own.on_error failed
      ]

      again :
          (u : World)
          → Like w u
          → u.ctx.in_tx ≡ false
          → (u' : World) × Replays env u ((bulk upper ∷ args) ∷ []) u'
            × Like w' u'
            × (u'.ctx.in_tx ≡ false)
      again u like outside =
          let x =
            extract (w', v)
              (behaves (dispatch (new_registry env) f) (dispatch (new_registry env) 1) w u.hub u.ctx
                u.log args)
              e in
          let run =
            ap (λ z. spec.handler (dispatch (new_registry env) 1) z args) (Like-twin like)
            ∙ x.result in
          let u1 = twin w' x.hub x.ctx x.log in
          let logs = log_write-SameButLog spec.write upper args u1 x.reply in
          let u2 = (log_write spec.write upper args (u1, x.reply)).0 in
          (
            u2,
            next u u2 u2 _ []
                (replay_line env u u1 upper args x.reply spec outside same found fits run)
                (finished u2),
            record {
              like_store = logs.like.like_store;
              like_now = logs.like.like_now;
              like_later = logs.like.like_later;
            },
            logs.outside ∙ x.frame_twin.same_in_tx ∙ outside,
          )
