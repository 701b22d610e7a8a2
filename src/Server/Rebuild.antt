-- ===== src/Server/Rebuild.antt =====
-- internal/server: the replay of the lines that Dispatch hands to OnWrite.
pub mod Commands
pub mod Transactions
use goredis_main.Prelude.{
  ℕ, zero, suc, ◌≡◌, refl, sym, ap, subst, ◌∙◌, ◌⊎◌, inl, inr, Bool, true, false, not, ◌&&◌, List,
  [], ◌∷◌, ◌++◌, Option, none, some, Bytes, Bool-cases, Option-cases, if_intro, length,
  if◌then◌else◌,
}
use goredis_main.GoMap.{lookup}
use goredis_main.Resp.Value.{Value, bulk, array_of, is_error}
use goredis_main.Pubsub.{Hub}
use goredis_main.Command.{Env, World, Context, QueuedCommand, Outcome, Dispatcher, ◌>>=◌}
use goredis_main.Command.Acts.{twin, Frame, Acts, acts, panics, ActsOn}
use goredis_main.Command.Names.{to_upper}
use goredis_main.Command.Transaction.{reset, run_queue, multi, exec, discard}
use goredis_main.Command.Registry.{Spec, check_arity, new_registry, log_write, logged, dispatch}
use goredis_main.Command.Registry.Cases.{
  Dispatched, queued, refused, ran, dispatch-cases, dispatch_outside,
}
use goredis_main.Command.Registry.Plain.{to_upper_idem}
use goredis_main.Command.Registry.Effects.{Behaves, acting, transacting, registry-Behaves}
use goredis_main.Aof.Recovery.{Ran, finished, next}
use goredis_main.Server.{nesting, drop_reply, replay_command}

-- Worlds with the same store at the same time.
pub record Like (w u : World) : Type 0 where
  pub like_store : u.store ≡ w.store
  pub like_now : u.now ≡ w.now
  pub like_later : u.later ≡ w.later

Like-twin : {w u : World} → Like w u → u ≡ twin w u.hub u.ctx u.log
Like-twin {w} {u} l i = record {
  store = l.like_store i;
  hub = u.hub;
  ctx = u.ctx;
  log = u.log;
  now = l.like_now i;
  later = l.like_later i;
}

module _ (env : Env) where
  abbrev Replays : World → List (List Value) → World → Type 0
  Replays u lines u' = Ran (replay_command (new_registry env)) u lines u'

  -- What a step of a connection adds to the log, replayed in a world outside MULTI, takes the store to
  -- where the step took it.
  pub record Rebuilt (w w' : World) : Type 0 where
    pub lines : List (List Value)
    pub written : w'.log ≡ w.log ++ lines
    pub kept_now : w'.now ≡ w.now
    pub kept_later : w'.later ≡ w.later
    pub kept_on_write : w'.ctx.on_write ≡ w.ctx.on_write
    pub rebuilds :
        (u : World)
        → Like w u
        → u.ctx.in_tx ≡ false
        → (u' : World) × Replays u lines u' × Like w' u' × (u'.ctx.in_tx ≡ false)

append_nil : (xs : List (List Value)) → xs ++ [] ≡ xs
append_nil [] = refl
append_nil (x ∷ xs) = ap (◌∷◌ x) (append_nil xs)

append_assoc : (xs ys zs : List (List Value)) → (xs ++ ys) ++ zs ≡ xs ++ (ys ++ zs)
append_assoc [] ys zs = refl
append_assoc (x ∷ xs) ys zs = ap (◌∷◌ x) (append_assoc xs ys zs)

Ran-append {ℓ} :
    {S : Type ℓ} {fn : S → List Value → Option S} {s s' s'' : S} {xs ys : List (List Value)}
    → Ran fn s xs s'
    → Ran fn s' ys s''
    → Ran fn s (xs ++ ys) s''
Ran-append (finished s) r = r
Ran-append (next s s1 s2 line lines e more) r = next s s1 _ line _ e (Ran-append more r)

module _ (env : Env) where
  -- A step that leaves the store and the log as they were.
  pub idle-Rebuilt :
      (w w' : World)
      → w'.store ≡ w.store
      → w'.log ≡ w.log
      → w'.now ≡ w.now
      → w'.later ≡ w.later
      → w'.ctx.on_write ≡ w.ctx.on_write
      → Rebuilt env w w'
  idle-Rebuilt w w' e l n t o = record {
    lines = [];
    written = l ∙ sym (append_nil w.log);
    kept_now = n;
    kept_later = t;
    kept_on_write = o;
    rebuilds = λ u like outside. (
      u,
      finished u,
      record {
        like_store = like.like_store ∙ sym e;
        like_now = like.like_now ∙ sym n;
        like_later = like.like_later ∙ sym t;
      },
      outside,
    );
  }

  pub Rebuilt-trans : (w w' w'' : World) → Rebuilt env w w' → Rebuilt env w' w'' → Rebuilt env w w''
  Rebuilt-trans w w' w'' a b = record {
    lines = a.lines ++ b.lines;
    written = b.written ∙ ap (λ l. l ++ b.lines) a.written ∙ append_assoc w.log a.lines b.lines;
    kept_now = b.kept_now ∙ a.kept_now;
    kept_later = b.kept_later ∙ a.kept_later;
    kept_on_write = b.kept_on_write ∙ a.kept_on_write;
    rebuilds = λ u like outside.
        let (u', ran1, like', outside') = a.rebuilds u like outside in
        let (u'', ran2, like'', outside'') = b.rebuilds u' like' outside' in
        (u'', Ran-append ran1 ran2, like'', outside'');
  }
