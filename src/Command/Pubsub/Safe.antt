-- ===== src/Command/Pubsub/Safe.antt =====
-- The handlers of pubsub.go are safe on the arguments that their arity admits.
use goredis_main.Prelude.{ℕ, refl, List, [], ◌∷◌, Option, none, some, Bytes}
use goredis_main.Store.Invariant.{IsValid}
use goredis_main.Command.{World, arg_strings}
use goredis_main.Command.Returns.{
  SameTx, SameTx-refl, Returns, returns, SafeOn, Exactly, AtLeast, with_two,
}
use goredis_main.Pubsub
use goredis_main.Command.Pubsub.{
  subscriber_at, subscriber, subscribe, unsubscribe_from, named_or_all, unsubscribe, publish,
}

subscriber_at-same :
    (o : Option ℕ) (w : World)
    → (IsValid w.store → IsValid (subscriber_at o w).0.store) × SameTx w (subscriber_at o w).0
unfolding subscriber_at
subscriber_at-same none w =
    (λ ok. ok, record { same_in_tx = refl; same_queue = refl; same_error = refl })
subscriber_at-same (some p) w = (λ ok. ok, SameTx-refl w)

pub subscribe-Safe : SafeOn (AtLeast 1) subscribe
unfolding subscribe subscriber
subscribe-Safe d w args h ok =
    let (keeps, same) = subscriber_at-same w.ctx.sub w in
    returns _ _ (keeps ok) (record {
      same_in_tx = same.same_in_tx;
      same_queue = same.same_queue;
      same_error = same.same_error;
    })

unsubscribe_from-Safe :
    (p : ℕ) (w w' : World) (cs : List Bytes)
    → IsValid w'.store
    → SameTx w w'
    → Returns w (unsubscribe_from p w' cs)
unfolding unsubscribe_from
unsubscribe_from-Safe p w w' [] ok same = returns w' _ ok same
unsubscribe_from-Safe p w w' (c ∷ cs) ok same = returns _ _ ok (record {
  same_in_tx = same.same_in_tx;
  same_queue = same.same_queue;
  same_error = same.same_error;
})

pub unsubscribe-Safe : SafeOn (AtLeast 0) unsubscribe
unfolding unsubscribe subscriber
unsubscribe-Safe d w args h ok =
    let r = subscriber_at w.ctx.sub w in
    let (keeps, same) = subscriber_at-same w.ctx.sub w in
    unsubscribe_from-Safe r.1 w r.0 (named_or_all (arg_strings args) (Pubsub.channels r.0.hub r.1))
      (keeps ok) same

pub publish-Safe : SafeOn (Exactly 2) publish
unfolding publish
publish-Safe d w args h ok =
    with_two (λ args. Returns w (publish d w args))
      (λ a b. returns _ _ ok (record { same_in_tx = refl; same_queue = refl; same_error = refl }))
      args h
