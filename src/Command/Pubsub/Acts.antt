-- ===== src/Command/Pubsub/Acts.antt =====
-- The handlers of pubsub.go and the store.
use goredis_main.Prelude.{
  ℕ, ◌≡◌, refl, ap, Bool, true, false, List, [], ◌∷◌, Option, none, some, Bytes, codes,
}
use goredis_main.Resp.Value.{Value, bulk, null_bulk, array_of, multi_frame}
use goredis_main.Pubsub
use goredis_main.Pubsub.{Hub}
use goredis_main.Command.{World, Context, count_reply, arg, arg_strings}
use goredis_main.Command.Acts.{twin, Acts, acts, ActsOn, bind-Acts}
use goredis_main.Command.Pubsub.{
  subscriber_at, subscriber, subscribe_each, subscribe, unsubscribe_from, unsubscribe_each,
  named_or_all, unsubscribe, publish,
}

-- What the first use of the inbox leaves: the same world but for the hub and the pointer.
record Subscribed (w : World) : Type 0 where
  hub : Hub
  ctx : Context
  pointer : ℕ
  result : subscriber w ≡ (twin w hub ctx w.log, pointer)
  same_in_tx : ctx.in_tx ≡ w.ctx.in_tx
  same_on_write : ctx.on_write ≡ w.ctx.on_write

subscribed : (w : World) → Subscribed w
subscribed w = at w.ctx.sub refl
  where
    at : (o : Option ℕ) → w.ctx.sub ≡ o → Subscribed w
    at none e = record {
      hub = (Pubsub.new_subscriber w.hub).0;
      ctx = record w.ctx { sub = some (Pubsub.new_subscriber w.hub).1 };
      pointer = (Pubsub.new_subscriber w.hub).1;
      result = unfold subscriber in ap (λ o. subscriber_at o w) e;
      same_in_tx = refl;
      same_on_write = refl;
    }
    at (some p) e = record {
      hub = w.hub;
      ctx = w.ctx;
      pointer = p;
      result = unfold subscriber in ap (λ o. subscriber_at o w) e;
      same_in_tx = refl;
      same_on_write = refl;
    }

module _ (w : World) (hub : Hub) (ctx : Context) (log : List (List Value)) where
  -- Two outcomes that differ from their worlds in the hub and the connection.
  hubs-Acts :
      (writer : Bool) (h h' : Hub) (c c' : Context) (fs fs' : List Value)
      → c.in_tx ≡ w.ctx.in_tx
      → c.on_write ≡ w.ctx.on_write
      → c'.in_tx ≡ ctx.in_tx
      → c'.on_write ≡ ctx.on_write
      → Acts writer w
          (twin w hub ctx log)
          (some (twin w h c w.log, multi_frame fs))
          (some (twin w h' c' log, multi_frame fs'))
  hubs-Acts writer h h' c c' fs fs' e1 e2 e3 e4 =
      acts (twin w h c w.log) h' c' log (multi_frame fs) (multi_frame fs') refl (λ _. refl)
        (λ _. refl)
        (record {
          same_now = refl;
          same_later = refl;
          same_log = refl;
          same_in_tx = e1;
          same_on_write = e2;
        })
        (record {
          same_now = refl;
          same_later = refl;
          same_log = refl;
          same_in_tx = e3;
          same_on_write = e4;
        })

pub subscribe-Acts : ActsOn false subscribe
unfolding subscribe
subscribe-Acts d d' w hub ctx log args =
    let a = subscribed w in
    let b = subscribed (twin w hub ctx log) in
    rw (a.result, b.result)
      (hubs-Acts w hub ctx log false (subscribe_each a.pointer (arg_strings args) a.hub).0
        (subscribe_each b.pointer (arg_strings args) b.hub).0 a.ctx b.ctx
        (subscribe_each a.pointer (arg_strings args) a.hub).1
        (subscribe_each b.pointer (arg_strings args) b.hub).1 a.same_in_tx a.same_on_write
        b.same_in_tx b.same_on_write)

-- UNSUBSCRIBE from a list of channels, with a reply of frames.
record Unsubscribed (p : ℕ) (w : World) (cs : List Bytes) : Type 0 where
  hub : Hub
  frames : List Value
  result : unsubscribe_from p w cs ≡ some (record w { hub = hub }, multi_frame frames)

unsubscribed : (p : ℕ) (w : World) (cs : List Bytes) → Unsubscribed p w cs
unsubscribed p w [] = record {
  hub = w.hub;
  frames = array_of (bulk (codes "unsubscribe") ∷ null_bulk ∷ count_reply 0 ∷ []) ∷ [];
  result = unfold unsubscribe_from in refl;
}
unsubscribed p w (c ∷ cs) = record {
  hub = (unsubscribe_each p (c ∷ cs) w.hub).0;
  frames = (unsubscribe_each p (c ∷ cs) w.hub).1;
  result = unfold unsubscribe_from in refl;
}

pub unsubscribe-Acts : ActsOn false unsubscribe
unfolding unsubscribe
unsubscribe-Acts d d' w hub ctx log args =
    let a = subscribed w in
    let b = subscribed (twin w hub ctx log) in
    let x =
      unsubscribed a.pointer (twin w a.hub a.ctx w.log)
        (named_or_all (arg_strings args) (Pubsub.channels a.hub a.pointer)) in
    let y =
      unsubscribed b.pointer (twin w b.hub b.ctx log)
        (named_or_all (arg_strings args) (Pubsub.channels b.hub b.pointer)) in
    rw (a.result, b.result, x.result, y.result)
      (hubs-Acts w hub ctx log false x.hub y.hub a.ctx b.ctx x.frames y.frames a.same_in_tx
        a.same_on_write b.same_in_tx b.same_on_write)

pub publish-Acts : ActsOn true publish
unfolding publish
publish-Acts d d' w hub ctx log args = bind-Acts (arg args 0) λ channel.
    bind-Acts (arg args 1) λ content.
      acts (twin w (Pubsub.publish w.hub channel content).0 w.ctx w.log)
        (Pubsub.publish hub channel content).0 ctx log _ _ refl (λ _. refl) (λ _. refl)
        (record {
          same_now = refl;
          same_later = refl;
          same_log = refl;
          same_in_tx = refl;
          same_on_write = refl;
        })
        (record {
          same_now = refl;
          same_later = refl;
          same_log = refl;
          same_in_tx = refl;
          same_on_write = refl;
        })
