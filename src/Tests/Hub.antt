-- ===== src/Tests/Hub.antt =====
-- Subscriptions, at a hub with two subscribers.
use goredis_main.Prelude.{
  length, bytes_eq, ℕ, zero, suc, ◌≡◌, refl, true, false, [], ◌∷◌, Bytes, codes, arith,
}
use goredis_main.GoMap.{lookup, has}
use goredis_main.Pubsub.{
  inbox_of, publish, Hub, holds, subscribers_of, channels_of, subscribe, unsubscribe,
}
use goredis_main.Pubsub.Delivery.{Apart, Allocated, received, with_room, publish_lem}
use goredis_main.Pubsub.Agree.{Agree, subscriptions-Agree}

-- Two subscribers, with no subscription.
abbrev hub : Hub
hub = record {
  subs = [];
  next_id = 2;
  heap =
      record { id = 1; inbox = []; channels = [] }
      ∷ record { id = 2; inbox = []; channels = [] }
      ∷ [];
}

no_channels : (p : ℕ) (c : Bytes) → holds p (subscribers_of hub c) ≡ has c (channels_of hub p)
unfolding holds subscribers_of channels_of lookup
no_channels zero c = refl
no_channels (suc zero) c = refl
no_channels (suc (suc p)) c = refl

subscriptions-Agree_example :
    (Agree (subscribe hub 1 (codes "news")).0
      × (holds 1 (subscribers_of (subscribe hub 1 (codes "news")).0 (codes "news")) ≡ true))
    × (Agree (unsubscribe hub 1 (codes "news")).0
        × (holds 1 (subscribers_of (unsubscribe hub 1 (codes "news")).0 (codes "news")) ≡ false))
subscriptions-Agree_example = subscriptions-Agree hub 1 (codes "news") (omega arith) no_channels

-- Both subscribers listen to one channel.
abbrev busy : Hub
busy = record {
  subs = (codes "news", 0 ∷ 1 ∷ []) ∷ [];
  next_id = 2;
  heap =
      record { id = 1; inbox = []; channels = (codes "news", tt) ∷ [] }
      ∷ record { id = 2; inbox = []; channels = (codes "news", tt) ∷ [] }
      ∷ [];
}

busy-subscribers : subscribers_of busy (codes "news") ≡ 0 ∷ 1 ∷ []
unfolding subscribers_of lookup bytes_eq
busy-subscribers = refl

busy-Apart : Apart (subscribers_of busy (codes "news"))
unfolding holds
busy-Apart = rw busy-subscribers (refl, (refl, tt))

busy-Allocated : Allocated (length busy.heap) (subscribers_of busy (codes "news"))
busy-Allocated = rw busy-subscribers (omega arith, (omega arith, tt))

publish_lem_example :
    ((p : ℕ)
      → inbox_of (publish busy (codes "news") (codes "hi")).0 p
        ≡ received
            (holds p (subscribers_of busy (codes "news")))
            (inbox_of busy p)
            (record { channel = codes "news"; content = codes "hi" }))
    × ((publish busy (codes "news") (codes "hi")).1
        ≡ with_room busy (subscribers_of busy (codes "news")))
publish_lem_example = publish_lem busy (codes "news") (codes "hi") busy-Apart busy-Allocated
