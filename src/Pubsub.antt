-- ===== src/Pubsub.antt =====
-- internal/pubsub/hub.go. Subscribers are pointers into a heap; a call holds the hub's lock and then
-- the subscriber's, and is one step here.
pub mod Agree
pub mod Delivery
use goredis_main.Prelude.{
  ℕ, zero, suc, Bool, true, false, List, [], ◌∷◌, ◌++◌, Option, none, some, Bytes, length,
  get_elem?, ltb, ◌==◌, if◌then◌else◌,
}
use goredis_main.GoMap.{Map, lookup, insert, delete, size, keys_of}

pub record Message : Type 0 where
  pub channel : Bytes
  pub content : Bytes

abbrev pub inbox_size : ℕ
inbox_size = 256

-- `inbox` is the buffered channel `messages`, oldest message first.
pub record Subscriber : Type 0 where
  pub id : ℕ
  pub inbox : List Message
  pub channels : Map (Unit {0})

-- `heap` holds every subscriber allocated so far; a *Subscriber is an index into it. A set of
-- subscribers is the list of its pointers.
pub record Hub : Type 0 where
  pub subs : Map (List ℕ)
  pub next_id : ℕ
  pub heap : List Subscriber

abbrev pub new_hub : Hub
new_hub = record { subs = []; next_id = 0; heap = [] }

-- set[p] = struct{}{}, delete(set, p) and the membership test
unfoldable pub holds : ℕ → List ℕ → Bool
holds p [] = false
holds p (q ∷ qs) = if q == p then true else holds p qs

unfoldable pub add_pointer : ℕ → List ℕ → List ℕ
add_pointer p qs = if holds p qs then qs else qs ++ p ∷ []

unfoldable pub remove_pointer : ℕ → List ℕ → List ℕ
remove_pointer p [] = []
remove_pointer p (q ∷ qs) = let rest = remove_pointer p qs in if q == p then rest else q ∷ rest

-- A write through the pointer p.
unfoldable pub modify : ℕ → (Subscriber → Subscriber) → List Subscriber → List Subscriber
modify p f [] = []
modify zero f (x ∷ xs) = f x ∷ xs
modify (suc p) f (x ∷ xs) = x ∷ modify p f xs

-- h.subs[channel], the nil set where there is none
abbrev pub set_or_nil : Option (List ℕ) → List ℕ
set_or_nil none = []
set_or_nil (some qs) = qs

unfoldable pub subscribers_of : Hub → Bytes → List ℕ
subscribers_of h channel = set_or_nil (lookup channel h.subs)

abbrev pub channels_or_nil : Option Subscriber → Map (Unit {0})
channels_or_nil none = []
channels_or_nil (some x) = x.channels

-- sub.channels
unfoldable pub channels_of : Hub → ℕ → Map (Unit {0})
channels_of h p = channels_or_nil (get_elem? h.heap p)

unfoldable pub channel_count : Hub → ℕ → ℕ
channel_count h p = size (channels_of h p)

unfoldable pub channels : Hub → ℕ → List Bytes
channels h p = keys_of (channels_of h p)

-- NewSubscriber: the new state and the pointer.
unfoldable pub new_subscriber : Hub → Hub × ℕ
new_subscriber h = (
  record h {
    next_id = suc h.next_id;
    heap = h.heap ++ record { id = suc h.next_id; inbox = []; channels = [] } ∷ [];
  },
  length h.heap,
)

-- The critical sections of Subscribe: the hub's, then the subscriber's.
unfoldable pub register : ℕ → Bytes → Hub → Hub
register p channel h = record h {
  subs = insert channel (add_pointer p (subscribers_of h channel)) h.subs;
}

unfoldable pub join : ℕ → Bytes → Hub → Hub
join p channel h = record h {
  heap = modify p (λ x. record x { channels = insert channel tt x.channels }) h.heap;
}

unfoldable pub subscribe : Hub → ℕ → Bytes → Hub × ℕ
unfolding register join
subscribe h p channel = let h' = join p channel (register p channel h) in (h', channel_count h' p)

-- h.subs with the set that is left; an empty set is deleted.
abbrev pub put_set : Bytes → List ℕ → Map (List ℕ) → Map (List ℕ)
put_set channel [] m = delete channel m
put_set channel (q ∷ qs) m = insert channel (q ∷ qs) m

abbrev pub without_pointer : ℕ → Bytes → Option (List ℕ) → Map (List ℕ) → Map (List ℕ)
without_pointer p channel none m = m
without_pointer p channel (some qs) m = put_set channel (remove_pointer p qs) m

-- The critical sections of Unsubscribe.
unfoldable pub unregister : ℕ → Bytes → Hub → Hub
unregister p channel h = record h {
  subs = without_pointer p channel (lookup channel h.subs) h.subs;
}

unfoldable pub leave : ℕ → Bytes → Hub → Hub
leave p channel h = record h {
  heap = modify p (λ x. record x { channels = delete channel x.channels }) h.heap;
}

unfoldable pub unsubscribe : Hub → ℕ → Bytes → Hub × ℕ
unfolding unregister leave
unsubscribe h p channel =
    let h' = leave p channel (unregister p channel h) in (h', channel_count h' p)

unfoldable pub unsubscribe_each : List Bytes → ℕ → Hub → Hub
unsubscribe_each [] p h = h
unsubscribe_each (c ∷ cs) p h = unsubscribe_each cs p (unsubscribe h p c).0

unfoldable pub unsubscribe_all : Hub → ℕ → Hub
unfolding unsubscribe_each
unsubscribe_all h p = unsubscribe_each (channels h p) p h

abbrev pub inbox_or_nil : Option Subscriber → List Message
inbox_or_nil none = []
inbox_or_nil (some x) = x.inbox

unfoldable pub inbox_of : Hub → ℕ → List Message
inbox_of h p = inbox_or_nil (get_elem? h.heap p)

-- The select of Publish at one subscriber: is there room in its inbox?
unfoldable pub has_room : Hub → ℕ → Bool
has_room h p = ltb (length (inbox_of h p)) inbox_size

unfoldable pub send : Message → ℕ → Hub → Hub
send msg p h = record h { heap = modify p (λ x. record x { inbox = x.inbox ++ msg ∷ [] }) h.heap }

-- Publish's loop, with the number delivered so far.
unfoldable pub deliver : Message → List ℕ → Hub → ℕ → Hub × ℕ
deliver msg [] h n = (h, n)
deliver msg (p ∷ ps) h n =
    deliver msg ps (if has_room h p then send msg p h else h) (if has_room h p then suc n else n)

unfoldable pub publish : Hub → Bytes → Bytes → Hub × ℕ
unfolding deliver
publish h channel content =
    deliver (record { channel = channel; content = content }) (subscribers_of h channel) h 0
