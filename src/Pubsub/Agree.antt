-- ===== src/Pubsub/Agree.antt =====
-- internal/pubsub/hub.go: the two views of a subscription, the hub's and the subscriber's, agree.
use goredis_main.Prelude.{
  ℕ, zero, suc, ◌⊎◌, ◌&&◌, ==_refl, ◌≡◌, refl, ap, ◌∙◌, true, false, List, [], ◌∷◌, ◌++◌, Option,
  none, some, Bytes, bytes_eq, bytes_eq_iff, bytes_eq_refl, arith, length, get_elem?, ◌<◌, ◌==◌,
  if◌then◌else◌, Bool-cases, inl, inr,
}
use goredis_main.GoMap.{Map, lookup, insert, delete, has}
use goredis_main.GoMap.Laws.{lookup-insert, lookup-delete}
use goredis_main.Pubsub.{
  Subscriber, Hub, holds, add_pointer, remove_pointer, modify, subscribers_of, channels_of,
  channels_or_nil, set_or_nil, put_set, without_pointer, register, join, subscribe, unregister,
  leave, unsubscribe,
}

-- The hub lists p under a channel exactly where p lists the channel.
abbrev pub Agree : Hub → Type 0
Agree h = (p : ℕ) (c : Bytes) → holds p (subscribers_of h c) ≡ has c (channels_of h p)

pub holds-append :
    (p q : ℕ) (qs : List ℕ) → holds p (qs ++ q ∷ []) ≡ (if q == p then true else holds p qs)
unfolding holds
holds-append p q [] = refl
holds-append p q (r ∷ qs) = ground (arith, holds-append p q qs)

pub holds-add_pointer :
    (p q : ℕ) (qs : List ℕ) → holds p (add_pointer q qs) ≡ (if q == p then true else holds p qs)
unfolding add_pointer
holds-add_pointer p q qs = elim (Bool-cases (holds q qs)) [
  | inl e ↦ rw e (already (Bool-cases (q == p)) e)
  | inr e ↦ rw e (holds-append p q qs)
]
  where
    already :
        ((q == p) ≡ true) ⊎ ((q == p) ≡ false)
        → holds q qs ≡ true
        → holds p qs ≡ (if q == p then true else holds p qs)
    already (inl same) e = rw same (ap (λ x. holds x qs) {x = p} {y = q} (ground (arith, same)) ∙ e)
    already (inr other) e = rw other

pub holds-remove_pointer :
    (p q : ℕ) (qs : List ℕ) → holds p (remove_pointer q qs) ≡ (if q == p then false else holds p qs)
unfolding holds remove_pointer
holds-remove_pointer p q [] = ground arith
holds-remove_pointer p q (r ∷ qs) = ground (arith, holds-remove_pointer p q qs)

-- The channels of a subscriber after a write of those of another one, or of its own.
channels-modify :
    (p q : ℕ) (f : Subscriber → Subscriber) (g : Map (Unit {0}) → Map (Unit {0}))
    (xs : List Subscriber)
    → ((x : Subscriber) → (f x).channels ≡ g x.channels)
    → q < length xs
    → channels_or_nil (get_elem? (modify q f xs) p)
      ≡ (if q == p then g (channels_or_nil (get_elem? xs p)) else channels_or_nil (get_elem? xs p))
unfolding modify
channels-modify p q f g [] eq h = absurd (omega arith)
channels-modify zero zero f g (x ∷ xs) eq h = eq x
channels-modify (suc p) zero f g (x ∷ xs) eq h = ground arith
channels-modify zero (suc q) f g (x ∷ xs) eq h = ground arith
channels-modify (suc p) (suc q) f g (x ∷ xs) eq h =
    ground (arith, channels-modify p q f g xs eq (omega arith))

has-insert :
    (c d : Bytes) (m : Map (Unit {0}))
    → has c (insert d tt m) ≡ (if bytes_eq d c then true else has c m)
has-insert c d m = rw (lookup-insert d c tt m) (ground arith)

has-delete :
    (c d : Bytes) (m : Map (Unit {0}))
    → has c (delete d m) ≡ (if bytes_eq d c then false else has c m)
has-delete c d m = rw (lookup-delete d c m) (ground arith)

-- The hub's set of a channel after each of its two critical sections.
holds-register :
    (p q : ℕ) (c d : Bytes) (h : Hub)
    → holds p (subscribers_of (register q d h) c)
      ≡ (if (q == p) && bytes_eq d c then true else holds p (subscribers_of h c))
unfolding register subscribers_of
holds-register p q c d h =
    rw (lookup-insert d c (add_pointer q (set_or_nil (lookup d h.subs))) h.subs)
      (ground (arith, holds-add_pointer p q (set_or_nil (lookup d h.subs)), bytes_eq_iff d c))

holds-without_pointer :
    (p q : ℕ) (c d : Bytes) (o : Option (List ℕ)) (m : Map (List ℕ))
    → lookup d m ≡ o
    → holds p (set_or_nil (lookup c (without_pointer q d o m)))
      ≡ (if (q == p) && bytes_eq d c then false else holds p (set_or_nil (lookup c m)))
holds-without_pointer p q c d none m e = unfold holds in ground (arith, bytes_eq_iff d c, e)
holds-without_pointer p q c d (some qs) m e = left_in (remove_pointer q qs) refl
  where
    left_in :
        (rs : List ℕ)
        → remove_pointer q qs ≡ rs
        → holds p (set_or_nil (lookup c (put_set d rs m)))
          ≡ (if (q == p) && bytes_eq d c then false else holds p (set_or_nil (lookup c m)))
    left_in [] gone =
        rw (lookup-delete d c m)
          (unfold holds in ground (arith, bytes_eq_iff d c, e, gone, holds-remove_pointer p q qs))
    left_in (r ∷ rs) kept =
        rw (lookup-insert d c (r ∷ rs) m)
          (ground (arith, bytes_eq_iff d c, e, kept, holds-remove_pointer p q qs))

holds-unregister :
    (p q : ℕ) (c d : Bytes) (h : Hub)
    → holds p (subscribers_of (unregister q d h) c)
      ≡ (if (q == p) && bytes_eq d c then false else holds p (subscribers_of h c))
unfolding unregister subscribers_of
holds-unregister p q c d h = holds-without_pointer p q c d (lookup d h.subs) h.subs refl

channels-join :
    (p q : ℕ) (d : Bytes) (h : Hub)
    → q < length h.heap
    → channels_of (join q d h) p
      ≡ (if q == p then insert d tt (channels_of h p) else channels_of h p)
unfolding join channels_of
channels-join p q d h alloc = channels-modify p q _ (insert d tt) h.heap (λ x. refl) alloc

channels-leave :
    (p q : ℕ) (d : Bytes) (h : Hub)
    → q < length h.heap
    → channels_of (leave q d h) p ≡ (if q == p then delete d (channels_of h p) else channels_of h p)
unfolding leave channels_of
channels-leave p q d h alloc = channels-modify p q _ (delete d) h.heap (λ x. refl) alloc

-- The first critical section writes only the hub's map, the second only the subscriber.
subs-join : (q : ℕ) (c d : Bytes) (h : Hub) → subscribers_of (join q d h) c ≡ subscribers_of h c
unfolding join subscribers_of
subs-join q c d h = refl

subs-leave : (q : ℕ) (c d : Bytes) (h : Hub) → subscribers_of (leave q d h) c ≡ subscribers_of h c
unfolding leave subscribers_of
subs-leave q c d h = refl

channels-register :
    (p q : ℕ) (d : Bytes) (h : Hub) → channels_of (register q d h) p ≡ channels_of h p
unfolding register channels_of
channels-register p q d h = refl

channels-unregister :
    (p q : ℕ) (d : Bytes) (h : Hub) → channels_of (unregister q d h) p ≡ channels_of h p
unfolding unregister channels_of
channels-unregister p q d h = refl

heap-register : (q : ℕ) (d : Bytes) (h : Hub) → (register q d h).heap ≡ h.heap
unfolding register
heap-register q d h = refl

heap-unregister : (q : ℕ) (d : Bytes) (h : Hub) → (unregister q d h).heap ≡ h.heap
unfolding unregister
heap-unregister q d h = refl

-- Subscribing and unsubscribing a subscriber that was allocated keep the two views of the
-- subscriptions in agreement: the hub lists a subscriber under a channel exactly where the subscriber
-- lists the channel. Whatever else it lists, the subscriber is listed under the channel after
-- Subscribe and is not after Unsubscribe.
pub subscriptions-Agree :
    (h : Hub) (q : ℕ) (d : Bytes)
    → q < length h.heap
    → Agree h
    → (Agree (subscribe h q d).0 × (holds q (subscribers_of (subscribe h q d).0 d) ≡ true))
      × (Agree (unsubscribe h q d).0 × (holds q (subscribers_of (unsubscribe h q d).0 d) ≡ false))
unfolding subscribe unsubscribe
subscriptions-Agree h q d alloc agree = (
  (
    joined,
    rw (subs-join q d d (register q d h), holds-register q q d d h, ==_refl q, bytes_eq_refl d),
  ),
  (
    left,
    rw (
      subs-leave q d d (unregister q d h),
      holds-unregister q q d d h,
      ==_refl q,
      bytes_eq_refl d,
    ),
  ),
)
  where
    joined : Agree (join q d (register q d h))
    joined p c =
        rw
          (
            subs-join q c d (register q d h),
            holds-register p q c d h,
            channels-join p q d (register q d h) alloc_register,
            channels-register p q d h,
          )
          (ground (arith, agree p c, has-insert c d (channels_of h p)))
      where
        alloc_register : q < length (register q d h).heap
        alloc_register = rw (heap-register q d h) alloc

    left : Agree (leave q d (unregister q d h))
    left p c =
        rw
          (
            subs-leave q c d (unregister q d h),
            holds-unregister p q c d h,
            channels-leave p q d (unregister q d h) alloc_unregister,
            channels-unregister p q d h,
          )
          (ground (arith, agree p c, has-delete c d (channels_of h p)))
      where
        alloc_unregister : q < length (unregister q d h).heap
        alloc_unregister = rw (heap-unregister q d h) alloc
