-- ===== src/Pubsub/Delivery.antt =====
-- internal/pubsub/hub.go: whom Publish reaches.
use goredis_main.Prelude.{
  ℕ, zero, suc, ◌+◌, ◌<◌, ◌≡◌, refl, sym, ap, ◌∙◌, Bool, true, false, ◌&&◌, List, [], ◌∷◌, ◌++◌,
  Bytes, arith, All, length, get_elem?, ltb, ◌==◌, if◌then◌else◌, Bool-cases, inl, inr, ==_refl,
}
use goredis_main.Pubsub.{
  Subscriber, Message, Hub, inbox_size, holds, modify, subscribers_of, inbox_or_nil, inbox_of,
  has_room, send, deliver, publish,
}

-- Each pointer once, and allocated.
abbrev pub Apart : List ℕ → Type 0
Apart [] = Unit
Apart (p ∷ ps) = (holds p ps ≡ false) × Apart ps

abbrev pub Allocated : ℕ → List ℕ → Type 0
Allocated n ps = All (λ p. p < n) ps

inbox-modify :
    (p q : ℕ) (msg : Message) (xs : List Subscriber)
    → q < length xs
    → inbox_or_nil (get_elem? (modify q (λ x. record x { inbox = x.inbox ++ msg ∷ [] }) xs) p) ≡ (
        if q == p then inbox_or_nil (get_elem? xs p) ++ msg ∷ [] else inbox_or_nil (get_elem? xs p))
unfolding modify
inbox-modify p q msg [] h = absurd (omega arith)
inbox-modify zero zero msg (x ∷ xs) h = refl
inbox-modify (suc p) zero msg (x ∷ xs) h = ground arith
inbox-modify zero (suc q) msg (x ∷ xs) h = ground arith
inbox-modify (suc p) (suc q) msg (x ∷ xs) h = ground (arith, inbox-modify p q msg xs (omega arith))

inbox-send :
    (p q : ℕ) (msg : Message) (h : Hub)
    → q < length h.heap
    → inbox_of (send msg q h) p ≡ (if q == p then inbox_of h p ++ msg ∷ [] else inbox_of h p)
unfolding send inbox_of
inbox-send p q msg h alloc = inbox-modify p q msg h.heap alloc

pub length-modify :
    (q : ℕ) (f : Subscriber → Subscriber) (xs : List Subscriber)
    → length (modify q f xs) ≡ length xs
unfolding modify
length-modify q f [] = refl
length-modify zero f (x ∷ xs) = refl
length-modify (suc q) f (x ∷ xs) = ap suc (length-modify q f xs)

-- The first subscriber of Publish's loop.
abbrev offer : Message → ℕ → Hub → Hub
offer msg q h = if has_room h q then send msg q h else h

-- An inbox after a message that reaches its subscriber or not.
abbrev pub received : Bool → List Message → Message → List Message
received reached box msg = if reached && ltb (length box) inbox_size then box ++ msg ∷ [] else box

offer_own :
    (p : ℕ) (msg : Message) (h : Hub)
    → p < length h.heap
    → inbox_of (offer msg p h) p ≡ received true (inbox_of h p) msg
unfolding has_room
offer_own p msg h alloc = elim (Bool-cases (has_room h p)) [
  | inl e ↦ rw (e, inbox-send p p msg h alloc, ==_refl p) refl
  | inr e ↦ rw (e) refl
]

offer_other :
    (p q : ℕ) (msg : Message) (h : Hub)
    → q < length h.heap
    → (q == p) ≡ false
    → inbox_of (offer msg q h) p ≡ inbox_of h p
offer_other p q msg h alloc other = elim (Bool-cases (has_room h q)) [
  | inl e ↦ rw (e, inbox-send p q msg h alloc, other) refl
  | inr e ↦ rw (e) refl
]

room-offer :
    (p q : ℕ) (msg : Message) (h : Hub)
    → q < length h.heap
    → (q == p) ≡ false
    → has_room (offer msg q h) p ≡ has_room h p
unfolding has_room
room-offer p q msg h alloc other =
    ap (λ box. ltb (length box) inbox_size) (offer_other p q msg h alloc other)

offer-length : (q : ℕ) (msg : Message) (h : Hub) → length (offer msg q h).heap ≡ length h.heap
unfolding send
offer-length q msg h = elim (Bool-cases (has_room h q)) [
  | inl e ↦ rw (e, length-modify q (λ x. record x { inbox = x.inbox ++ msg ∷ [] }) h.heap) refl
  | inr e ↦ rw (e) refl
]

deliver_inbox :
    (p : ℕ) (msg : Message) (qs : List ℕ) (h : Hub) (n : ℕ)
    → Apart qs
    → Allocated (length h.heap) qs
    → inbox_of (deliver msg qs h n).0 p ≡ received (holds p qs) (inbox_of h p) msg
unfolding deliver holds
deliver_inbox p msg [] h n apart alloc = refl
deliver_inbox p msg (q ∷ qs) h n (new, apart) (here, alloc) =
    let rest : inbox_of (deliver msg (q ∷ qs) h n).0 p
        ≡ received (holds p qs) (inbox_of (offer msg q h) p) msg =
      deliver_inbox p msg qs (offer msg q h) (if has_room h q then suc n else n) apart
        (rw (offer-length q msg h) alloc) in
    elim (Bool-cases (q == p)) [
      | inl e ↦
          let same : q ≡ p = ground (arith, e) in
          rest
          ∙ ap (λ b. received b (inbox_of (offer msg q h) p) msg)
              (ap (λ r. holds r qs) (sym same) ∙ new)
          ∙ ap (λ r. inbox_of (offer msg q h) r) (sym same)
          ∙ offer_own q msg h here
          ∙ ap (λ r. received true (inbox_of h r) msg) same
          ∙ rw e refl
      | inr e ↦
          rest
          ∙ ap (λ box. received (holds p qs) box msg) (offer_other p q msg h here e)
          ∙ rw e refl
    ]

-- How many of the subscribers have room.
abbrev pub with_room : Hub → List ℕ → ℕ
with_room h [] = 0
with_room h (p ∷ ps) = (if has_room h p then 1 else 0) + with_room h ps

with_room-offer :
    (q : ℕ) (msg : Message) (h : Hub) (qs : List ℕ)
    → q < length h.heap
    → holds q qs ≡ false
    → with_room (offer msg q h) qs ≡ with_room h qs
unfolding holds
with_room-offer q msg h [] alloc new = refl
with_room-offer q msg h (r ∷ qs) alloc new =
    let other : (q == r) ≡ false = ground (arith, new) in
    let later : holds q qs ≡ false = ground (arith, new) in
    rw (room-offer r q msg h alloc other, with_room-offer q msg h qs alloc later) refl

deliver_count :
    (msg : Message) (qs : List ℕ) (h : Hub) (n : ℕ)
    → Apart qs
    → Allocated (length h.heap) qs
    → (deliver msg qs h n).1 ≡ n + with_room h qs
unfolding deliver has_room
deliver_count msg [] h n apart alloc = ground arith
deliver_count msg (q ∷ qs) h n (new, apart) (here, alloc) =
    deliver_count msg qs (offer msg q h) (if has_room h q then suc n else n) apart
      (rw (offer-length q msg h) alloc)
    ∙ ap (λ k. (if has_room h q then suc n else n) + k) (with_room-offer q msg h qs here new)
    ∙ ground arith

-- PUBLISH to a set of allocated subscribers, each in it once: the inbox of a subscriber grows by the
-- message exactly where it is in the channel's set and its inbox is not full, every other inbox is
-- as it was, and the reply counts the subscribers of the channel whose inbox was not full.
pub publish_lem :
    (h : Hub) (channel content : Bytes)
    → Apart (subscribers_of h channel)
    → Allocated (length h.heap) (subscribers_of h channel)
    → ((p : ℕ)
        → inbox_of (publish h channel content).0 p
          ≡ received
              (holds p (subscribers_of h channel))
              (inbox_of h p)
              (record { channel = channel; content = content }))
      × ((publish h channel content).1 ≡ with_room h (subscribers_of h channel))
unfolding publish
publish_lem h channel content apart alloc =
    let msg : Message = record { channel = channel; content = content } in
    let qs : List ℕ = subscribers_of h channel in
    (
      λ p. deliver_inbox p msg qs h 0 apart alloc,
      deliver_count msg qs h 0 apart alloc ∙ ground arith,
    )
