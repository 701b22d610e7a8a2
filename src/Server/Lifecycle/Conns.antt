-- ===== src/Server/Lifecycle/Conns.antt =====
-- internal/server/server.go: the connections that are tracked, and those inside handleConn.
use goredis_main.Prelude.{
  ◌+◌, ◌≤◌, if◌then◌else◌, ℕ, suc, ◌≡◌, refl, ap, true, false, List, [], ◌∷◌, ◌++◌, length, All,
  arith, ◌==◌, Bool-cases, inl, inr,
}
use goredis_main.Pubsub.{holds, add_pointer, remove_pointer}
use goredis_main.Pubsub.Agree.{holds-add_pointer, holds-remove_pointer}
use goredis_main.Server.Lifecycle.{AcceptStage, accepting, accepted, tracked, ended}

abbrev pub Others : ℕ → List ℕ → Type 0
Others c cs = All (λ d. (c == d) ≡ false) cs

abbrev pub Apart : List ℕ → Type 0
Apart [] = Unit
Apart (c ∷ cs) = Others c cs × Apart cs

abbrev pub Pending : List ℕ → List ℕ → AcceptStage → Type 0
Pending conns serving (accepted c) = holds c conns ≡ false
Pending conns serving (tracked c) = (holds c conns ≡ true) × Others c serving
Pending conns serving _ = Unit

==_sym : (c d : ℕ) → (c == d) ≡ false → (d == c) ≡ false
==_sym c d h = ground arith

-- A connection that is not tracked is none of those that are.
pub held_apart :
    (c : ℕ) (conns cs : List ℕ)
    → holds c conns ≡ false
    → All (λ d. holds d conns ≡ true) cs
    → Others c cs
held_apart c conns [] h k = tt
held_apart c conns (d ∷ cs) h k = (other d k.0, held_apart c conns cs h k.1)
  where
    clash : (d : ℕ) → holds d conns ≡ true → c ≡ d → (c == d) ≡ false
    clash d k e = let h' = (rw e at h) in cc

    other : (d : ℕ) → holds d conns ≡ true → (c == d) ≡ false
    other d k = elim (Bool-cases (c == d)) [ inl e ↦ clash d k (ground (arith, e)) | inr e ↦ e ]

-- What is left of a list of different connections when one of them is taken out.
pub All-middle {κ} :
    (P : ℕ → Type κ) (front back : List ℕ) (c : ℕ)
    → All P (front ++ c ∷ back)
    → All P (front ++ back) × P c
All-middle P [] back c h = (h.1, h.0)
All-middle P (d ∷ front) back c h = let (hs, p) = All-middle P front back c h.1 in ((h.0, hs), p)

pub Apart-middle :
    (front back : List ℕ) (c : ℕ)
    → Apart (front ++ c ∷ back)
    → Apart (front ++ back) × Others c (front ++ back)
Apart-middle [] back c h = (h.1, h.0)
Apart-middle (d ∷ front) back c h =
    let (hs, k) = Apart-middle front back c h.1 in
    let (others, differs) = All-middle (λ e. (d == e) ≡ false) front back c h.0 in
    ((others, hs), (==_sym d c differs, k))

pub held_track :
    (c : ℕ) (conns cs : List ℕ)
    → All (λ d. holds d conns ≡ true) cs
    → All (λ d. holds d (add_pointer c conns) ≡ true) cs
held_track c conns [] h = tt
held_track c conns (d ∷ cs) h =
    (ground (arith, holds-add_pointer d c conns, h.0), held_track c conns cs h.1)

pub held_untrack :
    (c : ℕ) (conns cs : List ℕ)
    → Others c cs
    → All (λ d. holds d conns ≡ true) cs
    → All (λ d. holds d (remove_pointer c conns) ≡ true) cs
held_untrack c conns [] o h = tt
held_untrack c conns (d ∷ cs) o h =
    (ground (arith, holds-remove_pointer d c conns, h.0, o.0), held_untrack c conns cs o.1 h.1)

pub Pending-untrack :
    (c : ℕ) (conns front back : List ℕ) (a : AcceptStage)
    → Pending conns (front ++ c ∷ back) a
    → Pending (remove_pointer c conns) (front ++ back) a
Pending-untrack c conns front back accepting h = tt
Pending-untrack c conns front back (ended e) h = tt
Pending-untrack c conns front back (accepted d) h =
    ground (arith, holds-remove_pointer d c conns, h)
Pending-untrack c conns front back (tracked d) h =
    let (others, differs) = All-middle (λ e. (d == e) ≡ false) front back c h.1 in
    (ground (arith, holds-remove_pointer d c conns, h.0, ==_sym d c differs), others)

pub length-middle :
    (front back : List ℕ) (c : ℕ) → length (front ++ c ∷ back) ≡ suc (length (front ++ back))
length-middle [] back c = refl
length-middle (d ∷ front) back c = ap suc (length-middle front back c)

-- How many of the connections shutdown has not closed.
abbrev pub unforced : List ℕ → List ℕ → ℕ
unforced forced [] = 0
unforced forced (c ∷ cs) = (if holds c forced then 0 else 1) + unforced forced cs

pub unforced_few : (forced : List ℕ) (c : ℕ) → (if holds c forced then 0 else 1) ≤ 1
unforced_few forced c = ground arith

pub unforced_none :
    (forced cs : List ℕ) → All (λ c. holds c forced ≡ true) cs → unforced forced cs ≡ 0
unforced_none forced [] h = refl
unforced_none forced (c ∷ cs) h = rw (h.0, unforced_none forced cs h.1) refl

pub unforced-middle :
    (forced front back : List ℕ) (c : ℕ)
    → unforced forced (front ++ back) ≤ unforced forced (front ++ c ∷ back)
unforced-middle forced [] back c = ground arith
unforced-middle forced (d ∷ front) back c = omega (arith, unforced-middle forced front back c)
