-- ===== src/Server/Lifecycle/Invariant.antt =====
-- internal/server/server.go: what holds of the process at every moment.
use goredis_main.Prelude.{
  ℕ, suc, ◌+◌, ◌≤◌, ◌≡◌, refl, ==_refl, sym, ap, ◌∙◌, Bool, true, false, List, ◌∷◌, ◌++◌, length,
  All, arith,
}
use goredis_main.Pubsub.{holds}
use goredis_main.Server.Lifecycle.Conns.{
  Apart, Pending, held_apart, All-middle, Apart-middle, held_track, held_untrack, Pending-untrack,
  length-middle, unforced, unforced_few, unforced_none, unforced-middle,
}
use goredis_main.Pubsub.Agree.{holds-add_pointer}
use goredis_main.Server.Lifecycle.{
  AcceptStage, accepting, accepted, tracked, ended, MainStage, selecting, closing_listener, waiting,
  draining, finishing, serve_failed, stopped, Process, listens, track_conn, launch, accept_error,
  untrack_conn, group_done, begin_shutdown, close_listener, force_close, close_store, Step, accepts,
  accept_fails, tracks, launches, hangs_up, read_fails, leaves, serve_error, cancelled,
  listener_closed, grace_elapsed, all_done, all_forced, stops, Steps, here, then_step,
}

-- A connection between Accept and the start of its goroutine.
abbrev pub in_flight : AcceptStage → ℕ
in_flight (accepted c) = 1
in_flight (tracked c) = 1
in_flight _ = 0

-- shutdown has called ln.Close; it is past its wait.
abbrev pub after_listener : MainStage → Bool
after_listener waiting = true
after_listener draining = true
after_listener finishing = true
after_listener (stopped e) = true
after_listener _ = false

abbrev pub after_wait : MainStage → Bool
after_wait finishing = true
after_wait (stopped e) = true
after_wait _ = false

-- shutdown has closed s.closing; it waits after its forced close.
abbrev pub after_cancel : MainStage → Bool
after_cancel selecting = false
after_cancel (serve_failed e) = false
after_cancel _ = true

abbrev pub forcing : MainStage → Bool
forcing draining = true
forcing _ = false

-- The group counts the goroutines of the connections; those inside handleConn are tracked, each once;
-- shutdown closes s.closing first and then the listener; of the connections inside handleConn or on
-- their way there, the forced close reaches all but at most one; past the wait of shutdown there is at
-- most one left.
pub record IsValid (p : Process) : Type 0 where
  pub counted : p.group ≡ length p.serving + length p.leaving
  pub held : All (λ c. holds c p.conns ≡ true) p.serving
  pub apart : Apart p.serving
  pub pending : Pending p.conns p.serving p.accept
  pub deaf : after_listener p.main ≡ true → p.listening ≡ false
  pub told : after_cancel p.main ≡ true → p.closing ≡ true
  pub reached : forcing p.main ≡ true → unforced p.forced p.serving + in_flight p.accept ≤ 1
  pub late : after_wait p.main ≡ true → length p.serving + length p.leaving + in_flight p.accept ≤ 1

listens-IsValid : IsValid listens
listens-IsValid = record {
  counted = refl;
  held = tt;
  apart = tt;
  pending = tt;
  deaf = λ e. cc;
  told = λ e. cc;
  reached = λ e. cc;
  late = λ e. cc;
}

forcing_deaf : (m : MainStage) → forcing m ≡ true → after_listener m ≡ true
forcing_deaf draining h = refl
forcing_deaf selecting h = cc
forcing_deaf closing_listener h = cc
forcing_deaf waiting h = cc
forcing_deaf finishing h = cc
forcing_deaf (serve_failed e) h = cc
forcing_deaf (stopped e) h = cc

after_wait_deaf : (m : MainStage) → after_wait m ≡ true → after_listener m ≡ true
after_wait_deaf finishing h = refl
after_wait_deaf (stopped e) h = refl
after_wait_deaf selecting h = cc
after_wait_deaf closing_listener h = cc
after_wait_deaf waiting h = cc
after_wait_deaf draining h = cc
after_wait_deaf (serve_failed e) h = cc

in_flight_few : (a : AcceptStage) → in_flight a ≤ 1
in_flight_few accepting = omega arith
in_flight_few (accepted c) = omega arith
in_flight_few (tracked c) = omega arith
in_flight_few (ended e) = omega arith

-- A step of Run, on what the connections do not see.
on_main :
    (p : Process) (closing listening store_open : Bool) (forced : List ℕ) (m : MainStage)
    → IsValid p
    → (after_listener m ≡ true → listening ≡ false)
    → (after_cancel m ≡ true → closing ≡ true)
    → (forcing m ≡ true → unforced forced p.serving + in_flight p.accept ≤ 1)
    → (after_wait m ≡ true → length p.serving + length p.leaving + in_flight p.accept ≤ 1)
    → IsValid (record p {
      closing = closing;
      listening = listening;
      store_open = store_open;
      forced = forced;
      main = m;
    })
on_main p closing listening store_open forced m v deaf told reached late = record {
  counted = v.counted;
  held = v.held;
  apart = v.apart;
  pending = v.pending;
  deaf = deaf;
  told = told;
  reached = reached;
  late = late;
}

-- The end of a wait on the group.
emptied :
    (p : Process)
    → IsValid p
    → p.group ≡ 0
    → p.listening ≡ false
    → p.closing ≡ true
    → IsValid (record p { main = finishing })
emptied p v z closed told =
    on_main p p.closing p.listening p.store_open p.forced finishing v (λ e. closed) (λ e. told)
      (λ e. cc) (λ e. omega (arith, v.counted, z, in_flight_few p.accept))

-- The steps of acceptLoop.
accepts-IsValid :
    (p : Process) (c : ℕ)
    → p.listening ≡ true
    → holds c p.conns ≡ false
    → IsValid p
    → IsValid (record p { accept = accepted c })
accepts-IsValid p c l new v = record {
  counted = v.counted;
  held = v.held;
  apart = v.apart;
  pending = new;
  deaf = v.deaf;
  told = v.told;
  reached = λ e. let closed = v.deaf (forcing_deaf p.main e) in absurd (heard (sym l ∙ closed));
  late = λ e. let closed = v.deaf (after_wait_deaf p.main e) in absurd (heard (sym l ∙ closed));
}
  where
    heard : true ≡ false → ⊥
    heard e = cc

track_conn-IsValid :
    (p : Process) (c : ℕ) → p.accept ≡ accepted c → IsValid p → IsValid (track_conn c p)
unfolding track_conn
track_conn-IsValid p c a v =
    let new = (rw a at v.pending) in
    record {
      counted = v.counted;
      held = held_track c p.conns p.serving v.held;
      apart = v.apart;
      pending = (
        ground (arith, holds-add_pointer c c p.conns, ==_refl c),
        held_apart c p.conns p.serving new v.held,
      );
      deaf = v.deaf;
      told = v.told;
      reached = λ e. let few = v.reached e in (rw a at few);
      late = λ e. let few = (rw a at v.late e) in omega (arith, few);
    }

launch-IsValid : (p : Process) (c : ℕ) → p.accept ≡ tracked c → IsValid p → IsValid (launch c p)
unfolding launch
launch-IsValid p c a v =
    let new = (rw a at v.pending) in
    record {
      counted = omega (arith, v.counted);
      held = (new.0, v.held);
      apart = (new.1, v.apart);
      pending = tt;
      deaf = v.deaf;
      told = v.told;
      reached = λ e.
          let few = v.reached e in
          let less = (rw a at few) in omega (arith, less, unforced_few p.forced c);
      late = λ e. let few = (rw a at v.late e) in omega (arith, few);
    }

-- The steps of the goroutine of a connection.
untrack_conn-IsValid :
    (p : Process) (c : ℕ) (front back : List ℕ)
    → p.serving ≡ front ++ c ∷ back
    → IsValid p
    → IsValid (untrack_conn c (front ++ back) p)
unfolding untrack_conn
untrack_conn-IsValid p c front back e v =
    let held = (rw e at v.held) in
    let apart = Apart-middle front back c (rw e at v.apart) in
    let same : length p.serving ≡ suc (length (front ++ back)) =
      ap length e ∙ length-middle front back c in
    record {
      counted = omega (arith, v.counted, same);
      held =
          held_untrack c p.conns (front ++ back) apart.1
            (All-middle (λ d. holds d p.conns ≡ true) front back c held).0;
      apart = apart.0;
      pending = Pending-untrack c p.conns front back p.accept (rw e at v.pending);
      deaf = v.deaf;
      told = v.told;
      reached = λ w.
          let few = v.reached w in
          let less = (rw e at few) in omega (arith, less, unforced-middle p.forced front back c);
      late = λ w. let few = v.late w in omega (arith, few, same);
    }

group_done-IsValid :
    (p : Process) (c : ℕ) (front back : List ℕ)
    → p.leaving ≡ front ++ c ∷ back
    → IsValid p
    → IsValid (group_done (front ++ back) p)
unfolding group_done
group_done-IsValid p c front back e v =
    let same : length p.leaving ≡ suc (length (front ++ back)) =
      ap length e ∙ length-middle front back c in
    record {
      counted = omega (arith, v.counted, same);
      held = v.held;
      apart = v.apart;
      pending = v.pending;
      deaf = v.deaf;
      told = v.told;
      reached = v.reached;
      late = λ w. let few = v.late w in omega (arith, few, same);
    }

-- Every step of the process keeps it valid.
pub Step-IsValid : {p q : Process} → Step p q → IsValid p → IsValid q
unfolding accept_error begin_shutdown close_listener force_close close_store
Step-IsValid {p} (accepts c a l new) v = accepts-IsValid p c l new v
Step-IsValid {p} (accept_fails a) v = record {
  counted = v.counted;
  held = v.held;
  apart = v.apart;
  pending = tt;
  deaf = v.deaf;
  told = v.told;
  reached = λ e. let few = v.reached e in omega (arith, few);
  late = λ e. let few = v.late e in omega (arith, few);
}
Step-IsValid {p} (tracks c a) v = track_conn-IsValid p c a v
Step-IsValid {p} (launches c a) v = launch-IsValid p c a v
Step-IsValid {p} (hangs_up c front back e) v = untrack_conn-IsValid p c front back e v
Step-IsValid {p} (read_fails c front back e f) v = untrack_conn-IsValid p c front back e v
Step-IsValid {p} (leaves c front back e) v = group_done-IsValid p c front back e v
Step-IsValid {p} (serve_error b m a) v =
    on_main p p.closing p.listening p.store_open p.forced _ v (λ e. cc) (λ e. cc) (λ e. cc)
      (λ e. cc)
Step-IsValid {p} (cancelled m) v =
    on_main p true p.listening p.store_open p.forced _ v (λ e. cc) (λ e. refl) (λ e. cc) (λ e. cc)
Step-IsValid {p} (listener_closed m) v =
    on_main p p.closing false p.store_open p.forced _ v (λ e. refl)
      (λ e. v.told (ap after_cancel m)) (λ e. cc) (λ e. cc)
Step-IsValid {p} (grace_elapsed m) v =
    on_main p p.closing p.listening p.store_open p.conns _ v (λ e. v.deaf (ap after_listener m))
      (λ e. v.told (ap after_cancel m))
      (λ e. omega (arith, unforced_none p.conns p.serving v.held, in_flight_few p.accept)) (λ e. cc)
Step-IsValid {p} (all_done m z) v =
    emptied p v z (v.deaf (ap after_listener m)) (v.told (ap after_cancel m))
Step-IsValid {p} (all_forced m z) v =
    emptied p v z (v.deaf (ap after_listener m)) (v.told (ap after_cancel m))
Step-IsValid {p} (stops b m) v =
    on_main p p.closing p.listening false p.forced _ v (λ e. v.deaf (ap after_listener m))
      (λ e. v.told (ap after_cancel m)) (λ e. cc) (λ e. v.late (ap after_wait m))

pub Steps-IsValid : {p q : Process} → IsValid p → Steps p q → IsValid q
Steps-IsValid v here = v
Steps-IsValid v (then_step before s) = Step-IsValid s (Steps-IsValid v before)

-- At every moment of a process that listened: the wait group counts the goroutines of the connections,
-- and each connection inside handleConn is tracked, each once. Once shutdown has begun, s.closing is
-- closed, and after ln.Close the listener stays closed. While shutdown waits after its forced close, all
-- connections inside handleConn or on their way from Accept to there, but at most one, were closed by it;
-- past the wait, at most one connection is left.
pub reachable-IsValid : {p : Process} → Steps listens p → IsValid p
reachable-IsValid steps = Steps-IsValid listens-IsValid steps
