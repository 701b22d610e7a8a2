-- ===== src/Server/Lifecycle/Drain.antt =====
-- internal/server/server.go: the end of shutdown.
use goredis_main.Prelude.{
  ℕ, ◌≡◌, refl, ap, ◌∙◌, Bool, true, false, List, [], ◌∷◌, length, arith, All,
}
use goredis_main.Pubsub.{holds}
use goredis_main.Server.Lifecycle.{
  MainStage, selecting, closing_listener, waiting, draining, finishing, serve_failed, stopped,
  Process, listens, untrack_conn, group_done, begin_shutdown, close_listener, force_close,
  close_store, Step, read_fails, leaves, cancelled, listener_closed, grace_elapsed, all_forced,
  stops, Steps, here, then_step, by_server, ServerSteps, still, and_then,
}
use goredis_main.Server.Lifecycle.Invariant.{
  after_cancel, after_listener, IsValid, Steps-IsValid, reachable-IsValid,
}

ServerSteps-trans : {p q r : Process} → ServerSteps p q → ServerSteps q r → ServerSteps p r
ServerSteps-trans a still = a
ServerSteps-trans a (and_then b s own) = and_then (ServerSteps-trans a b) s own

ServerSteps-Steps : {p q : Process} → ServerSteps p q → Steps p q
ServerSteps-Steps still = here
ServerSteps-Steps (and_then a s own) = then_step (ServerSteps-Steps a) s

one : {p q : Process} (s : Step p q) → by_server s ≡ true → ServerSteps p q
one s own = and_then still s own

ServerSteps-IsValid : {p q : Process} → IsValid p → ServerSteps p q → IsValid q
ServerSteps-IsValid v steps = Steps-IsValid v (ServerSteps-Steps steps)

-- A later moment of the process, with no connection inside handleConn and Run where it was.
record Served (p : Process) : Type 0 where
  after : Process
  steps : ServerSteps p after
  none_serving : after.serving ≡ []
  same_main : after.main ≡ p.main

-- The reads of the connections that were closed fail, one after another.
serve_all :
    (cs : List ℕ) (p : Process) → p.serving ≡ cs → All (λ c. holds c p.forced ≡ true) cs → Served p
serve_all [] p e h = record { after = p; steps = still; none_serving = e; same_main = refl }
serve_all (c ∷ cs) p e h =
    let later =
      serve_all cs (untrack_conn c cs p) (unfold untrack_conn in refl)
        (unfold untrack_conn in h.1) in
    record {
      after = later.after;
      steps = ServerSteps-trans (one (read_fails c [] cs e h.0) refl) later.steps;
      none_serving = later.none_serving;
      same_main = later.same_main ∙ unfold untrack_conn in refl;
    }

record Left (p : Process) : Type 0 where
  after : Process
  steps : ServerSteps p after
  none_leaving : after.leaving ≡ []
  same_serving : after.serving ≡ p.serving
  same_main : after.main ≡ p.main

leave_all : (cs : List ℕ) (p : Process) → p.leaving ≡ cs → Left p
leave_all [] p e = record {
  after = p;
  steps = still;
  none_leaving = e;
  same_serving = refl;
  same_main = refl;
}
leave_all (c ∷ cs) p e =
    let later = leave_all cs (group_done cs p) (unfold group_done in refl) in
    record {
      after = later.after;
      steps = ServerSteps-trans (one (leaves c [] cs e) refl) later.steps;
      none_leaving = later.none_leaving;
      same_serving = later.same_serving ∙ unfold group_done in refl;
      same_main = later.same_main ∙ unfold group_done in refl;
    }

-- A later moment with Run where it was, when all connections are through.
record Drained (p : Process) : Type 0 where
  after : Process
  steps : ServerSteps p after
  no_group : after.group ≡ 0
  same_main : after.main ≡ p.main

drain : (p : Process) → IsValid p → All (λ c. holds c p.forced ≡ true) p.serving → Drained p
drain p v forced =
    let served = serve_all p.serving p refl forced in
    let left = leave_all served.after.leaving served.after refl in
    let steps = ServerSteps-trans served.steps left.steps in
    let valid = ServerSteps-IsValid v steps in
    let idle : left.after.serving ≡ [] = left.same_serving ∙ served.none_serving in
    let gone = left.none_leaving in
    record {
      after = left.after;
      steps = steps;
      no_group = omega (arith, valid.counted, ap length idle, ap length gone);
      same_main = left.same_main ∙ served.same_main;
    }

-- Run has not returned, and the grace period is not over.
abbrev pub in_grace : MainStage → Bool
in_grace selecting = true
in_grace closing_listener = true
in_grace waiting = true
in_grace _ = false

-- shutdown has returned, with this error or none.
record Stopped (failed : Bool) (p : Process) : Type 0 where
  after : Process
  steps : ServerSteps p after
  result : after.main ≡ stopped failed
  store_closed : after.store_open ≡ false

before : {b : Bool} {p q : Process} → ServerSteps p q → Stopped b q → Stopped b p
before a s = record {
  after = s.after;
  steps = ServerSteps-trans a s.steps;
  result = s.result;
  store_closed = s.store_closed;
}

finish : (b : Bool) (p : Process) → p.main ≡ finishing → Stopped b p
finish b p m = record {
  after = close_store b p;
  steps = one (stops b m) refl;
  result = unfold close_store in refl;
  store_closed = unfold close_store in refl;
}

-- The forced close, and the wait after it.
wait : (b : Bool) (p : Process) → IsValid p → p.main ≡ waiting → Stopped b p
wait b p v m =
    let s = one (grace_elapsed m) refl in
    let d = drain (force_close p) (ServerSteps-IsValid v s) (unfold force_close in v.held) in
    before
      (and_then (ServerSteps-trans s d.steps)
        (all_forced (d.same_main ∙ unfold force_close in refl) d.no_group) refl)
      (finish b (record d.after { main = finishing }) refl)

close_then_wait : (b : Bool) (p : Process) → IsValid p → p.main ≡ closing_listener → Stopped b p
close_then_wait b p v m =
    let s = one (listener_closed m) refl in
    before s (wait b (close_listener p) (ServerSteps-IsValid v s) (unfold close_listener in refl))

stop_from :
    (b : Bool) (p : Process) (m : MainStage)
    → IsValid p
    → p.main ≡ m
    → in_grace m ≡ true
    → Stopped b p
stop_from b p selecting v m h =
    let s = one (cancelled m) refl in
    before s (
      close_then_wait b (begin_shutdown p) (ServerSteps-IsValid v s)
        (unfold begin_shutdown in refl))
stop_from b p closing_listener v m h = close_then_wait b p v m
stop_from b p waiting v m h = wait b p v m
stop_from b p draining v m h = cc
stop_from b p finishing v m h = cc
stop_from b p (serve_failed e) v m h = cc
stop_from b p (stopped e) v m h = cc

-- At every moment from net.Listen to the end of the grace period, shutdown can be carried through without
-- a client: once the context is cancelled there are steps, none of which waits for a client to connect
-- or to hang up, after which Run has returned from shutdown, with the error of aof.Close or without one,
-- s.closing is closed, and so are the listener and the store.
pub shutdown_ends :
    (failed : Bool) (p : Process)
    → Steps listens p
    → in_grace p.main ≡ true
    → (q : Process) × ServerSteps p q
      × (q.main ≡ stopped failed)
      × (q.closing ≡ true)
      × (q.listening ≡ false)
      × (q.store_open ≡ false)
shutdown_ends failed p steps h =
    let v = reachable-IsValid steps in
    let s = stop_from failed p p.main v refl h in
    let w = ServerSteps-IsValid v s.steps in
    (
      s.after,
      s.steps,
      s.result,
      w.told (ap after_cancel s.result),
      w.deaf (ap after_listener s.result),
      s.store_closed,
    )
