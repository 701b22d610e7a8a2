-- ===== src/Server/Lifecycle.antt =====
-- internal/server/server.go: the goroutines of Run, acceptLoop and shutdown, and those that acceptLoop
-- starts, as steps of one process. A net.Conn is a pointer. The work of a connection is one step here,
-- from the start of handleConn to its end.
pub mod Conns
pub mod Invariant
pub mod Drain
use goredis_main.Prelude.{
  ℕ, zero, suc, ◌-◌, ◌≡◌, Bool, true, false, not, List, [], ◌∷◌, ◌++◌, if◌then◌else◌,
}
use goredis_main.Pubsub.{holds, add_pointer, remove_pointer}

-- Where acceptLoop is: in Accept; between Accept and trackConn; between trackConn and the start of the
-- goroutine; or done, with an error or without.
pub data AcceptStage : Type 0 where
  accepting : AcceptStage
  accepted tracked : ℕ → AcceptStage
  ended : Bool → AcceptStage

-- Where Run is: in its select; in shutdown, before ln.Close, in the wait for the connections, in the
-- wait after they were force-closed, and before store.Close; returned with what acceptLoop ended with; or
-- returned from shutdown. The Booleans tell whether there is an error.
pub data MainStage : Type 0 where
  selecting closing_listener waiting draining finishing : MainStage
  serve_failed stopped : Bool → MainStage

-- `conns` is s.conns and `group` is s.wg; `serving` holds the connections inside handleConn, `leaving`
-- those after untrackConn and before wg.Done; `forced` holds those that shutdown closed.
pub record Process : Type 0 where
  pub conns : List ℕ
  pub group : ℕ
  pub serving : List ℕ
  pub leaving : List ℕ
  pub forced : List ℕ
  pub closing : Bool
  pub listening : Bool
  pub store_open : Bool
  pub accept : AcceptStage
  pub main : MainStage

-- After net.Listen.
abbrev pub listens : Process
listens = record {
  conns = [];
  group = 0;
  serving = [];
  leaving = [];
  forced = [];
  closing = false;
  listening = true;
  store_open = true;
  accept = accepting;
  main = selecting;
}

-- trackConn
unfoldable pub track_conn : ℕ → Process → Process
track_conn c p = record p { conns = add_pointer c p.conns; accept = tracked c }

-- s.wg.Add(1) and the go statement
unfoldable pub launch : ℕ → Process → Process
launch c p = record p { group = suc p.group; serving = c ∷ p.serving; accept = accepting }

-- Accept failed: no error of acceptLoop if s.closing is closed.
unfoldable pub accept_error : Process → Process
accept_error p = record p { accept = ended (not p.closing) }

-- handleConn returned, and untrackConn ran; `rest` are the others inside handleConn.
unfoldable pub untrack_conn : ℕ → List ℕ → Process → Process
untrack_conn c rest p = record p {
  conns = remove_pointer c p.conns;
  serving = rest;
  leaving = c ∷ p.leaving;
}

-- s.wg.Done()
unfoldable pub group_done : List ℕ → Process → Process
group_done rest p = record p { group = p.group - 1; leaving = rest }

-- shutdown up to ln.Close
unfoldable pub begin_shutdown : Process → Process
begin_shutdown p = record p { closing = true; main = closing_listener }

unfoldable pub close_listener : Process → Process
close_listener p = record p { listening = false; main = waiting }

-- The loop over s.conns after the grace period.
unfoldable pub force_close : Process → Process
force_close p = record p { forced = p.conns; main = draining }

-- store.Close and the end of shutdown; `failed` is an error of aof.Close.
unfoldable pub close_store : Bool → Process → Process
close_store failed p = record p { store_open = false; main = stopped failed }

-- One step of one of the goroutines, or of the world outside. The goroutine of a connection comes to its
-- end when its client hangs up, or when its read fails since shutdown closed the connection.
pub data Step (p : Process) : Process → Type 0 where
  accepts :
      (c : ℕ)
      → p.accept ≡ accepting
      → p.listening ≡ true
      → holds c p.conns ≡ false
      → Step p (record p { accept = accepted c })
  accept_fails : p.accept ≡ accepting → Step p (accept_error p)
  tracks : (c : ℕ) → p.accept ≡ accepted c → Step p (track_conn c p)
  launches : (c : ℕ) → p.accept ≡ tracked c → Step p (launch c p)
  hangs_up :
      (c : ℕ) (front back : List ℕ)
      → p.serving ≡ front ++ c ∷ back
      → Step p (untrack_conn c (front ++ back) p)
  read_fails :
      (c : ℕ) (front back : List ℕ)
      → p.serving ≡ front ++ c ∷ back
      → holds c p.forced ≡ true
      → Step p (untrack_conn c (front ++ back) p)
  leaves :
      (c : ℕ) (front back : List ℕ)
      → p.leaving ≡ front ++ c ∷ back
      → Step p (group_done (front ++ back) p)
  serve_error :
      (e : Bool)
      → p.main ≡ selecting
      → p.accept ≡ ended e
      → Step p (record p { main = serve_failed e })
  cancelled : p.main ≡ selecting → Step p (begin_shutdown p)
  listener_closed : p.main ≡ closing_listener → Step p (close_listener p)
  grace_elapsed : p.main ≡ waiting → Step p (force_close p)
  all_done : p.main ≡ waiting → p.group ≡ 0 → Step p (record p { main = finishing })
  all_forced : p.main ≡ draining → p.group ≡ 0 → Step p (record p { main = finishing })
  stops : (failed : Bool) → p.main ≡ finishing → Step p (close_store failed p)

pub data Steps (p : Process) : Process → Type 0 where
  here : Steps p p
  then_step : {q r : Process} → Steps p q → Step q r → Steps p r

-- A step that waits for no client.
abbrev pub by_server : {p q : Process} → Step p q → Bool
by_server (accepts c a l new) = false
by_server (hangs_up c front back e) = false
by_server _ = true

pub data ServerSteps (p : Process) : Process → Type 0 where
  still : ServerSteps p p
  and_then :
      {q r : Process} → ServerSteps p q → (s : Step q r) → by_server s ≡ true → ServerSteps p r
