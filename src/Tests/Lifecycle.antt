-- ===== src/Tests/Lifecycle.antt =====
-- A server with one connection, through to its shutdown.
use goredis_main.Prelude.{◌≡◌, refl, true, false}
use goredis_main.Pubsub.{holds}
use goredis_main.Server.Lifecycle.{
  Process, listens, track_conn, launch, begin_shutdown, close_listener, force_close, stopped,
  accepted, accepts, tracks, launches, cancelled, listener_closed, grace_elapsed, ServerSteps,
  Steps, here, then_step,
}
use goredis_main.Server.Lifecycle.Invariant.{IsValid, reachable-IsValid}
use goredis_main.Server.Lifecycle.Drain.{in_grace, shutdown_ends}

-- Connection 7 is served, and shutdown has force-closed it.
abbrev served : Process
served = launch 7 (track_conn 7 (record listens { accept = accepted 7 }))

abbrev forced : Process
forced = force_close (close_listener (begin_shutdown served))

serving-Steps : Steps listens served
unfolding track_conn holds
serving-Steps =
    then_step (then_step (then_step here (accepts 7 refl refl refl)) (tracks 7 refl))
      (launches 7 refl)

forced-Steps : Steps listens forced
unfolding track_conn launch begin_shutdown close_listener
forced-Steps =
    then_step (then_step (then_step serving-Steps (cancelled refl)) (listener_closed refl))
      (grace_elapsed refl)

reachable-IsValid_example : IsValid forced
reachable-IsValid_example = reachable-IsValid forced-Steps

-- While connection 7 is served, its client does not hang up.
shutdown_ends_example :
    (q : Process) × ServerSteps served q
    × (q.main ≡ stopped true)
    × (q.closing ≡ true)
    × (q.listening ≡ false)
    × (q.store_open ≡ false)
shutdown_ends_example = shutdown_ends true served serving-Steps running
  where
    running : in_grace served.main ≡ true
    running = unfold launch track_conn in refl
