-- ===== src/Server/Boot/Laws.antt =====
-- internal/server: what a restart finds, after a clean end and after a crash.
use goredis_main.Prelude.{
  ℕ, ◌≤◌, ◌≡◌, refl, ap, true, false, List, [], Option, some, All, take, length,
}
use goredis_main.Prelude.Int.{ℤ}
use goredis_main.Resp.Value.{Value, array_of}
use goredis_main.Resp.Reader.{Limits, unexpected_eof}
use goredis_main.Resp.Reader.RoundTrip.{Fits}
use goredis_main.Command.{Env, World}
use goredis_main.Command.Registry.{new_registry}
use goredis_main.Command.Registry.Plain.{WorldOk}
use goredis_main.Aof.{Replayed}
use goredis_main.Aof.Recovery.{Ran, append_all}
use goredis_main.Aof.Total.{Accepts, accepts}
use goredis_main.Aof.Torn.{EndsAt, at_end, at_tear, Torn}
use goredis_main.Aof.File.{LogFile, crash, History}
use goredis_main.Aof.File.Crash.{crash-Recovers}
use goredis_main.Server.{new_context, replay_command}
use goredis_main.Server.Total.{replay_command-Accepts}
use goredis_main.Server.Recovery.{Session, Session-recovered}
use goredis_main.Server.Boot.{
  Started, started, not_replayed, fresh_world, after_error, after_replay, new_server,
}

fresh-WorldOk : (now later : ℤ) → WorldOk (fresh_world now later)
fresh-WorldOk now later = record { valid = record { distinct = tt; sound = tt }; plain = tt }

-- New started in the state w or, given `Tear`, returned io.ErrUnexpectedEOF.
pub data BootsTo (Tear : Type 0) (w : World) : Started → Type 0 where
  boots : BootsTo Tear w (started w)
  gives_up : Tear → BootsTo Tear w (not_replayed unexpected_eof)

after_replay-BootsTo :
    {T : Type 0} {w : World} {r : Replayed World} → EndsAt T w r → BootsTo T w (after_replay r)
unfolding after_replay after_error
after_replay-BootsTo at_end = boots
after_replay-BootsTo (at_tear t) = gives_up t

module _ (env : Env) (lim : Limits) (now later : ℤ) where
  -- Dispatch returns on every line, in a well-formed state.
  returns :
      (w : World) (args : List Value)
      → WorldOk w
      → (w' : World) × (replay_command (new_registry env) w args ≡ some w') × WorldOk w'
  returns w args valid = accepted (replay_command-Accepts env lim w args valid)
    where
      accepted : {o : Option World} → Accepts WorldOk o → (w' : World) × (o ≡ some w') × WorldOk w'
      accepted (accepts w' valid') = (w', refl, valid')

  -- A crash that leaves the synced bytes of the log at least loses no line that was synced: New runs the
  -- first j of the lines that were appended through Dispatch, j no less than the number of lines at the
  -- last fsync, and starts the server in the state that they leave. Only where the crash left a part of
  -- the line after those may it return io.ErrUnexpectedEOF instead. It never panics, and returns no other
  -- error. Each line fits the wire.
  pub new_server-crash :
      {lines : List (List Value)} {n : ℕ} {f : LogFile} (k : ℕ)
      → History lines n f
      → f.synced ≤ k
      → All (λ line. Fits lim (array_of line)) lines
      → (j : ℕ) × (w : World) × (n ≤ j)
        × (j ≤ length lines)
        × Ran (replay_command (new_registry env)) (fresh_world now later) (take j lines) w
        × BootsTo
            (Torn lines k j)
            w
            (new_server (new_registry env) lim now later (some (some (crash k f))))
  unfolding new_server
  new_server-crash k h enough fits =
      let (r, few) =
        crash-Recovers WorldOk lim (replay_command (new_registry env)) returns k
          (fresh_world now later) (fresh-WorldOk now later) h enough fits in
      (r.kept, r.state, few, r.bound, r.replayed, after_replay-BootsTo r.result)

  -- While the clock stands still, a restart brings the keyspace back: whatever requests the connections
  -- of a server have served since it started without a log, in any order of whole requests and with
  -- MULTI and EXEC among them, New on the log that Append made of the lines of OnWrite starts with the
  -- store that the server had, if each line fits the wire.
  pub new_server-Session :
      (w : World)
      → Session env (record (fresh_world now later) { ctx = new_context true }) w
      → All (λ line. Fits lim (array_of line)) w.log
      → (u : World) × (new_server
            (new_registry env)
            lim
            now
            later
            (some (some (append_all [] w.log)))
          ≡ started u)
        × (u.store ≡ w.store)
  unfolding new_server
  new_server-Session w session fits =
      let (u, replayed, same) =
        Session-recovered env (record (fresh_world now later) { ctx = new_context true }) lim w
          (fresh_world now later).hub (new_context false) refl refl session fits refl in
      (u, ap after_replay replayed, same)
