-- ===== src/Server/Boot.antt =====
-- internal/server/server.go: New, from the bytes of the log to the server's first state.
pub mod Laws
use goredis_main.Prelude.{false, List, [], Option, none, some, Bytes}
use goredis_main.Prelude.Int.{ℤ}
use goredis_main.GoMap.{Map}
use goredis_main.Pubsub.{new_hub}
use goredis_main.Store.{empty}
use goredis_main.Resp.Reader.{Limits, ReadError, panics}
use goredis_main.Command.{World}
use goredis_main.Command.Registry.{Spec}
use goredis_main.Aof.{Replayed, done, failed, panicked, replay}
use goredis_main.Server.{new_context, replay_command}

-- What New returns: the server's state, the error of aof.Open, or that of the replay. A panic of a
-- handler or of make is not caught.
pub data Started : Type 0 where
  started : World → Started
  not_opened : Started
  not_replayed : ReadError → Started
  crashed : Started

-- The state before the replay, with the replay's own context, which has no OnWrite.
abbrev pub fresh_world : ℤ → ℤ → World
fresh_world now later = record {
  store = empty;
  hub = new_hub;
  ctx = new_context false;
  log = [];
  now = now;
  later = later;
}

-- An error of Replay is New's; a panic of make is none.
pub after_error : ReadError → Started
after_error panics = crashed
after_error e = not_replayed e

-- The end of New, after the replay.
pub after_replay : Replayed World → Started
unfolding after_error
after_replay (done w) = started w
after_replay (failed e w) = after_error e
after_replay panicked = crashed

-- The file at AOFPath: `none` is the empty path, and `some none` a file that cannot be opened.
unfoldable pub new_server : Map Spec → Limits → ℤ → ℤ → Option (Option Bytes) → Started
unfolding after_replay
new_server registry lim now later none = started (fresh_world now later)
new_server registry lim now later (some none) = not_opened
new_server registry lim now later (some (some file)) =
    after_replay (replay lim (replay_command registry) file (fresh_world now later))
