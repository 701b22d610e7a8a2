-- ===== src/Tests/Restart.antt =====
-- What a failing command and a restart leave, at concrete inputs.
use goredis_main.Prelude.{
  refl, bytes_eq, ◌≡◌, ◌≤◌, ℕ, take, List, true, [], ◌∷◌, some, codes, arith,
}
use goredis_main.Prelude.Int.{pos}
use goredis_main.GoMap.{lookup, insert}
use goredis_main.Resp.Value.{Value, simple, error, bulk, array_of}
use goredis_main.Strconv.{format_nat, put_digits}
use goredis_main.Resp.Marshal.{marshal, marshal_bulk}
use goredis_main.Aof.{append}
use goredis_main.Store.{string, fresh, find_kind, get_locked, expired, same_kind, kind_of}
use goredis_main.Store.Strings.{set, incr_by}
use goredis_main.Command.{World}
use goredis_main.Command.Registry.{
  dispatch, new_registry, bypasses_queue, validate, find_spec, check_arity, log_write,
}
use goredis_main.Command.Names.{upper_byte}
use goredis_main.Command.Pubsub.{in_subscriber_mode}
use goredis_main.Command.Strings
use goredis_main.Command.Strings.{set_options}
use goredis_main.Command.Registry.Atomic.{dispatch_atomic}
use goredis_main.Server.{new_context, handle_request, replay_command}
use goredis_main.Server.Recovery.{Session, start, serves}
use goredis_main.Server.Boot.{fresh_world, new_server, started}
use goredis_main.Aof.File.{
  LogFile, open_log, append_line, sync_tick, crash, History, opened, appended, ticked,
}
use goredis_main.Aof.Torn.{Torn}
use goredis_main.Aof.Recovery.{Ran, append_all}
use goredis_main.Server.Boot.Laws.{BootsTo, new_server-Session, new_server-crash}
use goredis_main.Tests.Commands.{env, limits, world}

-- The server after SET k v.
abbrev before : World
before = record (fresh_world (pos 100) (pos 100)) { ctx = new_context true }

abbrev after : World
after = record before {
  store = record { entries = (codes "k", fresh (string (codes "v"))) ∷ [] };
  log = (bulk (codes "SET") ∷ bulk (codes "k") ∷ bulk (codes "v") ∷ []) ∷ [];
}

abbrev request : Value
request = array_of (bulk (codes "set") ∷ bulk (codes "k") ∷ bulk (codes "v") ∷ [])

after-Session : Session env before after
unfolding handle_request dispatch in_subscriber_mode validate find_spec lookup new_registry insert
    bytes_eq upper_byte check_arity Strings.set set_options log_write set
after-Session = serves request after (simple (codes "OK")) start refl

-- The keyspace of the tests of commands, outside MULTI.
abbrev idle : World
idle = record world { ctx = new_context true }

abbrev wrong_type : World × Value
wrong_type =
    (idle, error (codes "WRONGTYPE Operation against a key holding the wrong kind of value"))

incr-wrong_type :
    dispatch (new_registry env) 1 idle (codes "incr") (bulk (codes "l") ∷ []) ≡ some wrong_type
unfolding dispatch bypasses_queue validate find_spec lookup new_registry insert bytes_eq upper_byte
    check_arity Strings.incr log_write incr_by find_kind get_locked expired same_kind kind_of
incr-wrong_type = refl

dispatch_atomic_example : wrong_type.0.store ≡ idle.store
dispatch_atomic_example =
    dispatch_atomic env 1 idle wrong_type.0 (codes "incr") (bulk (codes "l") ∷ []) wrong_type.1
      incr-wrong_type refl

new_server-Session_example :
    (u : World) × (new_server
        (new_registry env)
        limits
        (pos 100)
        (pos 100)
        (some (some (append_all [] after.log)))
      ≡ started u)
    × (u.store ≡ after.store)
new_server-Session_example =
    new_server-Session env limits (pos 100) (pos 100) after after-Session
      ((refl, omega arith, (omega arith, (omega arith, (omega arith, tt)))), tt)

-- A log of two lines, the first of which is synced.
abbrev first : List Value
first = bulk (codes "SET") ∷ bulk (codes "k") ∷ bulk (codes "v") ∷ []

abbrev second : List Value
second = bulk (codes "DEL") ∷ bulk (codes "k") ∷ []

abbrev file : LogFile
file = append_line second (sync_tick true (append_line first (open_log [])))

file-History : History (first ∷ second ∷ []) 1 file
unfolding append_line sync_tick open_log
file-History = appended second (ticked (appended first opened refl) refl) refl

enough : file.synced ≤ 40
unfolding append_line sync_tick open_log append marshal marshal_bulk format_nat put_digits
enough = omega arith

new_server-crash_example :
    (j : ℕ) × (w : World) × (1 ≤ j)
    × (j ≤ 2)
    × Ran
        (replay_command (new_registry env))
        (fresh_world (pos 100) (pos 100))
        (take j (first ∷ second ∷ []))
        w
    × BootsTo
        (Torn (first ∷ second ∷ []) 40 j)
        w
        (new_server (new_registry env) limits (pos 100) (pos 100) (some (some (crash 40 file))))
new_server-crash_example = new_server-crash env limits (pos 100) (pos 100) 40 file-History enough (
  (refl, omega arith, (omega arith, (omega arith, (omega arith, tt)))),
  ((refl, omega arith, (omega arith, (omega arith, tt))), tt),
)
