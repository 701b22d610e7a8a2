-- ===== src/Tests/Commands.antt =====
-- Commands, at concrete inputs.
use goredis_main.Prelude.{
  ℕ, ◌+◌, ltb, refl, bytes_eq, ◌≡◌, length, List, true, false, [], ◌∷◌, none, some, codes, arith,
}
use goredis_main.Prelude.Int.{pos}
use goredis_main.GoMap.{lookup}
use goredis_main.Resp.Value.{Value, bulk, array_of}
use goredis_main.Pubsub.{new_hub}
use goredis_main.Store.{empty, list, string, fresh}
use goredis_main.Command.{Env, World}
use goredis_main.Command.Names.{upper_byte}
use goredis_main.Command.Registry.{dispatch, new_registry, bypasses_queue}
use goredis_main.Command.Registry.Plain.{WorldOk}
use goredis_main.Command.Registry.Total.{Goes, dispatch-Goes}
use goredis_main.Command.Registry.Exec.{exec_lem}
use goredis_main.Command.Transaction.{reset}
use goredis_main.Command.Transaction.Among.{SequenceAmong, Others, exec_among, exec_among_lem}
use goredis_main.Command.Transaction.Laws.{Sequence}
use goredis_main.Resp.Reader.{Limits}
use goredis_main.Aof.{replay}
use goredis_main.Aof.Total.{Ended}
use goredis_main.Server.{Outside, handle_conn, replay_command}
use goredis_main.Server.Total.{Finishes, handle_conn-Finishes, replay-WorldOk}

abbrev pub limits : Limits
limits = record {
  max_elems = 1000;
  max_bytes = 1000;
  elems_fit = omega arith;
  bytes_fit = omega arith;
}

abbrev pub env : Env
env = record {
  match_glob = λ p k. true;
  parse_float = λ s. none;
  format_float = λ x. [];
  go_version = codes "go1.23";
  os_arch = codes "linux/amd64";
}

-- A connection inside MULTI with two commands queued, over a keyspace of a list and a string.
abbrev pub world : World
world = record {
  store = record {
    entries =
        (codes "l", fresh (list (codes "a" ∷ codes "b" ∷ [])))
        ∷ (codes "n", fresh (string (codes "41")))
        ∷ [];
  };
  hub = new_hub;
  ctx = record {
    sub = none;
    in_tx = true;
    queue =
        record { name = codes "INCR"; args = bulk (codes "n") ∷ [] }
        ∷ record { name = codes "LPOP"; args = bulk (codes "l") ∷ [] }
        ∷ [];
    tx_error = false;
    on_write = true;
  };
  log = [];
  now = pos 100;
  later = pos 101;
}

world-WorldOk : WorldOk world
unfolding bypasses_queue upper_byte lookup bytes_eq
world-WorldOk = record {
  valid = record { distinct = (refl, (refl, tt)); sound = (omega arith, (tt, tt)) };
  plain = (refl, (refl, tt));
}

dispatch-Goes_example : Goes (dispatch (new_registry env) 2 world (codes "exec") [])
dispatch-Goes_example = dispatch-Goes env world (codes "exec") [] world-WorldOk

exec_lem_example :
    (w' : World) × (vs : List Value) × (Sequence
      (dispatch (new_registry env) 1)
      (reset false world)
      world.ctx.queue
      w'
      vs)
    × (length vs ≡ 2)
    × (dispatch (new_registry env) 2 world (codes "EXEC") [] ≡ some (w', array_of vs))
exec_lem_example = exec_lem env world world-WorldOk refl refl

-- Another connection empties the keyspace before each of the queued commands.
abbrev flushing : ℕ → World → World
flushing i w = record w { store = empty }

flushing-Others : Others flushing
flushing-Others i w ok = (record { distinct = tt; sound = tt }, refl)

exec_among_lem_example :
    (w' : World) × (vs : List Value) × (SequenceAmong
      (dispatch (new_registry env) 1)
      flushing
      0
      (reset false world)
      world.ctx.queue
      w'
      vs)
    × (length vs ≡ 2)
    × (exec_among (dispatch (new_registry env) 1) flushing world [] ≡ some (w', array_of vs))
exec_among_lem_example = exec_among_lem env flushing world flushing-Others world-WorldOk refl refl

-- The clock moves on with every request, and the client takes one reply.
abbrev outside : Outside
outside = record {
  takes = λ i. ltb i 1;
  meanwhile = λ i w. record w { now = pos (200 + i); later = pos (200 + i) };
}

outside-WorldOk : (i : ℕ) (w : World) → WorldOk w → WorldOk (outside.meanwhile i w)
outside-WorldOk i w ok = record { valid = ok.valid; plain = ok.plain }

-- A request and the start of another one.
handle_conn-Finishes_example :
    Finishes
      (handle_conn (new_registry env) limits outside true world (codes "*1\r\n$4\r\nPING\r\n*2"))
handle_conn-Finishes_example =
    handle_conn-Finishes env limits outside outside-WorldOk true world
      (codes "*1\r\n$4\r\nPING\r\n*2") world-WorldOk.valid

-- A log that was cut off.
replay-WorldOk_example :
    Ended WorldOk
      (replay limits (replay_command (new_registry env)) (codes "*2\r\n$3\r\nDEL") world)
replay-WorldOk_example = replay-WorldOk env limits (codes "*2\r\n$3\r\nDEL") world world-WorldOk
