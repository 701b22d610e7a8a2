-- ===== src/Server/Total.antt =====
-- internal/server: every connection and every replay of the log ends.
use goredis_main.Prelude.{
  ℕ, zero, suc, ◌<◌, ◌≢◌, Bool, true, false, not, ◌&&◌, ◌||◌, if◌then◌else◌, List, [], ◌∷◌, ◌++◌,
  none, some, Bytes, arith, length, if_intro,
}
use goredis_main.Resp.Value.{
  Value, simple, error, integer, bulk, array, null_bulk, null_array, str_of, to_list,
}
use goredis_main.Resp.Reader.{Limits, ReadError, out_of_fuel, read_frame}
use goredis_main.Resp.Reader.Shrinks.{Shrinks, shorter, stopped, read_frame-Shrinks}
use goredis_main.Resp.Reader
use goredis_main.Resp.Marshal.{write}
use goredis_main.Store.Invariant.{IsValid}
use goredis_main.Command.{Env, World, Outcome}
use goredis_main.Command.Names.{to_upper}
use goredis_main.Command.Pubsub.{in_subscriber_mode, close, subscriber}
use goredis_main.Command.Registry.{new_registry}
use goredis_main.Command.Registry.Plain.{WorldOk}
use goredis_main.Command.Registry.Total.{Goes, goes, dispatch-Goes}
use goredis_main.Server.{
  subscriber_mode_allowed, handle_elems, handle_request, Outside, dispatches, Served, closed,
  hung_up, panicked, serve_loop, handle_conn, drop_reply, replay_command,
}
use goredis_main.Aof.{replay}
use goredis_main.Aof.Total.{Accepts, accepts, Ended, replay-Ended}

module _ (env : Env) where
  handle_elems-Goes :
      (w : World) (vs : List Value) → WorldOk w → Goes (handle_elems (new_registry env) w vs)
  unfolding handle_elems
  handle_elems-Goes w [] valid = goes w _ valid
  handle_elems-Goes w (v ∷ args) valid =
      if_intro Goes (in_subscriber_mode w && not (subscriber_mode_allowed (to_upper (str_of v)))) _
        _ (λ _. goes w _ valid) (λ _. dispatch-Goes env w (to_upper (str_of v)) args valid)

  handle_request-Goes :
      (w : World) (req : Value) → WorldOk w → Goes (handle_request (new_registry env) w req)
  unfolding handle_request
  handle_request-Goes w (simple s) valid = goes w _ valid
  handle_request-Goes w (error s) valid = goes w _ valid
  handle_request-Goes w (integer n) valid = goes w _ valid
  handle_request-Goes w (bulk s) valid = goes w _ valid
  handle_request-Goes w null_bulk valid = goes w _ valid
  handle_request-Goes w (array multi vs) valid = handle_elems-Goes w (to_list vs) valid
  handle_request-Goes w null_array valid = goes w _ valid

-- The connection was closed on an error of the reader or on a failed write, over a well-formed store.
pub data Finishes : Served → Type 0 where
  finishes :
      (e : ReadError) (w : World) (output : Bytes)
      → e ≢ out_of_fuel
      → IsValid w.store
      → Finishes (closed e w output)
  drops : (w : World) (output : Bytes) → IsValid w.store → Finishes (hung_up w output)

close-IsValid : (w : World) → IsValid w.store → IsValid (close w).store
unfolding close
close-IsValid w valid = valid

module _ (env : Env) (lim : Limits) (out : Outside)
    (keeps : (i : ℕ) (w : World) → WorldOk w → WorldOk (out.meanwhile i w)) where
  -- The end of a round, where the rounds after it end.
  sent-Finishes :
      (b : Bool) (w : World) (output : Bytes) (again : Served)
      → WorldOk w
      → Finishes again
      → Finishes (elim b [ false ↦ hung_up (close w) output | true ↦ again ])
  sent-Finishes false w output again valid h = drops _ output (close-IsValid w valid.valid)
  sent-Finishes true w output again valid h = h

  -- One round, from the read on.
  round-Finishes :
      (w : World) (input output : Bytes)
      → WorldOk w
      → (goes_on : Value → Bool) → (again : World → Value → Bytes → Served)
      → ((w' : World) (v : Value) (rest : Bytes)
          → length rest < length input
          → WorldOk w'
          → Finishes (again w' v rest))
      → {r : Reader.Result (Value × Bytes)} → Shrinks input r
      → Finishes (elim r [
        | Reader.err e ↦ closed e (close w) output
        | Reader.ok (req, rest) ↦ elim (handle_request (new_registry env) w req) [
          | none ↦ panicked
          | some (w', v) ↦ elim (goes_on req) [
            | false ↦ hung_up (close w') output
            | true ↦ again w' v rest
          ]
        ]
      ])
  round-Finishes w input output valid goes_on again next (stopped e ne) =
      finishes e _ output ne (close-IsValid w valid.valid)
  round-Finishes w input output valid goes_on again next (shorter req rest lt) =
      after (handle_request-Goes env w req valid)
    where
      after :
          {o : Outcome}
          → Goes o
          → Finishes (elim o [
            | none ↦ panicked
            | some (w', v) ↦ elim (goes_on req) [
              | false ↦ hung_up (close w') output
              | true ↦ again w' v rest
            ]
          ])
      after (goes w' v valid') =
          sent-Finishes (goes_on req) w' output (again w' v rest) valid' (next w' v rest lt valid')

  serve_loop-Finishes :
      (f i : ℕ) (w : World) (input output : Bytes)
      → length input < f
      → WorldOk w
      → Finishes (serve_loop (new_registry env) lim out f i w input output)
  unfolding serve_loop
  serve_loop-Finishes zero i w input output h valid = absurd (omega arith)
  serve_loop-Finishes (suc f) i w input output h valid =
      round-Finishes (out.meanwhile i w) input output (keeps i w valid)
        (λ req. out.takes i || not (dispatches (out.meanwhile i w) req))
        (λ w' v rest.
          serve_loop (new_registry env) lim out f (suc i) w' rest
            (output ++ (if out.takes i then write v else [])))
        (λ w' v rest lt valid'. serve_loop-Finishes f (suc i) w' rest _ (omega arith) valid')
        (read_frame-Shrinks lim input)

  -- Whatever bytes a client sends, whichever writes fail, and whatever the clock, the sweeper and the
  -- other connections do to the state between two requests, if they keep its store well-formed and its
  -- queue one of plain commands: the connection ends, and the fuel is enough. No handler panics, and the loop stops on an error of the reader (the
  -- panic of make on a length that is too large among them) or on a failed write, with a well-formed
  -- store if the one at the start was.
  pub handle_conn-Finishes :
      (on_write : Bool) (w : World) (input : Bytes)
      → IsValid w.store
      → Finishes (handle_conn (new_registry env) lim out on_write w input)
  unfolding handle_conn subscriber
  handle_conn-Finishes on_write w input valid =
      serve_loop-Finishes (suc (length input)) 0 _ input [] (omega arith)
        (record { valid = valid; plain = tt })

module _ (env : Env) (lim : Limits) where
  pub replay_command-Accepts :
      (w : World) (args : List Value)
      → WorldOk w
      → Accepts WorldOk (replay_command (new_registry env) w args)
  unfolding replay_command
  replay_command-Accepts w [] valid = accepts w valid
  replay_command-Accepts w (v ∷ args) valid = dropped (dispatch-Goes env w (str_of v) args valid)
    where
      dropped : {o : Outcome} → Goes o → Accepts WorldOk (drop_reply o)
      dropped (goes w' v' valid') = accepts w' valid'

  -- Whatever the bytes of the log, replaying it through Dispatch ends, at the end of the file or on an
  -- error of the reader (the panic of make among them): no handler panics, the fuel is enough, and the
  -- store is well-formed if the one at the start was.
  pub replay-WorldOk :
      (file : Bytes) (w : World)
      → WorldOk w
      → Ended WorldOk (replay lim (replay_command (new_registry env)) file w)
  replay-WorldOk file w valid =
      replay-Ended WorldOk lim (replay_command (new_registry env)) replay_command-Accepts file w
        valid
