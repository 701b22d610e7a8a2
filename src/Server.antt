-- ===== src/Server.antt =====
-- internal/server: the request loop and the forwarder of connection.go, and replay of server.go. The
-- logger is not modelled.
pub mod Total
pub mod Boot
pub mod Lifecycle
pub mod Rebuild
pub mod Recovery
use goredis_main.Prelude.{
  ℕ, zero, suc, Bool, true, false, not, ◌&&◌, ◌||◌, List, [], ◌∷◌, ◌++◌, Option, none, some, Bytes,
  bytes_eq, codes, get_elem?, length, if◌then◌else◌,
}
use goredis_main.GoMap.{Map}
use goredis_main.Resp.Value.{Value, nil, cons, error, array, bulk, array_of, str_of, to_list}
use goredis_main.Resp.Marshal.{write}
use goredis_main.Resp.Reader.{Limits, ReadError, ok, err, out_of_fuel, read_frame}
use goredis_main.Pubsub.{Hub, Subscriber, Message, modify}
use goredis_main.Command.{World, Context, Outcome}
use goredis_main.Command.Names.{to_upper, to_lower}
use goredis_main.Command.Pubsub.{in_subscriber_mode, subscriber, close}
use goredis_main.Command.Registry.{Spec, dispatch}

-- The depth of calls of Dispatch: a request, and the commands that EXEC runs.
abbrev pub nesting : ℕ
nesting = 2

-- subscriberModeAllowed
unfoldable pub subscriber_mode_allowed : Bytes → Bool
subscriber_mode_allowed name =
    bytes_eq name (codes "SUBSCRIBE")
    || (bytes_eq name (codes "UNSUBSCRIBE") || bytes_eq name (codes "PING"))

unfoldable pub invalid_request : Value
invalid_request = error (codes "ERR invalid request, expected a non-empty array")

unfoldable pub mode_error : Bytes → Value
mode_error name = error (
    codes "ERR Can't execute '"
    ++ (to_lower name ++ codes "': only (UN)SUBSCRIBE / PING are allowed in subscriber mode"))

handle_elems : Map Spec → World → List Value → Outcome
handle_elems registry w [] = some (w, invalid_request)
handle_elems registry w (v ∷ args) =
    let name = to_upper (str_of v) in
    if in_subscriber_mode w && not (subscriber_mode_allowed name)
    then some (w, mode_error name)
    else dispatch registry nesting w name args

-- One round of handleConn's loop, from the request to the reply.
unfoldable pub handle_request : Map Spec → World → Value → Outcome
unfolding handle_elems
handle_request registry w (array multi elems) = handle_elems registry w (to_list elems)
handle_request registry w _ = some (w, invalid_request)

-- Is the reply to the request Dispatch's? A failed write of it ends the loop; a failed write of one of
-- handleConn's own errors does not.
dispatches : World → Value → Bool
dispatches w (array multi nil) = false
dispatches w (array multi (cons v vs)) =
    not (in_subscriber_mode w && not (subscriber_mode_allowed (to_upper (str_of v))))
dispatches w _ = false

-- What happens outside of one connection's loop: whether the write of its i-th reply succeeds, and what
-- the clock, the other connections and the sweeper do to the state while it waits for its i-th request.
pub record Outside : Type 0 where
  pub takes : ℕ → Bool
  pub meanwhile : ℕ → World → World

-- How a connection's loop ends, with the state and the bytes that were written: on the error of a read,
-- or of a write; or in a panic.
pub data Served : Type 0 where
  closed : ReadError → World → Bytes → Served
  hung_up : World → Bytes → Served
  panicked : Served

-- handleConn's loop over the bytes that the client sends, with the number of the request and what was
-- written so far. The connection is closed at the end.
unfoldable pub serve_loop : Map Spec → Limits → Outside → ℕ → ℕ → World → Bytes → Bytes → Served
unfolding dispatches
serve_loop registry lim out zero i w input output = closed out_of_fuel (close w) output
serve_loop registry lim out (suc f) i w input output =
    let w1 = out.meanwhile i w in
    elim (read_frame lim input) [
      | err e ↦ closed e (close w1) output
      | ok (req, rest) ↦ elim (handle_request registry w1 req) [
        | none ↦ panicked
        | some (w', v) ↦ elim (out.takes i || not (dispatches w1 req)) [
          | false ↦ hung_up (close w') output
          | true ↦
              serve_loop registry lim out f (suc i) w' rest
                (output ++ (if out.takes i then write v else []))
        ]
      ]
    ]

abbrev pub new_context : Bool → Context
new_context on_write = record {
  sub = none;
  in_tx = false;
  queue = [];
  tx_error = false;
  on_write = on_write;
}

-- handleConn: a new context, whose inbox the forwarder is given, and the loop.
unfoldable pub handle_conn : Map Spec → Limits → Outside → Bool → World → Bytes → Served
unfolding serve_loop
handle_conn registry lim out on_write w input =
    let (w', p) = subscriber (record w { ctx = new_context on_write }) in
    serve_loop registry lim out (suc (length input)) 0 w' input []

abbrev message_frame : Message → Value
message_frame msg = array_of (bulk (codes "message") ∷ bulk msg.channel ∷ bulk msg.content ∷ [])

-- A round of forwardPubSub: it waits; it has sent a frame; or the write failed, and it returns, with the
-- message taken all the same.
pub data Forwarded : Type 0 where
  waits : Forwarded
  sent : Hub → Value → Forwarded
  gave_up : Hub → Forwarded

forward_first : Bool → ℕ → Hub → List Message → Forwarded
forward_first takes p h [] = waits
forward_first takes p h (msg ∷ inbox) =
    let h' = record h { heap = modify p (λ x. record x { inbox = inbox }) h.heap } in
    if takes then sent h' (message_frame msg) else gave_up h'

forward_from : Bool → ℕ → Hub → Option Subscriber → Forwarded
forward_from takes p h none = waits
forward_from takes p h (some x) = forward_first takes p h x.inbox

-- The round at the subscriber p; `takes` tells whether the write succeeds.
unfoldable pub forward : Bool → Hub → ℕ → Forwarded
unfolding forward_from forward_first
forward takes h p = forward_from takes p h (get_elem? h.heap p)

drop_reply : Outcome → Option World
drop_reply none = none
drop_reply (some (w, v)) = some w

-- The callback of the server's replay: a command line of the log.
unfoldable pub replay_command : Map Spec → World → List Value → Option World
unfolding drop_reply
replay_command registry w [] = some w
replay_command registry w (v ∷ args) = drop_reply (dispatch registry nesting w (str_of v) args)
