-- ===== src/Command/Transaction.antt =====
-- internal/command/transaction.go.
pub mod Laws
pub mod Among
use goredis_main.Prelude.{Bool, true, false, not, List, [], ◌∷◌, Option, some, codes, if◌then◌else◌}
use goredis_main.Resp.Value.{Value, error, ok_reply, array_of}
use goredis_main.Command.{World, QueuedCommand, Dispatcher, Handler, ◌>>=◌, reads}

-- ctx.inTx, ctx.queue, ctx.txError = inTx, nil, false
abbrev pub reset : Bool → World → World
reset b w = record w { ctx = record w.ctx { in_tx = b; queue = []; tx_error = false } }

unfoldable pub multi : Handler
multi _ w args =
    if w.ctx.in_tx
    then reads w (error (codes "ERR MULTI calls can not be nested"))
    else some (reset true w, ok_reply)

-- The loop of EXEC: the replies in the order of the queue. No other connection comes between two
-- commands here; Among has the loop with others.
unfoldable pub run_queue : Dispatcher → World → List QueuedCommand → Option (World × List Value)
run_queue dispatch w [] = some (w, [])
run_queue dispatch w (qc ∷ queue) = do
  (w', v) ← dispatch w qc.name qc.args
  (w'', vs) ← run_queue dispatch w' queue
  some (w'', v ∷ vs)

unfoldable pub exec : Handler
exec dispatch w args =
    if not w.ctx.in_tx
    then reads w (error (codes "ERR EXEC without MULTI"))
    else if w.ctx.tx_error
    then some
        (reset false w, error (codes "EXECABORT Transaction discarded because of previous errors."))
    else (do (w', vs) ← run_queue dispatch (reset false w) w.ctx.queue; some (w', array_of vs))

unfoldable pub discard : Handler
discard _ w args =
    if not w.ctx.in_tx
    then reads w (error (codes "ERR DISCARD without MULTI"))
    else some (reset false w, ok_reply)
