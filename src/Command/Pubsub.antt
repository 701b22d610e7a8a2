-- ===== src/Command/Pubsub.antt =====
-- internal/command: pubsub.go, and Subscriber, InSubscriberMode and Close of context.go.
pub mod Safe
pub mod Acts
use goredis_main.Prelude.{
  ℕ, zero, suc, Bool, true, false, List, [], ◌∷◌, Option, none, some, Bytes, codes, ltb,
}
use goredis_main.Prelude.Int.{ℤ, pos}
use goredis_main.Resp.Value.{Value, bulk, integer, null_bulk, array_of, multi_frame}
use goredis_main.Pubsub
use goredis_main.Pubsub.{Hub}
use goredis_main.Command.{World, Context, Outcome, Handler, ◌>>=◌, arg, arg_strings, count_reply}

subscriber_at : Option ℕ → World → World × ℕ
subscriber_at (some p) w = (w, p)
subscriber_at none w =
    let (h, p) = Pubsub.new_subscriber w.hub in
    (record w { hub = h; ctx = record w.ctx { sub = some p } }, p)

-- Subscriber: the connection's inbox, allocated on first use.
unfoldable pub subscriber : World → World × ℕ
unfolding subscriber_at
subscriber w = subscriber_at w.ctx.sub w

abbrev has_channels : Option ℕ → Hub → Bool
has_channels none h = false
has_channels (some p) h = ltb 0 (Pubsub.channel_count h p)

unfoldable pub in_subscriber_mode : World → Bool
in_subscriber_mode w = has_channels w.ctx.sub w.hub

close_at : Option ℕ → Hub → Hub
close_at none h = h
close_at (some p) h = Pubsub.unsubscribe_all h p

unfoldable pub close : World → World
unfolding close_at
close w = record w { hub = close_at w.ctx.sub w.hub }

abbrev frame : Bytes → Bytes → ℕ → Value
frame verb channel n = array_of (bulk verb ∷ bulk channel ∷ count_reply n ∷ [])

-- The loops of SUBSCRIBE and UNSUBSCRIBE: one frame for each channel.
unfoldable pub subscribe_each : ℕ → List Bytes → Hub → Hub × List Value
subscribe_each p [] h = (h, [])
subscribe_each p (c ∷ cs) h =
    let (h', n) = Pubsub.subscribe h p c in
    let (h'', frames) = subscribe_each p cs h' in (h'', frame (codes "subscribe") c n ∷ frames)

unfoldable pub unsubscribe_each : ℕ → List Bytes → Hub → Hub × List Value
unsubscribe_each p [] h = (h, [])
unsubscribe_each p (c ∷ cs) h =
    let (h', n) = Pubsub.unsubscribe h p c in
    let (h'', frames) = unsubscribe_each p cs h' in (h'', frame (codes "unsubscribe") c n ∷ frames)

unfoldable pub subscribe : Handler
unfolding subscribe_each
subscribe _ w args =
    let (w', p) = subscriber w in
    let (h, frames) = subscribe_each p (arg_strings args) w'.hub in
    some (record w' { hub = h }, multi_frame frames)

unsubscribe_from : ℕ → World → List Bytes → Outcome
unsubscribe_from p w [] =
    some
      (w, multi_frame (array_of (bulk (codes "unsubscribe") ∷ null_bulk ∷ count_reply 0 ∷ []) ∷ []))
unsubscribe_from p w (c ∷ cs) =
    let (h, frames) = unsubscribe_each p (c ∷ cs) w.hub in
    some (record w { hub = h }, multi_frame frames)

-- The channels that are named, or all of the subscriber's where none is.
abbrev named_or_all : List Bytes → List Bytes → List Bytes
named_or_all [] all = all
named_or_all (c ∷ cs) all = c ∷ cs

unfoldable pub unsubscribe : Handler
unfolding unsubscribe_from unsubscribe_each
unsubscribe _ w args =
    let (w', p) = subscriber w in
    unsubscribe_from p w' (named_or_all (arg_strings args) (Pubsub.channels w'.hub p))

unfoldable pub publish : Handler
publish _ w args = do
  channel ← arg args 0
  content ← arg args 1
  let (h, n) = Pubsub.publish w.hub channel content in some (record w { hub = h }, count_reply n)
