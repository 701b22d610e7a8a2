-- ===== src/Lib.antt =====
-- goredis, a server for the Redis protocol over RESP2.
--
-- The parts of the program and the files that model them:
--   internal/resp      Resp.Value (Value), Resp.Marshal (Marshal, Writer.Write), Resp.Reader (Reader)
--   internal/store     Store (entry, Store, getLocked, the five ...OrWrongType), Store.Keyspace
--                      (store.go), Store.Strings, Store.Lists, Store.Hashes, Store.Sets, Store.ZSets
--   internal/pubsub    Pubsub (Hub and Subscriber)
--   internal/command   Command (Context, arguments, replies), Command.Generic (generic.go,
--                      connection.go, server.go), Command.Strings, Command.Lists, Command.Hashes
--                      (hashes.go and sets.go), Command.ZSets, Command.Pubsub, Command.Transaction,
--                      Command.Registry (registry.go, the command tables, queueCommand)
--   internal/aof       Aof (Append and Replay), Aof.File (Open, syncLoop, Close, and a crash)
--   internal/server    Server (one round of handleConn, its loop, forwardPubSub, replay),
--                      Server.Boot (New), Server.Lifecycle (Run, acceptLoop and shutdown)
-- GoMap, Machine and Strconv model what the program uses of Go itself: maps, int64, and the
-- decimal conversions of strconv; Store.Float models the comparisons of float64, on bit patterns;
-- Once models the sync.Once that guards a channel's close in store, aof and server.
--
-- Below a part stand the modules about it: Invariant (well-formedness), Safe (the panics of its
-- handlers), Atomic and Acts (its operations and handlers on failure), Laws, Deque, Agree,
-- Delivery, Conns, Order, Scores, Refusal, Ttl, Total, Extends, Exec, Torn, Crash and Drain.
-- Restarts are treated in Command.Registry.Effects (what each handler may change) and Cases (what
-- Dispatch may do), Server.Rebuild (the replay of a command's lines), Server.Recovery (a session
-- of many connections) and Server.Boot.Laws.
--
-- How the code is rendered. A Go string is a list of bytes. A request is read by Reader from the
-- bytes of the connection, goes through Server to Command.Registry.dispatch, which finds the
-- handler in the registry; the handler works on the store or on the hub, and its reply is
-- marshalled back. Every method of Store runs under a lock, so it is one function from the state
-- to the state and a result; in Pubsub so are the methods of Hub. The clock is an argument: `now`
-- for the lookups, `later` for a second reading of time.Now() in the same call; a whole call of
-- Dispatch, EXEC included, has one such pair. A zero expiry is `none`. Go's map iteration order is
-- unspecified; the model uses the order of insertion. A handler that would panic returns `none`.
--
-- The goroutines of the server are a step relation, Server.Lifecycle.Step, on one state: what
-- acceptLoop has come to, what Run has come to, the tracked connections and the wait group. There
-- the work of a connection is one step. What comes from outside of one connection is an argument
-- of serve_loop: which writes succeed, and how the clock and the other connections change the
-- state between two requests. Command.Transaction.Among has the loop of EXEC with other
-- connections between the queued commands; the EXEC of the registry has none. A session of many
-- connections on one store is Server.Recovery.Session, in which requests are whole. Aof.File keeps
-- the bytes of the log and how many of them are synced.
--
-- Fuel. Resp.Reader.read spends one unit for each level of nesting, and read_frame starts it with
-- the length of the input and one. dispatch spends one unit for each call of Dispatch inside EXEC;
-- two are given, since a queue holds no EXEC. Aof.replay and Server.serve_loop spend one unit for
-- each frame, and a frame takes a byte at least.
--
-- Parameters. path.Match, ParseFloat and FormatFloat, and the Go version and platform that INFO
-- prints, are fields of Command.Env. The lengths at which `make` panics are Resp.Reader.Limits,
-- and such a panic is the reader's error `panics`.
--
-- Not modelled: net.Listen, signals and flags (cmd/goredis), logging; a write of the log that
-- fails or is partial; the errors of Seek; the interleaving of two connections inside a request
-- (between two commands of EXEC, but in Command.Transaction.Among; between the change of the store
-- and the line of the log; between the critical sections of the hub); a clock that moves between
-- the log and its replay; the order of sort.Slice where a score is a NaN, which Go leaves open;
-- path.Match, which internal/store/glob.go only calls; command names with bytes above 127, which
-- strings.ToUpper decodes as UTF-8.
mod Prelude
pub mod GoMap
pub mod Machine
pub mod Once
pub mod Strconv
pub mod Resp
pub mod Store
pub mod Pubsub
pub mod Command
pub mod Aof
pub mod Server
mod Tests
