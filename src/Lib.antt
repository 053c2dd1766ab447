-- ===== src/Lib.antt =====
-- Verification of logd, a daemon that reads log lines, parses them into structured logs and hands
-- them to a Lua script.
--
-- The parts. logging/logging.go defines the structured log: named fields (date, time, level, thread,
-- class, message) and a list of further properties, with Set, Get, Remove, Reset, and two
-- serialisations. logging/parse.go turns a stream of text chunks into such logs. The daemon in
-- cmd/logd feeds the parser from a file or from watched directories and calls the hooks of the
-- sandbox in lua/, which posts through the client in http/.
--
-- Log: the type Log and its methods (logging/logging.go). Set, Get and Remove classify the key as
-- the `switch` does; Set returns no value where the code panics on a malformed timestamp.
-- Log.Serialize: escape, appendProp, serialize, WriteTo, WriteJSONTo and their wrappers.
-- Log.Rendered: the text form of a log with nothing to escape. Log.Fields, Log.Erase, Log.Remove and
-- Log.Timestamp hold the proofs.
--
-- Parser.State, Parser.Handlers, Parser.Run: the parser (logging/parse.go), a method for each
-- handler, `next` for the dispatch, `scan` for the loop of the method Parse, `parse_chunk` for that
-- method and `parse` for the function Parse. A slice expression out of bounds or an index below zero
-- is a panic, and a panic is `none`. A `log *Log` argument is always `&p.current`, so it is that
-- field of the state. Parser.Safety and Parser.Total: no panic. Parser.Embed, Parser.Append,
-- Parser.Lines, Parser.Batch: a text and its lines. Parser.Cut: a text cut anywhere; what Parse
-- reads again (Parser.Cut.Field, Parser.Cut.Scan, Parser.Cut.Rescan) and the calls on the parts
-- (Parser.Cut.Chunks, Parser.Cut.Stream). Parser.Reading, Parser.Header, Parser.Body,
-- Parser.RoundTrip: reading what was written. Parser.Message: a message behind a call type.
--
-- Http.Config, Http.Worker, Http.Client: the client (http/http.go). A worker is a queue of Post and
-- the goroutine `poster` on it. Http.System: a client, its workers and one caller as a machine.
-- `advance` makes one step: the entry of Post, Flush, Close or Init, the caller's next step inside
-- one of them (`proceed`: the send of Post, a `close` of stopWorkers, or what follows that loop), or
-- a step of a worker: a receive, the end of a request with its response, the report of an error, the
-- end of the goroutine. A step that waits on a channel is disabled, so a sequence of steps is an
-- interleaving. The caller looks for a queue with room when it enters Post; only a worker moves
-- before it sends, and a worker never fills a queue. Http.Invariant, Http.Serve, Http.Finish,
-- Http.Proceed, Http.Steps: what every step keeps. Http.Delivery: the histories of requests.
-- Http.Routing: the queue that Post picks. Http.Refused: a client that Init refused. Http.Work,
-- Http.Bound: the work that is left, and how each step takes some of it. Http.Ready, Http.Progress,
-- Http.Fares, Http.Liveness, Http.Returns: the calls on an initialised client. The responses of the
-- server, and what `http.NewRequest` makes of a URL, are arguments. A Post that returns an error
-- leaves the system as it is. The mutex lets in one Post or Flush; Init and Close, which do not take
-- it, are called by the same caller here.
--
-- Daemon.Flags, Daemon.Pipeline: validateFlags, the mode that main starts, and runPipeline
-- (cmd/logd/main.go). The two loops of runPipeline differ in the hook that they call, so `read_loop`
-- takes it. The reads are a list of texts and the failure behind them; the sandbox is any state, and
-- each of its two hooks any function that takes a log and may fail. Daemon.Input: an input in
-- pieces. Daemon.Format: the log formatter. Daemon.Usage: the usage text. Daemon.Bench: the
-- benchmarks (cmd/logd/bench.go), with the numbers of rounds as an argument; a hook also gives what
-- it leaves in the array of the properties of its log. Daemon.Stream: reads of any size.
-- Daemon.Main: main with its deferred calls; Daemon.Ends, Daemon.Success: how it ends.
-- Daemon.Signals, Daemon.Opening: the handler of signals and getReader.
--
-- Watcher.Reader: DirReader (cmd/logd/watcher.go). What the system calls and fsnotify answer is a
-- record of functions, one for each event that Read handles, and a file tree is data, with a mark
-- where a walk fails. The map of files is an association list whose entries may be nil; a nil
-- dereference is a panic, and a panic is `none`. Watcher.Scan: the double walk of scanFiles.
-- Watcher.Removed: removed files. Watcher.Safety: reading without removals.
--
-- Lua.Machine: what the sandbox uses of the stack of go-lua, with the height that each operation
-- leaves. Lua.Hooks: the calls of the hooks (lua/lua.go, lua/http.go, lua/kafka.go). Each of them
-- but CallOnSignal holds the lock, so they come one after the other; CallOnSignal is taken to run
-- between them. Lua.Balance and Lua.Leak: the height of the stack after them. Lua.Arguments,
-- Lua.Builtins: the arguments that a script passes, and the functions of the module on logs
-- (lua/builtin.go). A pointer to a log is its address in a store, so two arguments may be the same
-- log. Lua.Script: log_set and log_get. Lua.Kafka: the configuration of the producer (lua/kafka.go),
-- with ConfigMap of confluent-kafka-go and Go's floating-point numbers as a record of operations.
-- Lua.KafkaKey: the key that config_set stores. Lua.Settings: luaSetConfig and its setters
-- (lua/config.go too). Where there is an HTTP client the setters run its Init, with the steps of the
-- workers as an argument. Lua.Frame, Lua.ConfigSet: what they change. Lua.Post: http_post, which
-- gives the lock up while Post waits; where the poller of errors calls it, no error is received
-- meanwhile. Lua.Post.Returns: how it ends. Lua.Fetch: http_get. Lua.Messages: the messages and
-- offsets of Kafka. Lua.Lifecycle: Init, Flush, Close and the ticker; loading the script is an
-- argument that gives the sandbox, the machine and the ticker that it leaves. Lua.Running,
-- Lua.Start: the sandbox behind Init. Lua.Loops: the loop of the ticker and of the two goroutines
-- that poll errors and reports, and logd.debug. Lua.Path, Lua.Library: the path of the packages and
-- the machine that Init gives to the script, with what it uses of go-lua as a record. Lua.Lock: the
-- goroutines that take the lock of the sandbox, with the client and the poller of its errors, as a
-- machine over schedules of their steps; it has one call of the client at a time, and stops at a
-- config_set beside an open Post. Lua.Runs, Lua.Deadlock, Lua.Reentry, Lua.Relief: invariants of its
-- runs.
--
-- Utf8: the meaning of `range` over a string, invalid sequences included, and of WriteRune. Base:
-- the shared helpers. Strings are lists of bytes; a number is unbounded, since offsets never pass
-- the length of the text, and the int of an affinity wraps around where the code subtracts. Every
-- loop is a recursion on its list or on the rounds left, so no fuel is needed.
--
-- Slices are values, but for the logs of a benchmark: a log owns its properties, and the daemon
-- drops the logs of a chunk before it parses the next one. Not modelled: the table of the functions
-- of the module and its handler of errors, the profile server of the daemon, the figures that a
-- benchmark prints, and the vendored libraries.
pub mod Base
pub mod Utf8
pub mod Log
pub mod Http
pub mod Parser
pub mod Daemon
pub mod Watcher
pub mod Lua
