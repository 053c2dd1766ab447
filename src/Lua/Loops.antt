-- ===== src/Lua/Loops.antt =====
-- lua/lua.go, lua/http.go, lua/kafka.go: the loops of the goroutines of the sandbox, each of which calls a
-- hook for every event it receives; and logd.debug of lua/builtin.go. `none` is a panic.
use logd_go.Base.{Bool, Option, none, some, List, [], ◌∷◌, Bytes, if◌then◌else◌, ◌>>=◌}
use logd_go.Lua.Machine.{Machine, KafkaReport}
use logd_go.Lua.Hooks.{
  call_on_tick, call_protected_on_tick, call_on_http_error, call_on_kafka_report,
}
use logd_go.Lua.Arguments.{Values, argument}

-- `http.Error`: the URL and the method of its request, and its text.
pub record HttpError : Type 0 where
  pub url : Bytes
  pub method : Bytes
  pub err : Bytes

-- The events of `kafka.Producer.Events`.
pub data KafkaEvent : Type 0 where
  message : KafkaReport → KafkaEvent
  failure : Bytes → KafkaEvent
  unexpected : KafkaEvent

module _ (m : Machine) where
  -- An error of the hook is a panic.
  tick_done : Option (m.State × Option Bytes) → Option m.State
  tick_done none = none
  tick_done (some (s, some e)) = none
  tick_done (some (s, none)) = some s

  -- One round of the loop of `tick`, in the protected mode or not.
  tick_once : Bool → m.State → Option m.State
  unfolding tick_done call_on_tick call_protected_on_tick
  tick_once protected s =
      tick_done (if protected then call_protected_on_tick m s else call_on_tick m s)

  -- The loop of `tick`, with the mode at each tick, until the ticker is told to quit.
  unfoldable pub tick : List Bool → m.State → Option m.State
  unfolding tick_once
  tick [] s = some s
  tick (p ∷ ps) s = tick_once p s >>= tick ps

  -- pollHTTPErrors, until its channel is closed.
  unfoldable poll_http_errors : List HttpError → m.State → Option m.State
  unfolding call_on_http_error
  poll_http_errors [] s = some s
  poll_http_errors (e ∷ es) s = call_on_http_error m e.url e.method e.err s >>= poll_http_errors es

  -- One event; an error of Kafka is only printed.
  poll_kafka_event : KafkaEvent → m.State → Option m.State
  unfolding call_on_kafka_report
  poll_kafka_event (KafkaEvent.message r) s = call_on_kafka_report m r s
  poll_kafka_event (KafkaEvent.failure e) s = some s
  poll_kafka_event KafkaEvent.unexpected s = none

  unfoldable poll_kafka_events : List KafkaEvent → m.State → Option m.State
  unfolding poll_kafka_event
  poll_kafka_events [] s = some s
  poll_kafka_events (e ∷ es) s = poll_kafka_event e s >>= poll_kafka_events es

-- What logd.debug logs: a message, or the fields of a table, where the last of two equal keys counts.
pub data Debugged (V : Type 0) : Type 0 where
  info : Bytes → Debugged V
  info_fields : List (Bytes × V) → Debugged V

-- The types of a first argument that luaDebug tells apart, with the pairs of a table.
pub data DebugArgument (V : Type 0) : Type 0 where
  text : Bytes → DebugArgument V
  table : List (V × V) → DebugArgument V
  other : DebugArgument V

module _ (v : Values) where
  open v use {Value, to_string}

  -- The loop over the table; a key that is no text is a panic.
  debug_fields : List (Value × Value) → Option (List (Bytes × Value))
  debug_fields [] = some []
  debug_fields ((a, b) ∷ rest) = do k ← to_string a; fs ← debug_fields rest; some ((k, b) ∷ fs)

  debug_argument : DebugArgument Value → Option (Debugged Value)
  unfolding debug_fields
  debug_argument (DebugArgument.text s) = some (Debugged.info s)
  debug_argument (DebugArgument.table ps) = do fs ← debug_fields ps; some (Debugged.info_fields fs)
  debug_argument DebugArgument.other = none

  unfoldable lua_debug : (Value → DebugArgument Value) → List Value → Option (Debugged Value)
  unfolding debug_argument
  lua_debug type_of xs = debug_argument (type_of (argument v 1 xs))
