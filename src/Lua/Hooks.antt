-- ===== src/Lua/Hooks.antt =====
-- lua/lua.go, lua/http.go, lua/kafka.go: the calls of the hooks of the script. The lock is held
-- throughout each of them but call_on_signal. A method gives the machine that it leaves and its error, if it has one; none is
-- a panic.
use logd_go.Base.{ℕ, Bool, Option, none, some, ◌++◌, Bytes, codes, if◌then◌else◌, ◌>>=◌}
use logd_go.Log.{Log, new_log}
use logd_go.Lua.Signals.{signals, signal_name}
use logd_go.Lua.Machine.{Machine, CallError, KafkaReport}

abbrev pub name_module : Bytes
name_module = codes "logd"

abbrev pub name_on_log : Bytes
name_on_log = codes "on_log"

abbrev pub name_on_error : Bytes
name_on_error = codes "on_error"

abbrev pub name_on_signal : Bytes
name_on_signal = codes "on_signal"

abbrev pub name_on_tick : Bytes
name_on_tick = codes "on_tick"

abbrev pub name_on_http_error : Bytes
name_on_http_error = codes "on_http_error"

abbrev pub name_on_kafka_report : Bytes
name_on_kafka_report = codes "on_kafka_report"

module _ (m : Machine) where
  open m use {
    State, push_global, push_field, push_string, push_nil, push_log, push_report, push_handler, pop,
    function_at_top, function_at_one, call, protected_call,
  }

  -- The module and its field of the given name.
  abbrev pub push_hook : Bytes → State → State
  push_hook name s = push_field name (push_global name_module s)

  unfoldable pub push_on_tick : State → State × Option Bytes
  push_on_tick s =
      let t = push_hook name_on_tick s in
      if function_at_top t
      then (t, none)
      else (pop 1 t, some (codes "not defined in lua script: function logd.on_tick()"))

  unfoldable pub push_on_log : Log → State → State × Option Bytes
  push_on_log lg s =
      let t = push_hook name_on_log s in
      if function_at_top t
      then (push_log lg t, none)
      else (pop 1 t, some (codes "not defined in lua script: function logd.on_log (logptr)"))

  unfoldable pub call_on_error : Log → Bytes → State → Option State
  call_on_error lg err s =
      let t = push_hook name_on_error s in
      if function_at_top t
      then (do u ← call 2 0 (push_string err (push_log lg t)); some (pop 1 u))
      else none

  -- callProtected, behind ProtectedCall.
  unfoldable pub settle_call : Log → Bytes → State × CallError → Option (State × Option Bytes)
  unfolding call_on_error
  settle_call lg name (s, CallError.no_error) = some (s, none)
  settle_call lg name (s, CallError.other_error e) = some (s, some e)
  settle_call lg name (s, CallError.runtime_error e) = do
    t ← call_on_error lg (name ++ (codes " : " ++ e)) s
    some (t, none)

  unfoldable pub call_protected : Log → ℕ → ℕ → Bytes → State → Option (State × Option Bytes)
  unfolding settle_call
  call_protected lg args ret name s =
      if function_at_one s then settle_call lg name (protected_call args ret s) else none

  -- The deferred `Pop(1)`.
  abbrev pub pop_after : Option (State × Option Bytes) → Option (State × Option Bytes)
  pop_after none = none
  pop_after (some (s, e)) = some (pop 1 s, e)

  unfoldable pub tick_pushed : State × Option Bytes → Option (State × Option Bytes)
  tick_pushed (s, some e) = some (s, some e)
  tick_pushed (s, none) = do t ← call 0 0 s; some (t, none)

  unfoldable pub call_on_tick : State → Option (State × Option Bytes)
  unfolding tick_pushed push_on_tick
  call_on_tick s = pop_after (tick_pushed (push_on_tick s))

  unfoldable pub tick_pushed_protected : State × Option Bytes → Option (State × Option Bytes)
  unfolding call_protected
  tick_pushed_protected (s, some e) = some (s, some e)
  tick_pushed_protected (s, none) = call_protected new_log 0 0 name_on_tick s

  unfoldable pub call_protected_on_tick : State → Option (State × Option Bytes)
  unfolding tick_pushed_protected push_on_tick
  call_protected_on_tick s = pop_after (tick_pushed_protected (push_on_tick (push_handler s)))

  unfoldable pub log_pushed : State × Option Bytes → Option (State × Option Bytes)
  log_pushed (s, some e) = some (s, some e)
  log_pushed (s, none) = do t ← call 1 0 s; some (t, none)

  unfoldable pub call_on_log : Log → State → Option (State × Option Bytes)
  unfolding log_pushed push_on_log
  call_on_log lg s = pop_after (log_pushed (push_on_log lg s))

  unfoldable pub log_pushed_protected : Log → State × Option Bytes → Option (State × Option Bytes)
  unfolding call_protected
  log_pushed_protected lg (s, some e) = some (s, some e)
  log_pushed_protected lg (s, none) = call_protected lg 1 0 name_on_log s

  unfoldable pub protected_call_on_log : Log → State → Option (State × Option Bytes)
  unfolding log_pushed_protected push_on_log
  protected_call_on_log lg s = pop_after (log_pushed_protected lg (push_on_log lg (push_handler s)))

  -- CallOnSignal, with the number of the signal.
  unfoldable pub call_on_signal : ℕ → State → Option State
  unfolding signal_name
  call_on_signal n s =
      let t = push_hook name_on_signal s in
      if function_at_top t
      then (do u ← call 1 0 (push_string (signal_name signals n) t); some (pop 1 u))
      else none

  unfoldable pub hook_defined : Bytes → State → State × Bool
  hook_defined name s = let t = push_hook name s in (pop 2 t, function_at_top t)

  unfoldable pub call_on_http_error : (url method err : Bytes) → State → Option State
  call_on_http_error url method err s =
      let t = push_hook name_on_http_error s in
      if function_at_top t
      then (do
        u ← call 3 0 (push_string err (push_string method (push_string url t)))
        some (pop 1 u))
      else some (pop 1 (pop 1 t))

  -- The second argument of the report.
  unfoldable pub push_error : KafkaReport → Option Bytes → State → State
  push_error r none s = push_nil s
  push_error r (some e) s =
      push_string
        (codes "error when producing message to topic '"
          ++ (r.topic
              ++ (codes "' at partition "
                  ++ (r.partition ++ (codes " with offset " ++ (r.offset ++ (codes ": " ++ e)))))))
        s

  unfoldable pub call_on_kafka_report : KafkaReport → State → Option State
  unfolding push_error
  call_on_kafka_report r s =
      let t = push_hook name_on_kafka_report s in
      if function_at_top t
      then (do u ← call 2 0 (push_error r r.error (push_report r t)); some (pop 1 u))
      else some (pop 1 (pop 1 t))
