-- ===== src/Lua/Settings.antt =====
-- lua/config.go, and the setters of lua/lua.go, lua/http.go and lua/kafka.go that luaSetConfig of
-- lua/builtin.go calls.
use logd_go.Base.{
  ℕ, ◌+◌, Bool, true, false, not, ◌&&◌, Option, none, some, List, ◌∷◌, ◌++◌, Bytes, codes, equal,
  ◌⊎◌, inl, inr, ℤ, if◌then◌else◌,
}
use logd_go.Http.Config.{Config, validate_configuration}
use logd_go.Http.Client.{NewRequest}
use logd_go.Http.System.{System, Result, Action, is_idle}
use logd_go.Http.Delivery.{run_from}
use logd_go.Lua.Machine.{Machine}
use logd_go.Lua.Hooks.{hook_defined, name_on_error}
use logd_go.Lua.Arguments.{Values, argument, get_arg_string, get_arg_bool, get_arg_int}
use logd_go.Lua.Kafka.{KafkaApi, Dynamic, set_kafka_config}

abbrev pub config_tick : Bytes
config_tick = codes "tick"

abbrev pub config_protected : Bytes
config_protected = codes "protected"

abbrev pub config_http_concurrency : Bytes
config_http_concurrency = codes "http.concurrency"

abbrev pub config_http_timeout : Bytes
config_http_timeout = codes "http.timeout"

abbrev pub config_http_channel_buffer : Bytes
config_http_channel_buffer = codes "http.channel_buffer"

-- The cases of the `switch key` of luaSetConfig.
pub data Setting : Type 0 where
  protected tick http_concurrency http_timeout http_channel_buffer other : Setting

unfoldable pub setting_of : Bytes → Setting
setting_of key =
    if equal key config_protected
    then Setting.protected
    else if equal key config_tick
    then Setting.tick
    else if equal key config_http_concurrency
    then Setting.http_concurrency
    else if equal key config_http_timeout
    then Setting.http_timeout
    else if equal key config_http_channel_buffer
    then Setting.http_channel_buffer
    else Setting.other

-- The sandbox, with the configuration of Kafka as K. `http` is none while there is no client, and
-- `restarts` counts the goroutines that setTick has started to restart the ticker.
pub record Sandbox (K : Type 0) : Type 0 where
  pub tick : ℤ
  pub protected : Bool
  pub http_config : Config
  pub http : Option System
  pub kafka_config : K
  pub restarts : ℕ

-- What a setter comes to: it returns with the sandbox and its error, it panics, or it still waits for a
-- worker of the HTTP client.
pub data Outcome (K : Type 0) : Type 0 where
  returned : Sandbox K → Option Bytes → Outcome K
  panicked waiting : Outcome K

module _ {K : Type 0} where
  unfoldable pub set_tick : ℤ → Sandbox K → Outcome K
  set_tick z sb = Outcome.returned (record sb { tick = z; restarts = sb.restarts + 1 }) none

  unfoldable pub set_http_timeout : Bytes ⊎ ℤ → Sandbox K → Outcome K
  set_http_timeout (inl e) sb = Outcome.returned sb (some e)
  set_http_timeout (inr d) sb =
      Outcome.returned (record sb { http_config = record sb.http_config { timeout = d } }) none

  -- Init of the client, whose only error is that of the configuration.
  unfoldable pub initialised : Sandbox K → Result → Outcome K
  unfolding validate_configuration
  initialised sb (Result.running s) =
      if is_idle s.call
      then Outcome.returned (record sb { http = some s }) (validate_configuration sb.http_config)
      else Outcome.waiting
  initialised sb Result.panicked = Outcome.panicked
  initialised sb Result.disabled = Outcome.waiting

  module _ (parse : Bytes → NewRequest) (schedule : List Action) where
    -- The new configuration goes to the client, if there is one, through Init, whose steps and those of the
    -- workers are the schedule.
    unfoldable pub init_again : Option System → Sandbox K → Outcome K
    unfolding initialised
    init_again none sb = Outcome.returned sb none
    init_again (some s) sb =
        initialised sb (
          run_from parse (Action.call_init (some sb.http_config) true ∷ schedule)
            (Result.running s))

    unfoldable pub set_http_channel_buffer : ℤ → Sandbox K → Outcome K
    unfolding init_again
    set_http_channel_buffer c sb =
        init_again sb.http (record sb { http_config = record sb.http_config { chan_buffer = c } })

    unfoldable pub set_http_concurrency : ℤ → Sandbox K → Outcome K
    unfolding init_again
    set_http_concurrency c sb =
        init_again sb.http (record sb { http_config = record sb.http_config { concurrency = c } })

-- An argument that panics where the type is wrong.
abbrev pub with_argument {ℓ} : {K : Type 0} {A : Type ℓ} → Option A → (A → Outcome K) → Outcome K
with_argument none f = Outcome.panicked
with_argument (some a) f = f a

abbrev pub error_protected : Bytes
error_protected = codes "protected mode set but not defined: function logd.on_error (logptr, error)"

module _ (m : Machine) {K : Type 0} where
  unfoldable pub set_protected : m.State → Bool → Sandbox K → Outcome K
  unfolding hook_defined
  set_protected st enabled sb =
      if enabled && not (hook_defined m name_on_error st).1
      then Outcome.returned sb (some error_protected)
      else Outcome.returned (record sb { protected = enabled }) none

-- The end of the default case of luaSetConfig.
unfoldable pub settle_kafka :
    (api : KafkaApi)
    → Bytes
    → Sandbox api.ConfigMap
    → Option (api.ConfigMap × Bool)
    → Outcome api.ConfigMap
settle_kafka api key sb none = Outcome.panicked
settle_kafka api key sb (some (k, true)) = Outcome.returned (record sb { kafka_config = k }) none
settle_kafka api key sb (some (k, false)) =
    Outcome.returned (record sb { kafka_config = k })
      (some (
        codes "unknown config key in call to `config_set`: '"
        ++ (key
            ++ codes
                "'. Available keys: [tick protected http.concurrency http.timeout http.channel_buffer]")))

-- luaSetConfig, with `l.ToValue(2)` and `time.ParseDuration`.
module _ (m : Machine) (v : Values) (api : KafkaApi) (to_value : v.Value → Dynamic api.Float)
    (parse_duration : Bytes → Bytes ⊎ ℤ) (parse : Bytes → NewRequest) (schedule : List Action)
    (st : m.State) where
  unfoldable pub set_config_in :
      Setting → Bytes → List v.Value → Sandbox api.ConfigMap → Outcome api.ConfigMap
  unfolding set_protected set_tick set_http_concurrency set_http_timeout set_http_channel_buffer
      settle_kafka set_kafka_config
  set_config_in Setting.protected key xs sb =
      with_argument (get_arg_bool v 2 xs) (λ b. set_protected m st b sb)
  set_config_in Setting.tick key xs sb = with_argument (get_arg_int v 2 xs) (λ z. set_tick z sb)
  set_config_in Setting.http_concurrency key xs sb =
      with_argument (get_arg_int v 2 xs) (λ z. set_http_concurrency parse schedule z sb)
  set_config_in Setting.http_timeout key xs sb =
      with_argument (get_arg_string v 2 xs) (λ s. set_http_timeout (parse_duration s) sb)
  set_config_in Setting.http_channel_buffer key xs sb =
      with_argument (get_arg_int v 2 xs) (λ z. set_http_channel_buffer parse schedule z sb)
  set_config_in Setting.other key xs sb =
      settle_kafka api key sb
        (set_kafka_config api key (to_value (argument v 2 xs)) sb.kafka_config)

  unfoldable pub lua_set_config : List v.Value → Sandbox api.ConfigMap → Outcome api.ConfigMap
  unfolding set_config_in setting_of
  lua_set_config xs sb =
      with_argument (get_arg_string v 1 xs) (λ key. set_config_in (setting_of key) key xs sb)
