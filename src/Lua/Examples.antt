-- ===== src/Lua/Examples.antt =====
-- lua/: values and a configuration of Kafka to run the functions of the module on, and runs on them.
use logd_go.Base.{
  ◌↔◌, ℕ, ◌≡◌, refl, Bool, true, false, Option, none, some, List, [], ◌∷◌, Bytes, codes, equal, inl,
  ℤ, if◌then◌else◌,
}
use logd_go.Log.{new_log, get, classify}
use logd_go.Http.Config.{default_config}
use logd_go.Http.Client.{NewRequest, post}
use logd_go.Http.System.{System, Action, Call}
use logd_go.Http.Delivery.{run_from}
use logd_go.Http.Liveness.{AllInner}
use logd_go.Http.Examples.{posted-IsReady, answered_system}
use logd_go.Http.Witnesses.{ok, plain, two_workers, posted_system}
use logd_go.Lua.Post.{Poster, PostOutcome, post_failure, lua_http_post}
use logd_go.Lua.Post.Returns.{lua_http_post-returns}
use logd_go.Lua.Arguments.{Values}
use logd_go.Lua.Builtins.{Store, Builtin, call_builtin}
use logd_go.Lua.Kafka.{
  set_sane_kafka_defaults, ConfigValue, KafkaApi, Dynamic, set_kafka_config, normalize_kafka_value,
}
use logd_go.Lua.Settings.{Sandbox, lua_set_config}
use logd_go.Lua.Path.{is_abs, clean, package_pattern, IsRooted, package_pattern-IsRooted}
use logd_go.Lua.Script.{log_set-log_get}
use logd_go.Lua.KafkaKey.{set_kafka_config-key}
use logd_go.Lua.Frame.{Frame}
use logd_go.Lua.ConfigSet.{lua_set_config-Frame}
use logd_go.Lua.Lifecycle.{Ticker, Life, Ending, init}
use logd_go.Lua.Start.{Starts, init-Starts}
use logd_go.Lua.Running.{IsRunning, init-IsRunning}
use logd_go.Lua.Witnesses.{Stack, failing}

data Datum : Type 0 where
  nothing : Datum
  text : Bytes → Datum
  truth : Bool → Datum
  number : ℤ → Datum
  log : ℕ → Datum

abbrev text_of : Datum → Option Bytes
text_of (text s) = some s
text_of _ = none

abbrev number_of : Datum → Option ℤ
number_of (number z) = some z
number_of _ = none

abbrev truth_of : Datum → Bool
truth_of nothing = false
truth_of (truth b) = b
truth_of _ = true

abbrev is_truth : Datum → Bool
is_truth (truth b) = true
is_truth _ = false

abbrev log_of : Datum → Option ℕ
log_of (log p) = some p
log_of _ = none

abbrev data_values : Values
data_values = record {
  Value = Datum;
  nil = nothing;
  of_string = text;
  of_boolean = truth;
  to_string = text_of;
  to_integer = number_of;
  to_boolean = truth_of;
  is_boolean = is_truth;
  to_log = log_of;
  to_string-of_string = λ s. refl;
}

abbrev lookup : Bytes → ConfigValue → List (Bytes × ConfigValue) → Option ConfigValue
lookup key def [] = some def
lookup key def ((k, x) ∷ xs) = let rest = lookup key def xs in if equal k key then some x else rest

abbrev kafka_map : KafkaApi
kafka_map = record {
  ConfigMap = List (Bytes × ConfigValue);
  new_map = [];
  set_key = λ k x c. some ((k, x) ∷ c);
  get = lookup;
  Float = ℤ;
  int_of = λ z. z;
}

abbrev logs : Store
logs p = new_log

log_set-log_get_example :
    (st' : Store) × (call_builtin data_values Builtin.log_set
        (log 0 ∷ text (codes "user") ∷ text (codes "ann") ∷ [])
        logs
      ≡ some (st', truth false ∷ []))
    × (call_builtin data_values Builtin.log_get (log 0 ∷ text (codes "user") ∷ []) st'
        ≡ some (st', text (codes "ann") ∷ []))
unfolding get classify equal
log_set-log_get_example =
    log_set-log_get data_values logs (log 0) (text (codes "user")) (text (codes "ann")) (log 0)
      (text (codes "user")) 0 0 (codes "user") (codes "ann") (codes "user") refl refl refl refl refl
      (λ e. cc) (λ e. cc)

set_kafka_config-key_example :
    (t : Bytes) × (set_kafka_config kafka_map
        (codes "kafka.api.version.request")
        (Dynamic.default (ConfigValue.bool true))
        []
      ≡ some ((t, ConfigValue.bool true) ∷ [], true))
    × (equal t (codes "api.version.request") ≡ false)
unfolding normalize_kafka_value
set_kafka_config-key_example =
    set_kafka_config-key kafka_map (codes "api.version.request")
      (Dynamic.default (ConfigValue.bool true)) []

abbrev sandbox : Sandbox (List (Bytes × ConfigValue))
sandbox = record {
  tick = ℤ.pos 0;
  protected = false;
  http_config = default_config;
  http = none;
  kafka_config = [];
  restarts = 0;
}

abbrev ticking : Sandbox (List (Bytes × ConfigValue))
ticking = record sandbox { tick = ℤ.pos 50; restarts = 1 }

abbrev number_only : Datum → Dynamic ℤ
number_only (number z) = Dynamic.int64 z
number_only _ = Dynamic.default ConfigValue.other

lua_set_config-Frame_example : Frame true (codes "tick") sandbox ticking
unfolding lua_set_config equal
lua_set_config-Frame_example =
    lua_set_config-Frame failing data_values kafka_map number_only (λ s. inl s)
      (λ u. NewRequest.parsed u) [] [] (text (codes "tick") ∷ number (ℤ.pos 50) ∷ []) (codes "tick")
      sandbox ticking none refl refl

abbrev poster : Poster
poster = record { locked = true; http_config = two_workers; http = some posted_system }

abbrev post_arguments : List Datum
post_arguments = text (codes "http://a") ∷ text (codes "x") ∷ text (codes "text/plain") ∷ []

-- Post is at its send, and a worker has had an answer.
abbrev sending_system : System
sending_system = record answered_system {
  call =
      Call.sending
        (record {
          url = codes "http://a";
          content_type = codes "text/plain";
          payload = codes "x";
          timeout = two_workers.timeout;
        })
        0;
}

lua_http_post-returns_example :
    (more : List Action) × AllInner more
    × (s' : System) × (s'.call ≡ Call.idle)
    × (lua_http_post plain false (Action.responds 0 ok ∷ more) data_values post_arguments poster
        ≡ PostOutcome.ended (record poster { http = some s' }) none)
unfolding post_failure post run_from
lua_http_post-returns_example =
    lua_http_post-returns plain data_values post_arguments poster posted_system sending_system
      (codes "http://a") (codes "x") (codes "text/plain") (Action.responds 0 ok ∷ []) refl refl refl
      refl refl posted-IsReady refl (refl, tt) refl

abbrev closed_life : Life (List (Bytes × ConfigValue)) Stack
closed_life = record {
  sandbox = sandbox;
  machine = [];
  script = [];
  ready = false;
  ticker = Ticker.no_ticker;
  producer = false;
}

-- A script that sets the tick.
abbrev load_ticking :
    Bytes
    → Sandbox (List (Bytes × ConfigValue))
    → Option (Sandbox (List (Bytes × ConfigValue)) × Stack × Ticker × Option Bytes)
load_ticking script sb = some (record sb { tick = ℤ.pos 50 }, [], Ticker.no_ticker, none)

abbrev open_life : Life (List (Bytes × ConfigValue)) Stack
open_life = record {
  sandbox = record sandbox { tick = ℤ.pos 50; kafka_config = set_sane_kafka_defaults kafka_map [] };
  machine = [];
  script = codes "s.lua";
  ready = true;
  ticker = Ticker.running;
  producer = false;
}

init-IsRunning_example : IsRunning failing open_life
unfolding init
init-IsRunning_example =
    init-IsRunning failing kafka_map (λ z. 0) plain [] (λ s. none) load_ticking (codes "s.lua")
      closed_life open_life refl

init-Starts_example :
    (init failing kafka_map (λ z. 0) plain [] (λ s. none) load_ticking (codes "s.lua") closed_life
      ≡ Ending.returned open_life none)
    ↔ Starts failing kafka_map
        (λ z. 0)
        plain
        []
        (λ s. none)
        load_ticking
        (codes "s.lua")
        closed_life
        open_life
init-Starts_example =
    init-Starts failing kafka_map (λ z. 0) plain [] (λ s. none) load_ticking (codes "s.lua")
      closed_life open_life refl

package_pattern-relative :
    package_pattern (codes "../etc/./main.lua") (codes "/home/u") ≡ codes "/home/etc/?.lua"
unfolding package_pattern clean is_abs equal
package_pattern-relative = refl

package_pattern-IsRooted_example :
    IsRooted (package_pattern (codes "/s/../etc//main.lua") (codes "tmp"))
package_pattern-IsRooted_example =
    package_pattern-IsRooted (codes "/s/../etc//main.lua") (codes "tmp")
      (inl (unfold is_abs in refl))
