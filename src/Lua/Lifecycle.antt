-- ===== src/Lua/Lifecycle.antt =====
-- lua/lua.go: Init, Flush and Close of the sandbox, and its ticker.
use logd_go.Base.{
  ℕ, ◌+◌, ◌*◌, ◌-◌, ◌%◌, Bool, true, false, not, Option, none, some, List, ◌∷◌, Bytes, ltb, ℤ,
  ltb_int, if◌then◌else◌, ◌>>=◌,
}
use logd_go.Http.Config.{default_config}
use logd_go.Http.Client.{NewRequest}
use logd_go.Http.System.{System, Result, Action, is_idle}
use logd_go.Http.Delivery.{run_from}
use logd_go.Lua.Machine.{Machine}
use logd_go.Lua.Kafka.{KafkaApi, set_sane_kafka_defaults, flush_kafka}
use logd_go.Lua.Settings.{Sandbox, Outcome, set_protected}

-- The goroutine of the ticker: there is none, or it comes back to its `select`, or it never does, as when its
-- hook waits for a lock that the caller holds, or when it has panicked.
pub data Ticker : Type 0 where
  no_ticker running held : Ticker

-- The sandbox with its machine: whether the machine is there, the ticker, and whether there is
-- a producer.
pub record Life (K M : Type 0) : Type 0 where
  pub sandbox : Sandbox K
  pub machine : M
  pub script : Bytes
  pub ready : Bool
  pub ticker : Ticker
  pub producer : Bool

-- A method returns with its error, it panics, or it still waits for a worker of the HTTP client.
pub data Ending (K M : Type 0) : Type 0 where
  returned : Life K M → Option Bytes → Ending K M
  panicked waiting : Ending K M

-- `time.Duration(tick * 1000 * 1000)`, where the product wraps around.
abbrev pub tick_period : ℤ → ℤ
tick_period (ℤ.pos n) =
    let d = (1000000 * n) % 18446744073709551616 in
    if ltb d 9223372036854775808 then ℤ.pos d else ℤ.negsuc (18446744073709551615 - d)
tick_period (ℤ.negsuc n) =
    let d = (1000000 * n + 999999) % 18446744073709551616 in
    if ltb d 9223372036854775808 then ℤ.negsuc d else ℤ.pos (18446744073709551615 - d)

module _ {K M : Type 0} where
  abbrev pub ended : Option (Life K M) → Ending K M
  ended none = Ending.panicked
  ended (some l) = Ending.returned l none

  abbrev pub after_ending : Ending K M → (Life K M → Ending K M) → Ending K M
  after_ending (Ending.returned l e) f = f l
  after_ending Ending.panicked f = Ending.panicked
  after_ending Ending.waiting f = Ending.waiting

  -- The send on quitticker waits for the goroutine.
  unfoldable pub stop_in : Ticker → Life K M → Ending K M
  stop_in Ticker.no_ticker l = Ending.returned l none
  stop_in Ticker.running l = Ending.returned (record l { ticker = Ticker.no_ticker }) none
  stop_in Ticker.held l = Ending.waiting

  unfoldable pub stop_ticker : Life K M → Ending K M
  unfolding stop_in
  stop_ticker l = stop_in l.ticker l

  -- A goroutine is started. It begins with `time.NewTicker`, which panics there on a duration that is not
  -- positive, and so ends the program; the call returns.
  unfoldable pub run_ticker : Life K M → Life K M
  run_ticker l = record l { ticker = Ticker.running }

  abbrev pub ticker_panics : Life K M → Bool
  ticker_panics l = not (ltb_int (ℤ.pos 0) (tick_period l.sandbox.tick))

  unfoldable pub restart_ticker : Life K M → Ending K M
  unfolding run_ticker stop_ticker
  restart_ticker l = after_ending (stop_ticker l) (λ l'. Ending.returned (run_ticker l') none)

  -- Where the client has come to, behind its Flush or Close.
  http_done : (Option System → Life K M) → Result → Ending K M
  http_done f (Result.running s) =
      if is_idle s.call then Ending.returned (f (some s)) none else Ending.waiting
  http_done f Result.panicked = Ending.panicked
  http_done f Result.disabled = Ending.waiting

-- `flush` is the number of messages that the producer's Flush leaves, and the schedule has the steps of the
-- client.
module _ (api : KafkaApi) (M : Type 0) (flush : ℤ → ℕ) (parse : Bytes → NewRequest)
    (schedule : List Action) where
  abbrev pub flushed : Bool → Life api.ConfigMap M → Option (Life api.ConfigMap M)
  unfolding flush_kafka
  flushed false l = some l
  flushed true l = do u ← flush_kafka api flush l.sandbox.kafka_config; some l

  flush_http : Option System → Life api.ConfigMap M → Ending api.ConfigMap M
  unfolding http_done
  flush_http none l = Ending.returned l none
  flush_http (some s) l =
      http_done (λ o. record l { sandbox = record l.sandbox { http = o } })
        (run_from parse (Action.call_flush ∷ schedule) (Result.running s))

  unfoldable flush_all : Life api.ConfigMap M → Ending api.ConfigMap M
  unfolding flush_http
  flush_all l = after_ending (ended (flushed l.producer l)) (λ l'. flush_http l'.sandbox.http l')

  -- The client is dropped once its Close has returned.
  close_http : Option System → Life api.ConfigMap M → Ending api.ConfigMap M
  unfolding http_done
  close_http none l = Ending.returned l none
  close_http (some s) l =
      http_done (λ o. record l { sandbox = record l.sandbox { http = none } })
        (run_from parse (Action.call_close ∷ schedule) (Result.running s))

  abbrev pub not_ready : Life api.ConfigMap M → Ending api.ConfigMap M
  not_ready l = Ending.returned (record l { ready = false }) none

  unfoldable pub close : Life api.ConfigMap M → Ending api.ConfigMap M
  unfolding close_http stop_ticker
  close l = after_ending (ended (flushed l.producer l)) (λ a.
      after_ending (stop_ticker (record a { producer = false }))
        (λ b. after_ending (close_http b.sandbox.http b) not_ready))

  abbrev pub close_if : Bool → Life api.ConfigMap M → Ending api.ConfigMap M
  unfolding close
  close_if true l = close l
  close_if false l = Ending.returned l none

-- `cwd` is the error of `os.Getwd`, for a script with a relative path, and `load` runs the script on a fresh
-- machine: it gives the sandbox, the machine, the ticker that a config_set of the tick has started meanwhile,
-- and the error of `lua.DoFile`, or panics.
module _ (m : Machine) (api : KafkaApi) (flush : ℤ → ℕ) (parse : Bytes → NewRequest)
    (schedule : List Action) (cwd : Bytes → Option Bytes)
    (load : Bytes
      → Sandbox api.ConfigMap
      → Option (Sandbox api.ConfigMap × m.State × Ticker × Option Bytes)) where
  unfoldable pub protected_checked :
      Life api.ConfigMap m.State → Outcome api.ConfigMap → Ending api.ConfigMap m.State
  unfolding restart_ticker
  protected_checked l (Outcome.returned sb (some e)) = Ending.returned l (some e)
  protected_checked l (Outcome.returned sb none) = restart_ticker (record l { sandbox = sb })
  protected_checked l Outcome.panicked = Ending.panicked
  protected_checked l Outcome.waiting = Ending.waiting

  unfoldable pub check_protected : Life api.ConfigMap m.State → Ending api.ConfigMap m.State
  unfolding protected_checked set_protected
  check_protected l =
      if l.sandbox.protected
      then protected_checked l (set_protected m l.machine true l.sandbox)
      else restart_ticker l

  unfoldable pub loaded :
      Life api.ConfigMap m.State
      → Option (Sandbox api.ConfigMap × m.State × Ticker × Option Bytes)
      → Ending api.ConfigMap m.State
  unfolding check_protected
  loaded l none = Ending.panicked
  loaded l (some (sb, st, t, some e)) =
      Ending.returned (record l { sandbox = sb; machine = st; ticker = t }) (some e)
  loaded l (some (sb, st, t, none)) =
      check_protected (record l { sandbox = sb; machine = st; ticker = t })

  -- The fresh configuration; the tick and the protected mode stay as they were.
  abbrev pub fresh : Sandbox api.ConfigMap → Sandbox api.ConfigMap
  unfolding set_sane_kafka_defaults
  fresh sb = record sb {
    http_config = default_config;
    kafka_config = set_sane_kafka_defaults api api.new_map;
  }

  unfoldable pub in_directory :
      Option Bytes → Life api.ConfigMap m.State → Ending api.ConfigMap m.State
  unfolding loaded
  in_directory (some e) l = Ending.returned l (some e)
  in_directory none l = loaded l (load l.script l.sandbox)

  unfoldable pub init : Bytes → Life api.ConfigMap m.State → Ending api.ConfigMap m.State
  unfolding in_directory close_if fresh
  init script l = after_ending (close_if api m.State flush parse schedule l.ready l) (λ a.
      in_directory (cwd script)
        (record a { sandbox = fresh a.sandbox; script = script; ready = true }))
