-- ===== src/Lua/Frame.antt =====
-- lua/builtin.go: the parts of the configuration that a call of luaSetConfig leaves as they are.
use logd_go.Base.{
  ◌+◌, ◌≡◌, refl, Bool, true, false, Option, none, some, List, Bytes, ◌⊎◌, inl, inr, Bool-cases, ℤ,
  arith, has_prefix,
}
use logd_go.Http.Client.{NewRequest}
use logd_go.Http.System.{System, Result, Action, is_idle}
use logd_go.Lua.Kafka.{kafka_prefix}
use logd_go.Lua.Settings.{
  Sandbox, Outcome, initialised, init_again, with_argument, config_tick, config_protected,
  config_http_concurrency, config_http_timeout, config_http_channel_buffer,
}

-- The sandbox after luaSetConfig with the key: the tick, the protected mode and each part of the configuration
-- of HTTP are changed by their own key only, and Kafka's configuration only by a key that begins with
-- "kafka."; the protected mode is not switched on without a handler of errors.
pub record Frame {K : Type 0} (defined : Bool) (key : Bytes) (sb sb' : Sandbox K) : Type 0 where
  pub tick : (key ≡ config_tick) ⊎ (sb'.tick ≡ sb.tick)
  pub protected : (key ≡ config_protected) ⊎ (sb'.protected ≡ sb.protected)
  pub concurrency :
      (key ≡ config_http_concurrency) ⊎ (sb'.http_config.concurrency ≡ sb.http_config.concurrency)
  pub timeout : (key ≡ config_http_timeout) ⊎ (sb'.http_config.timeout ≡ sb.http_config.timeout)
  pub chan_buffer :
      (key ≡ config_http_channel_buffer)
      ⊎ (sb'.http_config.chan_buffer ≡ sb.http_config.chan_buffer)
  pub kafka_config : (has_prefix key kafka_prefix ≡ true) ⊎ (sb'.kafka_config ≡ sb.kafka_config)
  pub guarded : (sb'.protected ≡ false) ⊎ ((sb.protected ≡ true) ⊎ (defined ≡ true))

pub same-Frame : {K : Type 0} (d : Bool) (key : Bytes) (sb : Sandbox K) → Frame d key sb sb
same-Frame d key sb = record {
  tick = inr refl;
  protected = inr refl;
  concurrency = inr refl;
  timeout = inr refl;
  chan_buffer = inr refl;
  kafka_config = inr refl;
  guarded = ground arith;
}

-- The outcome, where it is a return, keeps to the frame.
abbrev pub InFrame : {K : Type 0} → Bool → Bytes → Sandbox K → Outcome K → Type 0
InFrame d key sb (Outcome.returned sb' e) = Frame d key sb sb'
InFrame d key sb Outcome.panicked = Unit {0}
InFrame d key sb Outcome.waiting = Unit {0}

module _ {K : Type 0} (d : Bool) (key : Bytes) where
  pub tick-Frame :
      (z : ℤ) (sb : Sandbox K)
      → key ≡ config_tick
      → Frame d key sb (record sb { tick = z; restarts = sb.restarts + 1 })
  tick-Frame z sb n = record {
    tick = inl n;
    protected = inr refl;
    concurrency = inr refl;
    timeout = inr refl;
    chan_buffer = inr refl;
    kafka_config = inr refl;
    guarded = ground arith;
  }

  pub timeout-Frame :
      (z : ℤ) (sb : Sandbox K)
      → key ≡ config_http_timeout
      → Frame d key sb (record sb { http_config = record sb.http_config { timeout = z } })
  timeout-Frame z sb n = record {
    tick = inr refl;
    protected = inr refl;
    concurrency = inr refl;
    timeout = inl n;
    chan_buffer = inr refl;
    kafka_config = inr refl;
    guarded = ground arith;
  }

  pub concurrency-Frame :
      (z : ℤ) (sb : Sandbox K)
      → key ≡ config_http_concurrency
      → Frame d key sb (record sb { http_config = record sb.http_config { concurrency = z } })
  concurrency-Frame z sb n = record {
    tick = inr refl;
    protected = inr refl;
    concurrency = inl n;
    timeout = inr refl;
    chan_buffer = inr refl;
    kafka_config = inr refl;
    guarded = ground arith;
  }

  pub chan_buffer-Frame :
      (z : ℤ) (sb : Sandbox K)
      → key ≡ config_http_channel_buffer
      → Frame d key sb (record sb { http_config = record sb.http_config { chan_buffer = z } })
  chan_buffer-Frame z sb n = record {
    tick = inr refl;
    protected = inr refl;
    concurrency = inr refl;
    timeout = inr refl;
    chan_buffer = inl n;
    kafka_config = inr refl;
    guarded = ground arith;
  }

  pub kafka_config-Frame :
      (z : K) (sb : Sandbox K)
      → has_prefix key kafka_prefix ≡ true
      → Frame d key sb (record sb { kafka_config = z })
  kafka_config-Frame z sb n = record {
    tick = inr refl;
    protected = inr refl;
    concurrency = inr refl;
    timeout = inr refl;
    chan_buffer = inr refl;
    kafka_config = inl n;
    guarded = ground arith;
  }

  pub kept-Frame : (sb : Sandbox K) → Frame d key sb (record sb { kafka_config = sb.kafka_config })
  kept-Frame sb = same-Frame d key sb

  pub protected-Frame :
      (z : Bool) (sb : Sandbox K)
      → key ≡ config_protected
      → (z ≡ false) ⊎ (d ≡ true)
      → Frame d key sb (record sb { protected = z })
  protected-Frame z sb n g = record {
    tick = inr refl;
    protected = inl n;
    concurrency = inr refl;
    timeout = inr refl;
    chan_buffer = inr refl;
    kafka_config = inr refl;
    guarded = ground (arith, g);
  }

module _ {K : Type 0} (d : Bool) (key : Bytes) (sb0 : Sandbox K) where
  Frame-http :
      (sb : Sandbox K) (h : Option System)
      → Frame d key sb0 sb
      → Frame d key sb0 (record sb { http = h })
  Frame-http sb h f = record {
    tick = f.tick;
    protected = f.protected;
    concurrency = f.concurrency;
    timeout = f.timeout;
    chan_buffer = f.chan_buffer;
    kafka_config = f.kafka_config;
    guarded = f.guarded;
  }

  initialised-InFrame :
      (sb : Sandbox K) (r : Result) → Frame d key sb0 sb → InFrame d key sb0 (initialised sb r)
  unfolding initialised
  initialised-InFrame sb Result.panicked f = tt
  initialised-InFrame sb Result.disabled f = tt
  initialised-InFrame sb (Result.running s) f = elim (Bool-cases (is_idle s.call)) [
    | inl k ↦ rw k (Frame-http sb (some s) f)
    | inr k ↦ rw k tt
  ]

  pub init_again-InFrame :
      (parse : Bytes → NewRequest) (schedule : List Action) (h : Option System) (sb : Sandbox K)
      → Frame d key sb0 sb
      → InFrame d key sb0 (init_again parse schedule h sb)
  unfolding init_again
  init_again-InFrame parse schedule none sb f = f
  init_again-InFrame parse schedule (some s) sb f = initialised-InFrame sb _ f

  pub with_argument-InFrame {ℓ} :
      {A : Type ℓ} (a : Option A) (f : A → Outcome K)
      → ((x : A) → InFrame d key sb0 (f x))
      → InFrame d key sb0 (with_argument a f)
  with_argument-InFrame none f h = tt
  with_argument-InFrame (some x) f h = h x
