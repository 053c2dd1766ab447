-- ===== src/Lua/ConfigSet.antt =====
-- lua/builtin.go: luaSetConfig changes only what its key names.
use logd_go.Base.{
  subst, ap, ◌∙◌, ◌≡◌, refl, sym, Bool, not, ◌&&◌, Option, some, List, [], Bytes, equal_iff, ◌⊎◌,
  inl, inr, Bool-cases, Option-cases, ℤ, arith, has_prefix,
}
use logd_go.Http.Client.{NewRequest}
use logd_go.Http.System.{Action}
use logd_go.Lua.Machine.{Machine}
use logd_go.Lua.Hooks.{hook_defined, name_on_error}
use logd_go.Lua.Arguments.{Values, argument, get_arg_string, get_arg_bool, get_arg_int}
use logd_go.Lua.Kafka.{
  KafkaApi, Dynamic, set_kafka_config, kafka_prefix, trim_left, normalize_kafka_value,
}
use logd_go.Lua.Settings.{
  Setting, setting_of, Sandbox, Outcome, set_tick, set_http_timeout, set_http_channel_buffer,
  set_http_concurrency, with_argument, set_protected, settle_kafka, set_config_in, lua_set_config,
  config_tick, config_protected, config_http_concurrency, config_http_timeout,
  config_http_channel_buffer,
}
use logd_go.Lua.Frame.{
  Frame, InFrame, same-Frame, tick-Frame, timeout-Frame, concurrency-Frame, chan_buffer-Frame,
  kafka_config-Frame, kept-Frame, protected-Frame, init_again-InFrame, with_argument-InFrame,
}

-- The key of a setting.
abbrev pub key_of_setting : Setting → Bytes
key_of_setting Setting.protected = config_protected
key_of_setting Setting.tick = config_tick
key_of_setting Setting.http_concurrency = config_http_concurrency
key_of_setting Setting.http_timeout = config_http_timeout
key_of_setting Setting.http_channel_buffer = config_http_channel_buffer
key_of_setting Setting.other = []

-- A key that falls in a case other than the last one is that case's key.
setting_of-named :
    (k : Bytes) (c : Setting) → setting_of k ≡ c → (c ≡ Setting.other) ⊎ (k ≡ key_of_setting c)
unfolding setting_of
setting_of-named k c e = ground (
  arith,
  equal_iff k config_protected,
  equal_iff k config_tick,
  equal_iff k config_http_concurrency,
  equal_iff k config_http_timeout,
  equal_iff k config_http_channel_buffer,
)

abbrev IsKeyOf : Setting → Bytes → Type 0
IsKeyOf Setting.other k = Unit {0}
IsKeyOf c k = k ≡ key_of_setting c

named-IsKeyOf :
    (c : Setting) (k : Bytes) → (c ≡ Setting.other) ⊎ (k ≡ key_of_setting c) → IsKeyOf c k
named-IsKeyOf Setting.protected k e = ground (arith, e)
named-IsKeyOf Setting.tick k e = ground (arith, e)
named-IsKeyOf Setting.http_concurrency k e = ground (arith, e)
named-IsKeyOf Setting.http_timeout k e = ground (arith, e)
named-IsKeyOf Setting.http_channel_buffer k e = ground (arith, e)
named-IsKeyOf Setting.other k e = tt

module _ (m : Machine) (v : Values) (api : KafkaApi) (to_value : v.Value → Dynamic api.Float)
    (parse_duration : Bytes → Bytes ⊎ ℤ) (parse : Bytes → NewRequest) (schedule : List Action)
    (st : m.State) where
  protected-InFrame :
      {K : Type 0} (key : Bytes) (b : Bool) (sb : Sandbox K)
      → key ≡ config_protected
      → InFrame (hook_defined m name_on_error st).1 key sb (set_protected m st b sb)
  unfolding set_protected
  protected-InFrame key b sb n =
      let def = (hook_defined m name_on_error st).1 in
      elim (Bool-cases (b && not def)) [
        | inl k ↦ rw k (same-Frame def key sb)
        | inr k ↦ rw k (protected-Frame def key b sb n (ground (arith, k)))
      ]

  timeout-InFrame :
      {K : Type 0} (d : Bool) (key : Bytes) (r : Bytes ⊎ ℤ) (sb : Sandbox K)
      → key ≡ config_http_timeout
      → InFrame d key sb (set_http_timeout r sb)
  unfolding set_http_timeout
  timeout-InFrame d key (inl e) sb n = same-Frame d key sb
  timeout-InFrame d key (inr z) sb n = timeout-Frame d key z sb n

  kafka-InFrame :
      (d : Bool) (key : Bytes) (x : Dynamic api.Float) (sb : Sandbox api.ConfigMap)
      → InFrame d key sb (settle_kafka api key sb (set_kafka_config api key x sb.kafka_config))
  unfolding settle_kafka set_kafka_config
  kafka-InFrame d key x sb = elim (Bool-cases (has_prefix key kafka_prefix)) [
    | inl h ↦
        rw h
          (elim (Option-cases (
            api.set_key (trim_left key kafka_prefix) (normalize_kafka_value api x)
              sb.kafka_config)) [
                | inl k ↦ rw k tt
                | inr (c, k) ↦ rw k (kafka_config-Frame d key c sb h)
              ])
    | inr h ↦ rw h (kept-Frame d key sb)
  ]

  set_in-InFrame :
      (c : Setting) (key : Bytes) (xs : List v.Value) (sb : Sandbox api.ConfigMap)
      → IsKeyOf c key
      → InFrame
          (hook_defined m name_on_error st).1
          key
          sb
          (set_config_in m v api to_value parse_duration parse schedule st c key xs sb)
  unfolding set_config_in set_protected set_tick set_http_concurrency set_http_timeout
      set_http_channel_buffer
  set_in-InFrame Setting.protected key xs sb e =
      with_argument-InFrame _ key sb (get_arg_bool v 2 xs) _ (λ b. protected-InFrame key b sb e)
  set_in-InFrame Setting.tick key xs sb e =
      with_argument-InFrame _ key sb (get_arg_int v 2 xs) _ (λ z. tick-Frame _ key z sb e)
  set_in-InFrame Setting.http_concurrency key xs sb e =
      with_argument-InFrame _ key sb (get_arg_int v 2 xs) _
        (λ z. init_again-InFrame _ key sb parse schedule sb.http _ (concurrency-Frame _ key z sb e))
  set_in-InFrame Setting.http_timeout key xs sb e =
      with_argument-InFrame _ key sb (get_arg_string v 2 xs) _
        (λ s. timeout-InFrame _ key (parse_duration s) sb e)
  set_in-InFrame Setting.http_channel_buffer key xs sb e =
      with_argument-InFrame _ key sb (get_arg_int v 2 xs) _
        (λ z. init_again-InFrame _ key sb parse schedule sb.http _ (chan_buffer-Frame _ key z sb e))
  set_in-InFrame Setting.other key xs sb e = kafka-InFrame _ key (to_value (argument v 2 xs)) sb

  -- A call `config_set(key, x)` that returns, with an error or without one, changes the tick, the protected
  -- mode and each part of the configuration of HTTP only where the key is their own, and the configuration of
  -- Kafka only where the key begins with "kafka."; and it leaves the protected mode on only where the mode
  -- was on already or the script defines on_error.
  pub lua_set_config-Frame :
      (xs : List v.Value) (key : Bytes) (sb sb' : Sandbox api.ConfigMap) (e : Option Bytes)
      → get_arg_string v 1 xs ≡ some key
      → lua_set_config m v api to_value parse_duration parse schedule st xs sb
        ≡ Outcome.returned sb' e
      → Frame (hook_defined m name_on_error st).1 key sb sb'
  unfolding lua_set_config
  lua_set_config-Frame xs key sb sb' e a h =
      subst (InFrame _ key sb)
        (sym (
            ap
              (λ o. with_argument o (λ k.
                set_config_in m v api to_value parse_duration parse schedule st (setting_of k) k xs
                  sb))
              a)
          ∙ h)
        (set_in-InFrame (setting_of key) key xs sb
          (named-IsKeyOf (setting_of key) key (setting_of-named key (setting_of key) refl)))
