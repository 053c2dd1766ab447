-- ===== src/Lua/Kafka.antt =====
-- lua/kafka.go: the configuration of the Kafka producer, and the messages that a script builds.
use logd_go.Base.{
  ℕ, ◌+◌, ◌*◌, ◌-◌, ◌%◌, Bool, true, false, Option, none, some, List, [], ◌∷◌, Bytes, codes, ◌==◌,
  ltb, ◌||◌, has_prefix, ℤ, if◌then◌else◌, ◌>>=◌,
}

-- A value of the configuration: string, bool, int, the settings of the topics, or any other.
pub data ConfigValue : Type 0 where
  string : Bytes → ConfigValue
  bool : Bool → ConfigValue
  int : ℤ → ConfigValue
  topics : List (Bytes × ℤ) → ConfigValue
  other : ConfigValue

-- `kafka.ConfigMap` of confluent-kafka-go, and Go's floating-point numbers. `set_key` is none where SetKey
-- gives an error. `get key def` is the value of the key, `def` if there is none, and none where Get gives an
-- error, as it does for a value of another type than `def`.
pub record KafkaApi : Type 1 where
  pub ConfigMap : Type 0
  pub new_map : ConfigMap
  pub set_key : Bytes → ConfigValue → ConfigMap → Option ConfigMap
  pub get : Bytes → ConfigValue → ConfigMap → Option ConfigValue
  pub Float : Type 0
  -- `int(x)`
  pub int_of : Float → ℤ

-- The dynamic types that `normalizeKafkaValue` tells apart.
pub data Dynamic (F : Type 0) : Type 0 where
  float64 float32 : F → Dynamic F
  int64 int32 : ℤ → Dynamic F
  default : ConfigValue → Dynamic F

-- `strings.TrimLeft` with a cutset of ASCII characters.
abbrev pub in_cutset : Bytes → ℕ → Bool
in_cutset [] c = false
in_cutset (d ∷ ds) c = (c == d) || in_cutset ds c

unfoldable pub trim_left : Bytes → Bytes → Bytes
trim_left [] cutset = []
trim_left (c ∷ s) cutset = if in_cutset cutset c then trim_left s cutset else c ∷ s

abbrev pub kafka_prefix : Bytes
kafka_prefix = codes "kafka."

-- `v * 2` on a 64-bit int, which wraps around.
abbrev pub double_int : ℤ → ℤ
double_int (ℤ.pos n) =
    let d = (2 * n) % 18446744073709551616 in
    if ltb d 9223372036854775808 then ℤ.pos d else ℤ.negsuc (18446744073709551615 - d)
double_int (ℤ.negsuc n) =
    let d = (2 * n + 1) % 18446744073709551616 in
    if ltb d 9223372036854775808 then ℤ.negsuc d else ℤ.pos (18446744073709551615 - d)

module _ (api : KafkaApi) where
  open api use {ConfigMap, new_map, set_key, get, Float, int_of}

  unfoldable pub normalize_kafka_value : Dynamic Float → ConfigValue
  normalize_kafka_value (Dynamic.float64 x) = ConfigValue.int (int_of x)
  normalize_kafka_value (Dynamic.float32 x) = ConfigValue.int (int_of x)
  normalize_kafka_value (Dynamic.int64 z) = ConfigValue.int z
  normalize_kafka_value (Dynamic.int32 z) = ConfigValue.int z
  normalize_kafka_value (Dynamic.default x) = x

  -- The configuration, and whether the key was one of Kafka's; none is the panic on an error of SetKey.
  unfoldable pub set_kafka_config : Bytes → Dynamic Float → ConfigMap → Option (ConfigMap × Bool)
  unfolding normalize_kafka_value trim_left
  set_kafka_config key value cfg =
      if has_prefix key kafka_prefix
      then (do
        cfg' ← set_key (trim_left key kafka_prefix) (normalize_kafka_value value) cfg
        some (cfg', true))
      else some (cfg, false)

  -- A call of SetKey whose error is not looked at.
  abbrev pub or_same : ConfigMap → Option ConfigMap → ConfigMap
  or_same cfg none = cfg
  or_same cfg (some cfg') = cfg'

  abbrev pub try_set_key : Bytes → ConfigValue → ConfigMap → ConfigMap
  try_set_key key value cfg = or_same cfg (set_key key value cfg)

  abbrev pub kafka_default_request_timeout : ℤ
  kafka_default_request_timeout = ℤ.pos 5000

  abbrev pub kafka_default_message_timeout : ℤ
  kafka_default_message_timeout = double_int kafka_default_request_timeout

  unfoldable pub set_sane_kafka_defaults : ConfigMap → ConfigMap
  set_sane_kafka_defaults c0 =
      let c1 = try_set_key (codes "go.batch.producer") (ConfigValue.bool false) c0 in
      let c2 = try_set_key (codes "go.delivery.reports") (ConfigValue.bool true) c1 in
      let c3 = try_set_key (codes "go.events.channel.size") (ConfigValue.int (ℤ.pos 100)) c2 in
      let c4 = try_set_key (codes "go.produce.channel.size") (ConfigValue.int (ℤ.pos 100)) c3 in
      let c5 =
        try_set_key (codes "queue.buffering.max.messages") (ConfigValue.int (ℤ.pos 10000)) c4 in
      let c6 = try_set_key (codes "socket.timeout.ms") (ConfigValue.int (ℤ.pos 5000)) c5 in
      try_set_key (codes "default.topic.config")
        (ConfigValue.topics (
          (codes "request.required.acks", ℤ.pos 1)
          ∷ (codes "request.timeout.ms", kafka_default_request_timeout)
          ∷ (codes "message.timeout.ms", kafka_default_message_timeout)
          ∷ []))
        c6

  -- `v.(int) * 2`
  twice : ConfigValue → Option ℤ
  twice (ConfigValue.int z) = some (double_int z)
  twice _ = none

  get_flush_timeout : ConfigMap → Option ℤ
  unfolding twice
  get_flush_timeout cfg = do
    v ← get (codes "message.timeout.ms") (ConfigValue.int kafka_default_message_timeout) cfg
    twice v

  -- flushKafka, with the number of messages that the producer's `Flush(timeout)` leaves.
  unfoldable pub flush_kafka : (ℤ → ℕ) → ConfigMap → Option (Unit {0})
  unfolding get_flush_timeout
  flush_kafka flush cfg = do
    timeout ← get_flush_timeout cfg
    if ltb 0 (flush timeout) then none else some tt
