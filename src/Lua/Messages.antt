-- ===== src/Lua/Messages.antt =====
-- lua/kafka.go: the functions of the module on messages and offsets of Kafka.
use logd_go.Base.{
  ℕ, ◌-◌, ◌%◌, Bool, Option, none, some, List, [], ◌∷◌, ◌++◌, Bytes, ltb, is_empty, ◌⊎◌, inl, inr,
  ℤ, if◌then◌else◌, ◌>>=◌,
}
use logd_go.Lua.Arguments.{Values, argument, get_arg_string, get_arg_int}

-- `kafka.Message` as kafka_message fills it; a key or value of nil is none.
pub record Message : Type 0 where
  pub topic : Bytes
  pub partition : ℤ
  pub offset : ℤ
  pub key : Option Bytes
  pub value : Option Bytes

-- What `ToUserData` gives where an offset is expected.
pub data UserOffset : Type 0 where
  offset : ℤ → UserOffset
  no_user_data other_user_data : UserOffset

-- The user data of Kafka among the values of the machine.
pub record KafkaData (V : Type 0) : Type 0 where
  pub of_message : Message → V
  pub of_offset : ℤ → V
  pub to_message : V → Option Message
  pub to_offset : V → UserOffset

-- `int32(n)`
abbrev pub to_int32 : ℤ → ℤ
to_int32 (ℤ.pos n) =
    let d = n % 4294967296 in if ltb d 2147483648 then ℤ.pos d else ℤ.negsuc (4294967295 - d)
to_int32 (ℤ.negsuc n) =
    let d = n % 4294967296 in if ltb d 2147483648 then ℤ.negsuc d else ℤ.pos (4294967295 - d)

-- A nil slice for the empty text.
abbrev pub bytes_or_nil : Bytes → Option Bytes
bytes_or_nil s = if is_empty s then none else some s

-- The offset of an argument: the zero offset where there is no user data.
offset_in : UserOffset → Option ℤ
offset_in (UserOffset.offset z) = some z
offset_in UserOffset.no_user_data = some (ℤ.pos 0)
offset_in UserOffset.other_user_data = none

-- The producer of the sandbox: the lock, and the messages on its channel, once there is one.
pub record Producing : Type 0 where
  pub locked : Bool
  pub produced : Option (List Message)

module _ (v : Values) (k : KafkaData v.Value) where
  open v use {Value, nil, of_string}
  open k use {of_message, of_offset, to_message, to_offset}

  get_arg_kafka_offset : ℕ → List Value → Option ℤ
  unfolding offset_in
  get_arg_kafka_offset i xs = offset_in (to_offset (argument v i xs))

  abbrev pub get_arg_kafka_message : ℕ → List Value → Option Message
  get_arg_kafka_message i xs = to_message (argument v i xs)

  unfoldable lua_kafka_message : List Value → Option (List Value)
  unfolding get_arg_kafka_offset
  lua_kafka_message xs = do
    key ← get_arg_string v 1 xs
    value ← get_arg_string v 2 xs
    topic ← get_arg_string v 3 xs
    partition ← get_arg_int v 4 xs
    o ← get_arg_kafka_offset 5 xs
    some (
        of_message (record {
          topic = topic;
          partition = to_int32 partition;
          offset = o;
          key = bytes_or_nil key;
          value = bytes_or_nil value;
        })
        ∷ [])

  abbrev pub offset_results : Bytes ⊎ ℤ → List Value
  offset_results (inl e) = nil ∷ of_string e ∷ []
  offset_results (inr z) = of_offset z ∷ nil ∷ []

  -- With `kafka.NewOffset`.
  unfoldable lua_kafka_offset : (Bytes → Bytes ⊎ ℤ) → List Value → Option (List Value)
  lua_kafka_offset new_offset xs = do
    name ← get_arg_string v 1 xs
    some (offset_results (new_offset name))

  -- The producer that initKafka makes, unless `kafka.NewProducer` fails, which is a panic here.
  abbrev pub ensure_producer : Bool → Option (List Message) → Option (List Message)
  ensure_producer fails (some ms) = some ms
  ensure_producer fails none = if fails then none else some []

  -- Behind the send the lock is taken again; `Unlock` of a mutex that is not locked is a fatal error.
  unfoldable lua_kafka_produce : Bool → List Value → Producing → Option Producing
  lua_kafka_produce fails xs p = do
    m ← get_arg_kafka_message 1 xs
    ms ← ensure_producer fails p.produced
    if p.locked then some (record p { produced = some (ms ++ m ∷ []) }) else none
