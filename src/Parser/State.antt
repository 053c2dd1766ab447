-- ===== src/Parser/State.antt =====
-- logging/parse.go: the states, and the parser. `none` is a Go panic (a slice expression or an index out
-- of range). The handlers get `&p.current` as their `log`, so both are the field `current` here; a
-- `*string` into it is named by a `Field`.
use logd_go.Base.{ℕ, Option, Bytes, slice}
use logd_go.Log.{Log}

pub data State : Type 0 where
  date_state time_state transition_level_state level_state : State
  transition_thread_state thread_state thread_bracket_state thread_no_bracket_state : State
  transition_class_state class_state transition_call_type_state call_type_state : State
  verify_call_type_state key_state multi_key_state value_state error_state : State

-- `state++`, in the order of the constants. The parser never increments the last one.
unfoldable pub next_state : State → State
next_state date_state = time_state
next_state time_state = transition_level_state
next_state transition_level_state = level_state
next_state level_state = transition_thread_state
next_state transition_thread_state = thread_state
next_state thread_state = thread_bracket_state
next_state thread_bracket_state = thread_no_bracket_state
next_state thread_no_bracket_state = transition_class_state
next_state transition_class_state = class_state
next_state class_state = transition_call_type_state
next_state transition_call_type_state = call_type_state
next_state call_type_state = verify_call_type_state
next_state verify_call_type_state = key_state
next_state key_state = multi_key_state
next_state multi_key_state = value_state
next_state value_state = error_state
next_state error_state = error_state

pub record Parser : Type 0 where
  pub state : State
  pub start : ℕ
  pub end : ℕ
  pub raw : Bytes
  pub current : Log

-- `p.raw[p.start:p.end]`
abbrev pub piece : Parser → Option Bytes
piece p = slice p.raw p.start p.end

-- The fields whose address the handlers get.
pub data Field : Type 0 where
  date time level thread class : Field

unfoldable pub put_field : Field → Bytes → Log → Log
put_field Field.date v l = record l { date = v }
put_field Field.time v l = record l { time = v }
put_field Field.level v l = record l { level = v }
put_field Field.thread v l = record l { thread = v }
put_field Field.class v l = record l { class = v }
