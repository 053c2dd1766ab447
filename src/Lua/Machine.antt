-- ===== src/Lua/Machine.antt =====
-- The Lua machine that lua/ drives (github.com/Shopify/go-lua): the operations that the sandbox calls on
-- its stack, and what the documentation of each says about the height of the stack.
use logd_go.Base.{ℕ, suc, ◌+◌, ◌-◌, ◌<◌, ◌≡◌, Bool, Option, some, Bytes}
use logd_go.Log.{Log}

-- A result of `kafka.Message`: the error of its delivery, with topic, partition and offset as text.
pub record KafkaReport : Type 0 where
  pub topic : Bytes
  pub partition : Bytes
  pub offset : Bytes
  pub error : Option Bytes

-- What `ProtectedCall` returns: nothing, a runtime error, or another error.
pub data CallError : Type 0 where
  no_error : CallError
  runtime_error other_error : Bytes → CallError

-- How many values `ProtectedCall` leaves for `ret` results: with an error, its message.
abbrev pub left_by : CallError → ℕ → ℕ
left_by CallError.no_error ret = ret
left_by (CallError.runtime_error e) ret = 1
left_by (CallError.other_error e) ret = 1

pub record Machine : Type 1 where
  pub State : Type 0
  pub top : State → ℕ
  -- `Global(name)`, `Field(-1, name)`, `PushString`, `PushNil`, `PushUserData` of a log and of a report, and `PushGoFunction`.
  pub push_global : Bytes → State → State
  pub push_field : Bytes → State → State
  pub push_string : Bytes → State → State
  pub push_nil : State → State
  pub push_log : Log → State → State
  pub push_report : KafkaReport → State → State
  pub push_handler : State → State
  pub pop : ℕ → State → State
  -- `IsFunction(-1)` and `IsFunction(1)`.
  pub function_at_top : State → Bool
  pub function_at_one : State → Bool
  -- `Call(args, ret)`: none is the panic by which an error in the script leaves it.
  pub call : ℕ → ℕ → State → Option State
  -- `ProtectedCall(args, ret, 1)`.
  pub protected_call : ℕ → ℕ → State → State × CallError
  pub top-push_global : (n : Bytes) (s : State) → top (push_global n s) ≡ suc (top s)
  pub top-push_field : (n : Bytes) (s : State) → top (push_field n s) ≡ suc (top s)
  pub top-push_string : (n : Bytes) (s : State) → top (push_string n s) ≡ suc (top s)
  pub top-push_nil : (s : State) → top (push_nil s) ≡ suc (top s)
  pub top-push_log : (l : Log) (s : State) → top (push_log l s) ≡ suc (top s)
  pub top-push_report : (r : KafkaReport) (s : State) → top (push_report r s) ≡ suc (top s)
  pub top-push_handler : (s : State) → top (push_handler s) ≡ suc (top s)
  pub top-pop : (n : ℕ) (s : State) → top (pop n s) ≡ top s - n
  -- A call takes the function and its arguments off the stack and leaves the results.
  pub top-call :
      (args ret : ℕ) (s s' : State)
      → args < top s
      → call args ret s ≡ some s'
      → top s' ≡ top s - (args + 1) + ret
  pub top-protected_call :
      (args ret : ℕ) (s : State)
      → args < top s
      → top (protected_call args ret s).0
        ≡ top s - (args + 1) + left_by (protected_call args ret s).1 ret
