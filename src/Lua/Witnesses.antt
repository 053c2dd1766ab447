-- ===== src/Lua/Witnesses.antt =====
-- lua/: a machine on which every hook is defined and every protected call fails, and runs on it.
use logd_go.Base.{
  ℕ, zero, suc, ◌+◌, ◌-◌, ◌≤◌, ◌≡◌, refl, ap, Bool, true, false, some, List, [], ◌∷◌, ◌++◌, length,
  drop, length-drop, length-append, codes, arith,
}
use logd_go.Log.{new_log}
use logd_go.Lua.Machine.{Machine, CallError, KafkaReport}
use logd_go.Lua.Hooks.{call_on_kafka_report, call_on_tick, hook_defined, call_protected_on_tick}
use logd_go.Lua.Balance.{Hook, run_hooks, run_hooks-top}
use logd_go.Lua.Leak.{ProtectedHook, run_all, run_all-top}

pub data Value : Type 0 where
  function : Value
  plain : Value

abbrev pub Stack : Type 0
Stack = List Value

abbrev pub plains : ℕ → Stack
plains zero = []
plains (suc n) = plain ∷ plains n

pub length-plains : (n : ℕ) → length (plains n) ≡ n
length-plains zero = refl
length-plains (suc n) = ap suc (length-plains n)

abbrev pub is_function : Stack → Bool
is_function [] = false
is_function (function ∷ s) = true
is_function (plain ∷ s) = false

abbrev pub bottom_is_function : Stack → Bool
bottom_is_function [] = false
bottom_is_function (v ∷ []) = is_function (v ∷ [])
bottom_is_function (v ∷ w ∷ s) = bottom_is_function (w ∷ s)

abbrev pub results : ℕ → ℕ → Stack → Stack
results args ret s = plains ret ++ drop (args + 1) s

pub length-results :
    (args ret : ℕ) (s : Stack) → length (results args ret s) ≡ length s - (args + 1) + ret
length-results args ret s = ground (
  arith,
  length-append (plains ret) (drop (args + 1) s),
  length-plains ret,
  length-drop (args + 1) s,
)

pub length-results_eq :
    (args ret : ℕ) (s s' : Stack)
    → some (results args ret s) ≡ some s'
    → length s' ≡ length s - (args + 1) + ret
length-results_eq args ret s s' e = ground (arith, e, length-results args ret s)

abbrev pub failing : Machine
failing = record {
  State = Stack;
  top = length;
  push_global = λ n s. plain ∷ s;
  push_field = λ n s. function ∷ s;
  push_string = λ n s. plain ∷ s;
  push_nil = λ s. plain ∷ s;
  push_log = λ l s. plain ∷ s;
  push_report = λ r s. plain ∷ s;
  push_handler = λ s. function ∷ s;
  pop = drop;
  function_at_top = is_function;
  function_at_one = bottom_is_function;
  call = λ args ret s. some (results args ret s);
  protected_call = λ args ret s. (results args 1 s, CallError.runtime_error (codes "oops"));
  top-push_global = λ n s. refl;
  top-push_field = λ n s. refl;
  top-push_string = λ n s. refl;
  top-push_nil = λ s. refl;
  top-push_log = λ l s. refl;
  top-push_report = λ r s. refl;
  top-push_handler = λ s. refl;
  top-pop = length-drop;
  top-call = λ args ret s s' h e. length-results_eq args ret s s' e;
  top-protected_call = λ args ret s h. length-results args 1 s;
}

abbrev report : KafkaReport
report = record {
  topic = codes "t";
  partition = codes "0";
  offset = codes "7";
  error = some (codes "timed out");
}

abbrev calls : List Hook
calls =
    Hook.defined (codes "on_signal")
    ∷ Hook.on_log new_log
    ∷ Hook.on_kafka_report report
    ∷ Hook.on_tick
    ∷ []

run_hooks-top_example : length {A = Value} [] ≡ 0
unfolding run_hooks call_on_kafka_report call_on_tick hook_defined
run_hooks-top_example = run_hooks-top failing calls [] [] refl

abbrev protected_calls : List ProtectedHook
protected_calls = ProtectedHook.on_log new_log ∷ ProtectedHook.on_tick ∷ []

run_all-top_example : (2 ≤ 4) × (4 ≤ 4)
unfolding run_all call_protected_on_tick
run_all-top_example = run_all-top failing protected_calls [] _ refl
