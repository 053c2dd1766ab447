-- ===== src/Lua/Balance.antt =====
-- lua/: what the calls of the hooks leave on the stack of the machine.
use logd_go.Base.{
  >>=-eq-some, subst, ℕ, suc, ◌+◌, ◌≡◌, ap, ◌∙◌, Option, none, some, List, [], ◌∷◌, Bytes,
  Bool-cases, ◌>>=◌, Option-cases, inl, inr, arith,
}
use logd_go.Log.{Log}
use logd_go.Lua.Signals.{signals, signal_name}
use logd_go.Lua.Machine.{Machine, KafkaReport}
use logd_go.Lua.Hooks.{
  push_on_tick, push_on_log, pop_after, tick_pushed, call_on_tick, log_pushed, call_on_log,
  call_on_signal, hook_defined, call_on_http_error, push_error, call_on_kafka_report, push_hook,
  name_on_signal, name_on_http_error, name_on_log, name_module, name_on_tick, name_on_http_error,
  name_on_kafka_report,
}

-- A call of the sandbox into the script outside the protected mode, or a test that a hook is defined.
pub data Hook : Type 0 where
  on_tick : Hook
  on_log : Log → Hook
  on_signal : ℕ → Hook
  on_http_error : (url method err : Bytes) → Hook
  on_kafka_report : KafkaReport → Hook
  defined : Bytes → Hook

module _ (m : Machine) where
  open m use {
    State, top, push_global, push_field, push_string, push_nil, push_log, push_report, push_handler,
    pop, function_at_top, function_at_one, call, protected_call, top-push_global, top-push_field,
    top-push_string, top-push_nil, top-push_log, top-push_report, top-push_handler, top-pop,
    top-call, top-protected_call,
  }

  abbrev pub state_of : Option (State × Option Bytes) → Option State
  state_of none = none
  state_of (some (s, e)) = some s

  run_hook : Hook → State → Option State
  unfolding call_on_log
  run_hook Hook.on_tick s = state_of (call_on_tick m s)
  run_hook (Hook.on_log lg) s = state_of (call_on_log m lg s)
  run_hook (Hook.on_signal n) s = call_on_signal m n s
  run_hook (Hook.on_http_error u n e) s = call_on_http_error m u n e s
  run_hook (Hook.on_kafka_report r) s = call_on_kafka_report m r s
  run_hook (Hook.defined n) s = some (hook_defined m n s).0

  -- The call, if it returns, leaves n values.
  abbrev pub Leaves : ℕ → Option State → Type 0
  Leaves n none = Unit {0}
  Leaves n (some s) = top s ≡ n

  pub top-push_hook : (n : Bytes) (s : State) → top (push_hook m n s) ≡ suc (suc (top s))
  top-push_hook n s =
      top-push_field n (push_global name_module s) ∙ ap suc (top-push_global name_module s)

  -- A call without results, and the deferred `Pop(1)`.
  pub call-Leaves :
      (args n : ℕ) (s : State)
      → top s ≡ args + 2 + n
      → Leaves n (call args 0 s >>= (λ u. some (pop 1 u)))
  call-Leaves args n s e = elim (Option-cases (call args 0 s)) [
    | inl k ↦ rw k tt
    | inr (u, k) ↦ rw k (ground (arith, e, top-pop 1 u, top-call args 0 s u _ k))
  ]

  call-Leaves_deferred :
      (args n : ℕ) (s : State)
      → top s ≡ args + 2 + n
      → Leaves n (state_of (pop_after m (call args 0 s >>= (λ u. some (u, none)))))
  call-Leaves_deferred args n s e = elim (Option-cases (call args 0 s)) [
    | inl k ↦ rw k tt
    | inr (u, k) ↦ rw k (ground (arith, e, top-pop 1 u, top-call args 0 s u _ k))
  ]

  -- A hook that is not defined is popped, and the module after it.
  pub top-pop_hook : (n : Bytes) (s : State) → top (pop 1 (pop 1 (push_hook m n s))) ≡ top s
  top-pop_hook n s =
      ground
        (arith, top-pop 1 (pop 1 (push_hook m n s)), top-pop 1 (push_hook m n s), top-push_hook n s)

  tick-Leaves : (s : State) → Leaves (top s) (state_of (call_on_tick m s))
  unfolding call_on_tick push_on_tick tick_pushed
  tick-Leaves s = elim (Bool-cases (function_at_top (push_hook m name_on_tick s))) [
    | inl k ↦ rw k (call-Leaves_deferred 0 _ _ (ground (arith, top-push_hook name_on_tick s)))
    | inr k ↦ rw k (top-pop_hook name_on_tick s)
  ]

  log-Leaves : (lg : Log) (s : State) → Leaves (top s) (state_of (call_on_log m lg s))
  unfolding call_on_log push_on_log log_pushed
  log-Leaves lg s =
      let t = push_hook m name_on_log s in
      elim (Bool-cases (function_at_top t)) [
        | inl k ↦ rw k (
            call-Leaves_deferred 1 _ _
              (ground (arith, top-push_hook name_on_log s, top-push_log lg t)))
        | inr k ↦ rw k (top-pop_hook name_on_log s)
      ]

  signal-Leaves : (n : ℕ) (s : State) → Leaves (top s) (call_on_signal m n s)
  unfolding call_on_signal
  signal-Leaves n s =
      let t = push_hook m name_on_signal s in
      elim (Bool-cases (function_at_top t)) [
        | inl k ↦ rw k (
            call-Leaves 1 _ _ (
              ground
                (arith, top-push_hook name_on_signal s, top-push_string (signal_name signals n) t)))
        | inr k ↦ rw k tt
      ]

  http_error-Leaves :
      (url method err : Bytes) (s : State) → Leaves (top s) (call_on_http_error m url method err s)
  unfolding call_on_http_error
  http_error-Leaves url method err s =
      let t = push_hook m name_on_http_error s in
      let t1 = push_string url t in
      let t2 = push_string method t1 in
      elim (Bool-cases (function_at_top t)) [
        | inl k ↦ rw k (
            call-Leaves 3 _ _ (
              ground (
                arith,
                top-push_hook name_on_http_error s,
                top-push_string url t,
                top-push_string method t1,
                top-push_string err t2,
              )))
        | inr k ↦ rw k (top-pop_hook name_on_http_error s)
      ]

  top-push_error :
      (r : KafkaReport) (e : Option Bytes) (s : State) → top (push_error m r e s) ≡ suc (top s)
  unfolding push_error
  top-push_error r none s = top-push_nil s
  top-push_error r (some e) s = top-push_string _ s

  kafka_report-Leaves : (r : KafkaReport) (s : State) → Leaves (top s) (call_on_kafka_report m r s)
  unfolding call_on_kafka_report
  kafka_report-Leaves r s =
      let t = push_hook m name_on_kafka_report s in
      elim (Bool-cases (function_at_top t)) [
        | inl k ↦ rw k (
            call-Leaves 2 _ _ (
              ground (
                arith,
                top-push_hook name_on_kafka_report s,
                top-push_report r t,
                top-push_error r r.error (push_report r t),
              )))
        | inr k ↦ rw k (top-pop_hook name_on_kafka_report s)
      ]

  defined-Leaves : (n : Bytes) (s : State) → Leaves (top s) (some (hook_defined m n s).0)
  unfolding hook_defined
  defined-Leaves n s = ground (arith, top-pop 2 (push_hook m n s), top-push_hook n s)

  run_hook-Leaves : (h : Hook) (s : State) → Leaves (top s) (run_hook h s)
  unfolding run_hook
  run_hook-Leaves Hook.on_tick s = tick-Leaves s
  run_hook-Leaves (Hook.on_log lg) s = log-Leaves lg s
  run_hook-Leaves (Hook.on_signal n) s = signal-Leaves n s
  run_hook-Leaves (Hook.on_http_error u n e) s = http_error-Leaves u n e s
  run_hook-Leaves (Hook.on_kafka_report r) s = kafka_report-Leaves r s
  run_hook-Leaves (Hook.defined n) s = defined-Leaves n s

  -- The calls one after the other, as the holders of the lock make them.
  unfoldable pub run_hooks : List Hook → State → Option State
  unfolding run_hook
  run_hooks [] s = some s
  run_hooks (h ∷ hs) s = run_hook h s >>= run_hooks hs

  -- Any sequence of calls of the hooks outside the protected mode, and of tests that a hook is defined,
  -- leaves as many values on the stack of the machine as there were before it, if none of the calls panics.
  pub run_hooks-top : (hs : List Hook) (s s' : State) → run_hooks hs s ≡ some s' → top s' ≡ top s
  unfolding run_hooks
  run_hooks-top [] s s' e = cc
  run_hooks-top (h ∷ hs) s s' e =
      let (u, k, f) = >>=-eq-some _ _ e in
      run_hooks-top hs u s' f ∙ subst (Leaves (top s)) k (run_hook-Leaves h s)
