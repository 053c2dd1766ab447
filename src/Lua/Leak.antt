-- ===== src/Lua/Leak.antt =====
-- lua/lua.go: what the calls in the protected mode leave on the stack of the machine.
use logd_go.Base.{
  ℕ, suc, ◌+◌, ◌*◌, ◌≤◌, ◌≡◌, subst, Option, none, some, List, [], ◌∷◌, ◌++◌, length, Bytes, codes,
  Bool-cases, ◌>>=◌, >>=-eq-some, Option-cases, inl, inr, arith,
}
use logd_go.Log.{Log, new_log}
use logd_go.Lua.Machine.{Machine, CallError, left_by}
use logd_go.Lua.Hooks.{
  push_on_tick, push_on_log, call_on_error, settle_call, call_protected, pop_after,
  log_pushed_protected, protected_call_on_log, tick_pushed_protected, call_protected_on_tick,
  push_hook, name_on_log, name_on_tick, name_on_error,
}
use logd_go.Lua.Balance.{state_of, Leaves, top-push_hook, top-pop_hook, call-Leaves}

-- A call of the sandbox into the script in the protected mode.
pub data ProtectedHook : Type 0 where
  on_tick : ProtectedHook
  on_log : Log → ProtectedHook

module _ (m : Machine) where
  open m use {
    State, top, push_log, push_string, push_handler, pop, function_at_top, function_at_one, call,
    protected_call, top-push_log, top-push_string, top-push_handler, top-pop, top-protected_call,
  }

  run_protected : ProtectedHook → State → Option State
  unfolding protected_call_on_log
  run_protected ProtectedHook.on_tick s = state_of m (call_protected_on_tick m s)
  run_protected (ProtectedHook.on_log lg) s = state_of m (protected_call_on_log m lg s)

  -- The call, if it returns, leaves n values or one more.
  abbrev pub Grows : ℕ → Option State → Type 0
  Grows n none = Unit {0}
  Grows n (some s) = (n ≤ top s) × (top s ≤ n + 1)

  call_on_error-Leaves :
      (lg : Log) (e : Bytes) (s : State) → Leaves m (top s) (call_on_error m lg e s)
  unfolding call_on_error
  call_on_error-Leaves lg e s =
      let t = push_hook m name_on_error s in
      elim (Bool-cases (function_at_top t)) [
        | inl k ↦ rw k (
            call-Leaves m 2 _ _ (
              ground (
                arith,
                top-push_hook m name_on_error s,
                top-push_log lg t,
                top-push_string e (push_log lg t),
              )))
        | inr k ↦ rw k tt
      ]

  settle_call-Grows :
      (lg : Log) (name : Bytes) (n : ℕ) (r : State × CallError)
      → top r.0 ≡ n + left_by r.1 0 + 1
      → Grows n (state_of m (pop_after m (settle_call m lg name r)))
  unfolding settle_call
  settle_call-Grows lg name n (s, CallError.no_error) e = ground (arith, e, top-pop 1 s)
  settle_call-Grows lg name n (s, CallError.other_error x) e = ground (arith, e, top-pop 1 s)
  settle_call-Grows lg name n (s, CallError.runtime_error x) e =
      let msg = name ++ (codes " : " ++ x) in
      elim (Option-cases (call_on_error m lg msg s)) [
        | inl k ↦ rw k tt
        | inr (u, k) ↦ rw k (
            ground
              (arith, e, top-pop 1 u, subst (Leaves m (top s)) k (call_on_error-Leaves lg msg s)))
      ]

  call_protected-Grows :
      (lg : Log) (args n : ℕ) (name : Bytes) (s : State)
      → top s ≡ args + 2 + n
      → Grows n (state_of m (pop_after m (call_protected m lg args 0 name s)))
  unfolding call_protected
  call_protected-Grows lg args n name s e = elim (Bool-cases (function_at_one s)) [
    | inl k ↦ rw k (
        settle_call-Grows lg name n (protected_call args 0 s)
          (ground (arith, e, top-protected_call args 0 s _)))
    | inr k ↦ rw k tt
  ]

  tick-Grows : (s : State) → Grows (suc (top s)) (state_of m (call_protected_on_tick m s))
  unfolding call_protected_on_tick push_on_tick tick_pushed_protected
  tick-Grows s =
      let h = push_handler s in
      elim (Bool-cases (function_at_top (push_hook m name_on_tick h))) [
        | inl k ↦ rw k (
            call_protected-Grows new_log 0 _ name_on_tick _
              (ground (arith, top-push_hook m name_on_tick h, top-push_handler s)))
        | inr k ↦ rw k (ground (arith, top-pop_hook m name_on_tick h, top-push_handler s))
      ]

  log-Grows :
      (lg : Log) (s : State) → Grows (suc (top s)) (state_of m (protected_call_on_log m lg s))
  unfolding protected_call_on_log push_on_log log_pushed_protected
  log-Grows lg s =
      let h = push_handler s in
      let t = push_hook m name_on_log h in
      elim (Bool-cases (function_at_top t)) [
        | inl k ↦ rw k (
            call_protected-Grows lg 1 _ name_on_log _ (
              ground (arith, top-push_hook m name_on_log h, top-push_log lg t, top-push_handler s)))
        | inr k ↦ rw k (ground (arith, top-pop_hook m name_on_log h, top-push_handler s))
      ]

  run_protected-Grows : (h : ProtectedHook) (s : State) → Grows (suc (top s)) (run_protected h s)
  unfolding run_protected
  run_protected-Grows ProtectedHook.on_tick s = tick-Grows s
  run_protected-Grows (ProtectedHook.on_log lg) s = log-Grows lg s

  -- The calls one after the other.
  unfoldable pub run_all : List ProtectedHook → State → Option State
  unfolding run_protected
  run_all [] s = some s
  run_all (h ∷ hs) s = run_protected h s >>= run_all hs

  -- Any sequence of n calls of the hooks in the protected mode leaves at least n and at most 2 * n values more
  -- on the stack of the machine than there were before it, if none of the calls panics.
  pub run_all-top :
      (hs : List ProtectedHook) (s s' : State)
      → run_all hs s ≡ some s'
      → (top s + length hs ≤ top s') × (top s' ≤ top s + 2 * length hs)
  unfolding run_all
  run_all-top [] s s' e = ground arith
  run_all-top (h ∷ hs) s s' e =
      let (u, k, f) = >>=-eq-some (run_protected h s) (run_all hs) e in
      ground (arith, run_all-top hs u s' f, subst (Grows (suc (top s))) k (run_protected-Grows h s))
