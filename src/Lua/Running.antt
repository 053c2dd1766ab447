-- ===== src/Lua/Running.antt =====
-- lua/lua.go: the sandbox behind Init and behind Close.
use logd_go.Base.{
  ℕ, ◌≡◌, refl, sym, subst, true, false, Option, none, some, List, Bytes, ◌⊎◌, inl, inr, Bool-cases,
  ℤ, if◌then◌else◌,
}
use logd_go.Http.Client.{NewRequest}
use logd_go.Http.System.{Action}
use logd_go.Lua.Machine.{Machine}
use logd_go.Lua.Hooks.{hook_defined, name_on_error}
use logd_go.Lua.Kafka.{KafkaApi}
use logd_go.Lua.Settings.{Sandbox, set_protected}
use logd_go.Lua.Lifecycle.{
  Life, Ending, Ticker, stop_in, stop_ticker, run_ticker, restart_ticker, after_ending,
  protected_checked, check_protected, loaded, in_directory, init,
}

-- The sandbox has its machine, the goroutine of its ticker has been started, and there is a handler of errors
-- if it is in the protected mode.
pub record IsRunning {K : Type 0} (m : Machine) (l : Life K m.State) : Type 0 where
  pub ready : l.ready ≡ true
  pub ticks : l.ticker ≡ Ticker.running
  pub guarded : (l.sandbox.protected ≡ false) ⊎ ((hook_defined m name_on_error l.machine).1 ≡ true)

-- An ending without an error has the property.
abbrev pub Ends : {K M : Type 0} → (Life K M → Type 0) → Ending K M → Type 0
Ends P (Ending.returned l none) = P l
Ends P _ = Unit {0}

after_ending-Ends :
    {K M : Type 0} (P : Life K M → Type 0) (x : Ending K M) (f : Life K M → Ending K M)
    → ((l : Life K M) → Ends P (f l))
    → Ends P (after_ending x f)
after_ending-Ends P (Ending.returned l e) f h = h l
after_ending-Ends P Ending.panicked f h = tt
after_ending-Ends P Ending.waiting f h = tt

module _ (m : Machine) (api : KafkaApi) (flush : ℤ → ℕ) (parse : Bytes → NewRequest)
    (schedule : List Action) (cwd : Bytes → Option Bytes)
    (load : Bytes
      → Sandbox api.ConfigMap
      → Option (Sandbox api.ConfigMap × m.State × Ticker × Option Bytes)) where
  abbrev Running : Ending api.ConfigMap m.State → Type 0
  Running x = Ends (IsRunning m) x

  abbrev Guarded : Life api.ConfigMap m.State → Type 0
  Guarded l = (l.sandbox.protected ≡ false) ⊎ ((hook_defined m name_on_error l.machine).1 ≡ true)

  stop_in-Running :
      (x : Ticker) (l : Life api.ConfigMap m.State)
      → l.ready ≡ true
      → Guarded l
      → Running (
          after_ending
            (stop_in x l)
            (λ l'. Ending.returned (record l' { ticker = Ticker.running }) none))
  unfolding stop_in
  stop_in-Running Ticker.no_ticker l r g = record { ready = r; ticks = refl; guarded = g }
  stop_in-Running Ticker.running l r g = record { ready = r; ticks = refl; guarded = g }
  stop_in-Running Ticker.held l r g = tt

  restart_ticker-Running :
      (l : Life api.ConfigMap m.State) → l.ready ≡ true → Guarded l → Running (restart_ticker l)
  unfolding restart_ticker stop_ticker run_ticker
  restart_ticker-Running l r g = stop_in-Running l.ticker l r g

  protected_checked-Running :
      (l : Life api.ConfigMap m.State)
      → l.ready ≡ true
      → Running (
          protected_checked m api flush parse schedule cwd load l
            (set_protected m l.machine true l.sandbox))
  unfolding protected_checked set_protected
  protected_checked-Running l r = elim (Bool-cases (hook_defined m name_on_error l.machine).1) [
    | inl k ↦ rw k (
        restart_ticker-Running (record l { sandbox = record l.sandbox { protected = true } }) r
          (inr k))
    | inr k ↦ rw k tt
  ]

  check_protected-Running :
      (l : Life api.ConfigMap m.State)
      → l.ready ≡ true
      → Running (check_protected m api flush parse schedule cwd load l)
  unfolding check_protected
  check_protected-Running l r =
      let checked =
        protected_checked m api flush parse schedule cwd load l
          (set_protected m l.machine true l.sandbox) in
      elim (Bool-cases l.sandbox.protected) [
        | inl k ↦
            subst (λ b. Running (if b then checked else restart_ticker l)) (sym k)
              (protected_checked-Running l r)
        | inr k ↦
            subst (λ b. Running (if b then checked else restart_ticker l)) (sym k)
              (restart_ticker-Running l r (inl k))
      ]

  loaded-Running :
      (l : Life api.ConfigMap m.State)
      (x : Option (Sandbox api.ConfigMap × m.State × Ticker × Option Bytes))
      → l.ready ≡ true
      → Running (loaded m api flush parse schedule cwd load l x)
  unfolding loaded
  loaded-Running l none r = tt
  loaded-Running l (some (sb, st, t, some e)) r = tt
  loaded-Running l (some (sb, st, t, none)) r =
      check_protected-Running (record l { sandbox = sb; machine = st; ticker = t }) r

  in_directory-Running :
      (e : Option Bytes) (l : Life api.ConfigMap m.State)
      → l.ready ≡ true
      → Running (in_directory m api flush parse schedule cwd load e l)
  unfolding in_directory
  in_directory-Running (some e) l r = tt
  in_directory-Running none l r = loaded-Running l _ r

  -- Init, on any sandbox, with any script and whatever the script does while it is loaded, if it returns
  -- without an error, leaves a sandbox with its machine, that has started the goroutine of its ticker, and is in
  -- the protected mode only if the script defines on_error.
  pub init-IsRunning :
      (script : Bytes) (l l' : Life api.ConfigMap m.State)
      → init m api flush parse schedule cwd load script l ≡ Ending.returned l' none
      → IsRunning m l'
  unfolding init
  init-IsRunning script l l' h =
      subst Running h
        (after_ending-Ends (IsRunning m) _ _ (λ a. in_directory-Running (cwd script) _ refl))
