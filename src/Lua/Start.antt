-- ===== src/Lua/Start.antt =====
-- lua/lua.go: when the first Init of a sandbox succeeds.
use logd_go.Base.{
  ℕ, ◌≡◌, ◌≢◌, ◌↔◌, refl, sym, subst, ap, ◌∙◌, true, false, Option, none, some, List, Bytes, ◌⊎◌,
  inl, inr, Bool-cases, ℤ, Bool, if◌then◌else◌,
}
use logd_go.Http.Client.{NewRequest}
use logd_go.Http.System.{Action}
use logd_go.Lua.Machine.{Machine}
use logd_go.Lua.Hooks.{hook_defined, name_on_error}
use logd_go.Lua.Kafka.{KafkaApi}
use logd_go.Lua.Settings.{Sandbox, set_protected}
use logd_go.Lua.Lifecycle.{
  Life, Ending, Ticker, stop_in, stop_ticker, run_ticker, restart_ticker, after_ending,
  protected_checked, check_protected, loaded, in_directory, fresh, init, close_if,
}

module _ {K M : Type 0} where
  -- The sandbox with the ticker started.
  abbrev pub ticks : Life K M → Life K M
  ticks l = record l { ticker = Ticker.running }

  abbrev restarted : Ticker → Life K M → Ending K M
  restarted x l = after_ending (stop_in x l) (λ l'. Ending.returned (ticks l') none)

  restarted_free :
      (x : Ticker) (l l' : Life K M)
      → restarted x l ≡ Ending.returned l' none
      → (x ≢ Ticker.held) × (l' ≡ ticks l)
  unfolding stop_in
  restarted_free Ticker.no_ticker l l' e = (λ z. cc, cc)
  restarted_free Ticker.running l l' e = (λ z. cc, cc)
  restarted_free Ticker.held l l' e = cc

  free_restarted :
      (x : Ticker) (l : Life K M) → x ≢ Ticker.held → restarted x l ≡ Ending.returned (ticks l) none
  unfolding stop_in
  free_restarted Ticker.no_ticker l n = refl
  free_restarted Ticker.running l n = refl
  free_restarted Ticker.held l n = absurd (n refl)

  protect : Life K M → Life K M
  protect l = record l { sandbox = record l.sandbox { protected = true } }

  protect-same : (l : Life K M) → l.sandbox.protected ≡ true → protect l ≡ l
  unfolding protect
  protect-same l e = ap (λ b. record l { sandbox = record l.sandbox { protected = b } }) (sym e)

module _ (m : Machine) (api : KafkaApi) (flush : ℤ → ℕ) (parse : Bytes → NewRequest)
    (schedule : List Action) (cwd : Bytes → Option Bytes)
    (load : Bytes
      → Sandbox api.ConfigMap
      → Option (Sandbox api.ConfigMap × m.State × Ticker × Option Bytes)) where
  -- In the protected mode the script has a handler of errors.
  abbrev pub Guarded : Sandbox api.ConfigMap → m.State → Type 0
  Guarded sb st = (sb.protected ≡ false) ⊎ ((hook_defined m name_on_error st).1 ≡ true)

  abbrev checked : Life api.ConfigMap m.State → Ending api.ConfigMap m.State
  checked l =
      protected_checked m api flush parse schedule cwd load l
        (set_protected m l.machine true l.sandbox)

  checked_hook :
      (l l' : Life api.ConfigMap m.State)
      → checked l ≡ Ending.returned l' none
      → l.sandbox.protected ≡ true
      → ((hook_defined m name_on_error l.machine).1 ≡ true)
        × (l.ticker ≢ Ticker.held)
        × (l' ≡ ticks l)
  unfolding protected_checked set_protected restart_ticker stop_ticker run_ticker protect
  checked_hook l l' e k = elim (Bool-cases (hook_defined m name_on_error l.machine).1) [
    | inl h ↦
        let (n, q) = restarted_free l.ticker (protect l) l' (rw h at e) in
        (h, n, q ∙ ap ticks (protect-same l k))
    | inr h ↦ let z = rw h at e in cc
  ]

  hook_checked :
      (l : Life api.ConfigMap m.State)
      → (hook_defined m name_on_error l.machine).1 ≡ true
      → l.ticker ≢ Ticker.held
      → l.sandbox.protected ≡ true
      → checked l ≡ Ending.returned (ticks l) none
  unfolding protected_checked set_protected restart_ticker stop_ticker run_ticker protect
  hook_checked l h n k =
      (rw h (free_restarted l.ticker (protect l) n))
      ∙ ap (λ x. Ending.returned (ticks x) none) (protect-same l k)

  check_protected_checks :
      (l l' : Life api.ConfigMap m.State)
      → check_protected m api flush parse schedule cwd load l ≡ Ending.returned l' none
      → Guarded l.sandbox l.machine × (l.ticker ≢ Ticker.held) × (l' ≡ ticks l)
  unfolding check_protected restart_ticker stop_ticker run_ticker
  check_protected_checks l l' e =
      let f = λ (b : Bool). (if b then checked l else restart_ticker l) ≡ Ending.returned l' none in
      elim (Bool-cases l.sandbox.protected) [
        | inr k ↦ let (n, q) = restarted_free l.ticker l l' (subst f k e) in (inl k, n, q)
        | inl k ↦ let (h, n, q) = checked_hook l l' (subst f k e) k in (inr h, n, q)
      ]

  checks_check_protected :
      (l : Life api.ConfigMap m.State)
      → Guarded l.sandbox l.machine
      → l.ticker ≢ Ticker.held
      → check_protected m api flush parse schedule cwd load l ≡ Ending.returned (ticks l) none
  unfolding check_protected restart_ticker stop_ticker run_ticker
  checks_check_protected l g n =
      let f = λ (b : Bool).
        (if b then checked l else restart_ticker l) ≡ Ending.returned (ticks l) none in
      elim (Bool-cases l.sandbox.protected) [
        | inr k ↦ subst f (sym k) (free_restarted l.ticker l n)
        | inl k ↦ elim g [ inl h ↦ cc | inr h ↦ subst f (sym k) (hook_checked l h n k) ]
      ]

  -- Init finds its directory, and the script loads without an error. Where it has switched the protected mode on
  -- it has defined on_error, and no ticker that it has started waits for the lock. Init leaves the sandbox
  -- and the machine of the script, with the ticker started.
  pub record Starts (script : Bytes) (l l' : Life api.ConfigMap m.State) : Type 0 where
    pub sandbox : Sandbox api.ConfigMap
    pub machine : m.State
    pub ticker : Ticker
    pub found : cwd script ≡ none
    pub loads :
        load script (fresh m api flush parse schedule cwd load l.sandbox)
        ≡ some (sandbox, machine, ticker, none)
    pub guarded : Guarded sandbox machine
    pub free : ticker ≢ Ticker.held
    pub result : l' ≡ record l {
      sandbox = sandbox;
      machine = machine;
      script = script;
      ready = true;
      ticker = Ticker.running;
    }

  loaded-Starts :
      (script : Bytes) (l l' : Life api.ConfigMap m.State)
      (o : Option (Sandbox api.ConfigMap × m.State × Ticker × Option Bytes))
      → cwd script ≡ none
      → load script (fresh m api flush parse schedule cwd load l.sandbox) ≡ o
      → loaded m api flush parse schedule cwd load
          (record l {
            sandbox = fresh m api flush parse schedule cwd load l.sandbox;
            script = script;
            ready = true;
          })
          o
        ≡ Ending.returned l' none
      → Starts script l l'
  unfolding loaded
  loaded-Starts script l l' none d f e = cc
  loaded-Starts script l l' (some (sb, st, t, some x)) d f e = cc
  loaded-Starts script l l' (some (sb, st, t, none)) d f e =
      let (g, n, q) = check_protected_checks _ l' e in
      record {
        sandbox = sb;
        machine = st;
        ticker = t;
        found = d;
        loads = f;
        guarded = g;
        free = n;
        result = q;
      }

  in_directory-Starts :
      (script : Bytes) (l l' : Life api.ConfigMap m.State) (c : Option Bytes)
      → cwd script ≡ c
      → in_directory m api flush parse schedule cwd load c (record l {
        sandbox = fresh m api flush parse schedule cwd load l.sandbox;
        script = script;
        ready = true;
      })
        ≡ Ending.returned l' none
      → Starts script l l'
  unfolding in_directory
  in_directory-Starts script l l' (some x) d e = cc
  in_directory-Starts script l l' none d e = loaded-Starts script l l' _ d refl e

  Starts-returned :
      (script : Bytes) (l l' : Life api.ConfigMap m.State)
      → Starts script l l'
      → in_directory m api flush parse schedule cwd load (cwd script) (record l {
        sandbox = fresh m api flush parse schedule cwd load l.sandbox;
        script = script;
        ready = true;
      })
        ≡ Ending.returned l' none
  unfolding in_directory loaded
  Starts-returned script l l' s = rw s.found (
      rw s.loads (
        checks_check_protected
          (record l {
            sandbox = s.sandbox;
            machine = s.machine;
            script = script;
            ready = true;
            ticker = s.ticker;
          })
          s.guarded s.free
        ∙ ap (λ x. Ending.returned x none) (sym s.result)))

  -- The first Init of a sandbox returns without an error just where the working directory is found if it is asked
  -- for, the script loads without an error, no ticker that a config_set of the script has started meanwhile
  -- waits for the lock or has panicked, and the script defines on_error if the protected mode is on behind it.
  -- Init then leaves the sandbox and the machine of the script, with the goroutine of the ticker started; what
  -- that goroutine does with a tick that is not positive is no part of Init.
  pub init-Starts :
      (script : Bytes) (l l' : Life api.ConfigMap m.State)
      → l.ready ≡ false
      → (init m api flush parse schedule cwd load script l ≡ Ending.returned l' none)
        ↔ Starts script l l'
  unfolding init
  init-Starts script l l' r =
      let f = λ (b : Bool).
        after_ending (close_if api m.State flush parse schedule b l) (λ a.
          in_directory m api flush parse schedule cwd load (cwd script) (record a {
            sandbox = fresh m api flush parse schedule cwd load a.sandbox;
            script = script;
            ready = true;
          }))
        ≡ Ending.returned l' none in
      (
        λ e. in_directory-Starts script l l' (cwd script) refl (subst f r e),
        λ s. subst f (sym r) (Starts-returned script l l' s),
      )
