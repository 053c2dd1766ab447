-- ===== src/Daemon/Signals.antt =====
-- cmd/logd/main.go: the handler of signals, and the reader that main opens.
use logd_go.Base.{
  ℕ, Bool, true, false, Option, none, some, List, [], ◌∷◌, ◌++◌, Bytes, ◌==◌, ℤ, if◌then◌else◌,
  ◌>>=◌,
}
use logd_go.Http.Client.{NewRequest}
use logd_go.Http.System.{Action}
use logd_go.Lua.Machine.{Machine}
use logd_go.Lua.Hooks.{hook_defined, name_on_signal, call_on_signal}
use logd_go.Lua.Kafka.{KafkaApi}
use logd_go.Lua.Settings.{Sandbox}
use logd_go.Lua.Lifecycle.{Ticker, Life, Ending, init}

-- What writing a heap profile comes to: none was asked for, the file cannot be made, or the error of
-- `pprof.WriteHeapProfile`.
pub data HeapProfile : Type 0 where
  not_asked : HeapProfile
  no_file : Bytes → HeapProfile
  written : Option Bytes → HeapProfile

-- The handler goes on with the sandbox and with what it has sent on the channel `exit`, or it panics, or
-- still waits, or ends the process with an error.
pub data Handled (K M : Type 0) : Type 0 where
  goes_on : Life K M → List (Option Bytes) → Handled K M
  panicked waiting : Handled K M
  exits : Bytes → Handled K M

abbrev pub sigusr1 : ℕ
sigusr1 = 10

abbrev pub sigusr2 : ℕ
sigusr2 = 12

module _ {K M : Type 0} where
  mem_profile : HeapProfile → Life K M → Handled K M
  mem_profile HeapProfile.not_asked l = Handled.goes_on l []
  mem_profile (HeapProfile.no_file e) l = Handled.exits e
  mem_profile (HeapProfile.written none) l = Handled.goes_on l []
  mem_profile (HeapProfile.written (some e)) l = Handled.goes_on l (some e ∷ [])

  -- An error of Init is a panic.
  reloaded : Ending K M → Handled K M
  reloaded (Ending.returned l none) = Handled.goes_on l []
  reloaded (Ending.returned l (some e)) = Handled.panicked
  reloaded Ending.panicked = Handled.panicked
  reloaded Ending.waiting = Handled.waiting

module _ (m : Machine) (api : KafkaApi) (flush : ℤ → ℕ) (parse : Bytes → NewRequest)
    (schedule : List Action) (cwd : Bytes → Option Bytes)
    (load : Bytes
      → Sandbox api.ConfigMap
      → Option (Sandbox api.ConfigMap × m.State × Ticker × Option Bytes))
    (profile : HeapProfile) (script : Bytes) where
  handle_signal : Life api.ConfigMap m.State → ℕ → Handled api.ConfigMap m.State
  unfolding mem_profile reloaded init
  handle_signal l sig =
      if sig == sigusr2
      then mem_profile profile l
      else if sig == sigusr1
      then reloaded (init m api flush parse schedule cwd load script l)
      else Handled.goes_on l (none ∷ [])

  -- The test for the hook, and its call; none is a panic.
  script_signal :
      ℕ → Life api.ConfigMap m.State → m.State × Bool → Option (Life api.ConfigMap m.State)
  unfolding call_on_signal
  script_signal sig l (st, false) = some (record l { machine = st })
  script_signal sig l (st, true) = do
    st' ← call_on_signal m sig st
    some (record l { machine = st' })

  handle_in : ℕ → Option (Life api.ConfigMap m.State) → Handled api.ConfigMap m.State
  unfolding handle_signal
  handle_in sig none = Handled.panicked
  handle_in sig (some l) = handle_signal l sig

  abbrev pub then_send :
      List (Option Bytes) → Handled api.ConfigMap m.State → Handled api.ConfigMap m.State
  then_send sent (Handled.goes_on l more) = Handled.goes_on l (sent ++ more)
  then_send sent h = h

  -- One round of the loop of sigHandler.
  one_signal : Life api.ConfigMap m.State → ℕ → Handled api.ConfigMap m.State
  unfolding handle_in script_signal hook_defined
  one_signal l sig = handle_in sig (script_signal sig l (hook_defined m name_on_signal l.machine))

  sig_handler_in : List ℕ → Handled api.ConfigMap m.State → Handled api.ConfigMap m.State
  unfolding one_signal
  sig_handler_in [] h = h
  sig_handler_in (sig ∷ sigs) (Handled.goes_on l sent) =
      sig_handler_in sigs (then_send sent (one_signal l sig))
  sig_handler_in (sig ∷ sigs) h = h

  unfoldable sig_handler : List ℕ → Life api.ConfigMap m.State → Handled api.ConfigMap m.State
  unfolding sig_handler_in
  sig_handler sigs l = sig_handler_in sigs (Handled.goes_on l [])
