-- ===== src/Daemon/Main.antt =====
-- cmd/logd/main.go: main, with the profiles and the set-up of its logger. What the operating system, the
-- profiler and the sandbox answer, and the first value on the channel `exit`, stand in a record.
use logd_go.Base.{
  Bool, true, false, not, Option, none, some, List, [], ◌∷◌, ◌++◌, Bytes, codes, equal,
  if◌then◌else◌,
}
use logd_go.Watcher.Reader.{Os}
use logd_go.Daemon.Flags.{Flags, Mode, validate_flags, choose_mode}
use logd_go.Daemon.Opening.{Opened, get_reader}
use logd_go.Daemon.Signals.{HeapProfile}
use logd_go.Daemon.Usage.{Flag, usage_text}

-- What main opens.
pub data Resource : Type 0 where
  profile sandbox exit_channel reader signals : Resource

-- Where the logger writes: standard error, or a file that is rotated.
pub data LogOutput : Type 0 where
  stderr : LogOutput
  rotated : Bytes → LogOutput

pub record LogSetup : Type 0 where
  pub debug : Bool
  pub output : LogOutput

-- The calls of main, and the goroutines that it starts.
pub data MainCall : Type 0 where
  init_logging : LogSetup → MainCall
  acquire release : Resource → MainCall
  start : Mode → MainCall
  start_handler notify start_server : MainCall

-- main returns, leaves by `os.Exit(1)`, panics, or waits on `exit`.
pub data End : Type 0 where
  returned exited panicked waiting : End

pub record Process : Type 0 where
  pub calls : List MainCall
  pub printed : Bytes
  pub end : End

abbrev pub calling : MainCall → Process → Process
calling c p = record p { calls = c ∷ p.calls }

abbrev pub printing : Bytes → Process → Process
printing s p = record p { printed = s ++ p.printed }

abbrev pub unwinds : End → Bool
unwinds End.returned = true
unwinds End.panicked = true
unwinds _ = false

-- What a deferred call comes to.
pub data Closed : Type 0 where
  done panics waits : Closed

-- The end of main behind a deferred call that was made.
abbrev pub settle_end : Closed → End → End
settle_end Closed.panics End.returned = End.panicked
settle_end Closed.waits End.returned = End.waiting
settle_end Closed.waits End.panicked = End.waiting
settle_end _ e = e

-- A deferred call is made when main returns or panics, and not by `os.Exit`. It may panic or wait itself; the
-- calls that were deferred before it are made behind a panic too.
unfoldable pub deferring : Resource → Closed → Process → Process
deferring r o p = record p {
  calls = if unwinds p.end then p.calls ++ MainCall.release r ∷ [] else p.calls;
  end = settle_end o p.end;
}

abbrev pub stops : End → Process
stops e = record { calls = []; printed = []; end = e }

-- exitError
unfoldable pub exit_error : Bytes → Process
exit_error e = printing (codes "error: " ++ (e ++ codes "\n\n")) (stops End.exited)

-- usageError, with the usage text.
unfoldable pub usage_exit : Bytes → Bytes → Process
usage_exit usage e = printing (codes "error: " ++ (e ++ (codes "\n\n" ++ usage))) (stops End.exited)

-- createProfileFile, with the error of `os.Create`: the message with which it leaves the program.
unfoldable pub create_profile_file : Bytes → Option Bytes → Option Bytes
create_profile_file name none = none
create_profile_file name (some e) =
    some (codes "error creating profile file " ++ (name ++ (codes ": " ++ e)))

-- What enableCPUProfile comes to: true, false with what is printed, or the end of the program.
pub data CpuProfile : Type 0 where
  enabled : CpuProfile
  disabled not_created : Bytes → CpuProfile

profile_started : Option Bytes → Option Bytes → CpuProfile
profile_started (some e) begun = CpuProfile.not_created e
profile_started none none = CpuProfile.enabled
profile_started none (some e) =
    CpuProfile.disabled (codes "could not start cpu profile: " ++ (e ++ codes "\n"))

-- With the flag -p, the error of `os.Create` and that of `pprof.StartCPUProfile`.
unfoldable pub enable_cpu_profile : Bytes → Option Bytes → Option Bytes → CpuProfile
unfolding profile_started create_profile_file
enable_cpu_profile [] create begun = CpuProfile.disabled []
enable_cpu_profile (c ∷ name) create begun =
    profile_started (create_profile_file (c ∷ name) create) begun

heap_written : Option Bytes → Option Bytes → HeapProfile
heap_written (some e) write = HeapProfile.no_file e
heap_written none write = HeapProfile.written write

-- memProfile, with the flag -m, the error of `os.Create` and that of `pprof.WriteHeapProfile`.
unfoldable pub heap_profile : Bytes → Option Bytes → Option Bytes → HeapProfile
unfolding heap_written create_profile_file
heap_profile [] create write = HeapProfile.not_asked
heap_profile (c ∷ name) create write = heap_written (create_profile_file (c ∷ name) create) write

-- initLogging, with the flags -d and -o.
unfoldable pub log_setup : Bool → Bytes → LogSetup
log_setup debug file = record {
  debug = debug;
  output =
      if not (equal file (codes "/dev/stderr")) then LogOutput.rotated file else LogOutput.stderr;
}

-- NewSandbox gives a sandbox or an error, it panics, or it still waits.
pub data Made (L : Type 0) : Type 0 where
  made : L → Made L
  failed : Bytes → Made L
  panicked waiting : Made L

-- The flags, and what main meets: `close_sandbox` is `l.Close()` and `close_reader` is `readCloser.Close()`. `received` is the first value on `exit`, if there ever is one.
pub record Env (L : Type 0) : Type 0 where
  pub program : Bytes
  pub flags : List Flag
  pub script : Bytes
  pub bench : Bytes
  pub full_bench : Bytes
  pub dirs : List Bytes
  pub cpu_profile : Bytes
  pub debug : Bool
  pub debug_file : Bytes
  pub server : Bool
  pub create_error : Option Bytes
  pub start_error : Option Bytes
  pub new_sandbox : Bytes → Made L
  pub os : Os
  pub watcher_error : Option Bytes
  pub open_error : Option Bytes
  pub close_sandbox : L → Closed
  pub close_reader : Opened → Closed
  pub received : Mode → L → Opened → Option (Option Bytes)

-- `err = <-exit`
unfoldable pub receive_exit : Option (Option Bytes) → Process
receive_exit none = stops End.waiting
receive_exit (some none) = stops End.returned
receive_exit (some (some e)) = printing (e ++ codes "\n") (stops End.exited)

module _ {L : Type 0} (env : Env L) where
  unfoldable pub serve : Option (Option Bytes) → Process
  unfolding receive_exit
  serve r = if env.server then calling MainCall.start_server (receive_exit r) else receive_exit r

  -- From the goroutine of the mode on.
  unfoldable pub run_mode : Mode → L → Opened → Process
  unfolding serve deferring
  run_mode mode l o = calling (MainCall.start mode) (
      calling (MainCall.acquire Resource.signals) (
        deferring Resource.signals Closed.done (
          calling MainCall.start_handler
            (calling MainCall.notify (serve (env.received mode l o))))))

  -- From `defer readCloser.Close()` on.
  unfoldable pub from_reader : Mode → L → Opened → Process
  unfolding run_mode deferring
  from_reader mode l o = deferring Resource.reader (env.close_reader o) (run_mode mode l o)

  -- getReader has opened the reader or the file, or not.
  unfoldable pub with_reader : Mode → L → Opened → Process
  unfolding from_reader exit_error
  with_reader mode l (Opened.directories d) =
      calling (MainCall.acquire Resource.reader) (from_reader mode l (Opened.directories d))
  with_reader mode l Opened.file =
      calling (MainCall.acquire Resource.reader) (from_reader mode l Opened.file)
  with_reader mode l (Opened.failed e) = exit_error e
  with_reader mode l (Opened.exits e) = exit_error e
  with_reader mode l Opened.panicked = stops End.panicked

  -- From `defer l.Close()` on.
  unfoldable pub from_sandbox : L → Process
  unfolding with_reader get_reader deferring choose_mode
  from_sandbox l = deferring Resource.sandbox (env.close_sandbox l) (
      calling (MainCall.acquire Resource.exit_channel) (
        deferring Resource.exit_channel Closed.done (
          with_reader (choose_mode env.script env.bench) l
            (get_reader env.os env.dirs env.watcher_error env.open_error))))

  -- NewSandbox has made the sandbox, or not.
  unfoldable pub with_sandbox : Made L → Process
  unfolding from_sandbox exit_error
  with_sandbox (Made.made l) = calling (MainCall.acquire Resource.sandbox) (from_sandbox l)
  with_sandbox (Made.failed e) = exit_error e
  with_sandbox Made.panicked = stops End.panicked
  with_sandbox Made.waiting = stops End.waiting

  -- From `defer pprof.StopCPUProfile()` on.
  unfoldable pub from_profile : Bytes → Process
  unfolding with_sandbox deferring
  from_profile v = deferring Resource.profile Closed.done (with_sandbox (env.new_sandbox v))

  -- `pprof.StartCPUProfile` has started the profile, or not.
  unfoldable pub with_profile : CpuProfile → Bytes → Process
  unfolding from_profile with_sandbox exit_error
  with_profile CpuProfile.enabled v = calling (MainCall.acquire Resource.profile) (from_profile v)
  with_profile (CpuProfile.disabled s) v = printing s (with_sandbox (env.new_sandbox v))
  with_profile (CpuProfile.not_created e) v = exit_error e

  unfoldable pub with_flags : Flags → Process
  unfolding with_profile usage_exit enable_cpu_profile log_setup usage_text
  with_flags (Flags.usage_error e) = usage_exit (usage_text env.program env.flags) e
  with_flags (Flags.script v) =
      calling (MainCall.init_logging (log_setup env.debug env.debug_file))
        (with_profile (enable_cpu_profile env.cpu_profile env.create_error env.start_error) v)

  unfoldable pub main : Process
  unfolding with_flags validate_flags
  main = with_flags (validate_flags env.script env.bench env.full_bench)
