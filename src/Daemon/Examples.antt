-- ===== src/Daemon/Examples.antt =====
-- main with flags and answers that are given.
use logd_go.Base.{◌⊎◌, inl, ◌≡◌, ◌↔◌, refl, false, if◌then◌else◌, none, some, [], ◌∷◌, Bytes, codes}
use logd_go.Watcher.Reader.{Os, Tree}
use logd_go.Daemon.Main.{Closed, Resource, End, Made, Env, unwinds, main}
use logd_go.Daemon.Ends.{acquired, released, main-Releases}
use logd_go.Daemon.Success.{Succeeds, main-returned}

abbrev no_os : Os
no_os = record {
  open_file = λ n. inl (codes "none");
  stat = λ n. inl (codes "none");
  seek_end = λ n. none;
  close_file = λ n. none;
  read_fd = λ n. ([], none);
  tree = λ n. Tree.broken n;
  watch_add = λ n. none;
  watch_remove = λ n. none;
  watch_close = none;
}

-- The sandbox is its script, and the input ends without an error.
abbrev started : Env Bytes
started = record {
  program = codes "logd";
  flags = [];
  script = codes "a.lua";
  bench = [];
  full_bench = [];
  dirs = [];
  cpu_profile = codes "cpu.prof";
  debug = false;
  debug_file = codes "/dev/stderr";
  server = false;
  create_error = none;
  start_error = none;
  new_sandbox = λ v. Made.made v;
  os = no_os;
  watcher_error = none;
  open_error = none;
  close_sandbox = λ l. Closed.done;
  close_reader = λ o. Closed.done;
  received = λ mode l o. some none;
}

main-Releases_example :
    ((main started).end ≡ End.waiting)
    ⊎ (released (main started).calls
        ≡ (if unwinds (main started).end then acquired (main started).calls else []))
main-Releases_example = main-Releases started

-- The pipeline sends an error.
abbrev failing : Env Bytes
failing = record started { received = λ mode l o. some (some (codes "boom")) }

main-started :
    released (main started).calls
    ≡ Resource.signals ∷ Resource.reader ∷ Resource.exit_channel ∷ Resource.sandbox
      ∷ Resource.profile ∷ []
unfolding main
main-started = refl

main-failing : released (main failing).calls ≡ []
unfolding main
main-failing = refl

main-returned_example : ((main started).end ≡ End.returned) ↔ Succeeds started
main-returned_example = main-returned started
