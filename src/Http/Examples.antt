-- ===== src/Http/Examples.antt =====
-- The theorems about the calls of the HTTP client at a run of two workers.
use logd_go.Base.{◌+◌, ◌≡◌, ◌≤◌, refl, some, [], ◌∷◌, length, arith}
use logd_go.Http.System.{System, Result, Action, advance}
use logd_go.Http.Worker.{new_worker}
use logd_go.Http.Delivery.{run_from, run-Good}
use logd_go.Http.Work.{work}
use logd_go.Http.Ready.{IsReady}
use logd_go.Http.Liveness.{StillCompletes, run_from-work}
use logd_go.Http.Returns.{call-returns}
use logd_go.Http.Witnesses.{plain, posts, posted_system, run-posts, ok, full_client, waiting_worker}

pub posted-IsReady : IsReady posted_system
posted-IsReady = record {
  good = run-Good plain posts run-posts;
  made = refl;
  some_queue = omega arith;
  buffered = refl;
  quit_open = refl;
  in_range = tt;
}

call-returns_example :
    (t : System) × (advance plain Action.call_close posted_system ≡ Result.running t)
    × StillCompletes plain
        (run_from plain (Action.proceed ∷ Action.responds 0 ok ∷ []) (Result.running t))
call-returns_example =
    call-returns plain posted_system Action.call_close (Action.proceed ∷ Action.responds 0 ok ∷ [])
      posted-IsReady refl refl (refl, (refl, tt))

abbrev pub answered_system : System
answered_system = record posted_system {
  client = record full_client { reqchan = some (new_worker 1 ∷ waiting_worker ∷ []) };
}

run-answered :
    run_from plain (Action.responds 0 ok ∷ []) (Result.running posted_system)
    ≡ Result.running answered_system
unfolding run_from
run-answered = refl

run_from-work_example :
    length (Action.responds 0 ok ∷ []) + work answered_system ≤ work posted_system
run_from-work_example =
    run_from-work plain (Action.responds 0 ok ∷ []) posted_system posted-IsReady.good (refl, tt)
      run-answered
