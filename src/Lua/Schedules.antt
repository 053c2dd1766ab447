-- ===== src/Lua/Schedules.antt =====
-- lua/http.go: a schedule that leads to the deadlock of config_set, and one that goes on from there.
use logd_go.Base.{◌≡◌, refl, inr, true, false, some, List, [], ◌∷◌, ◌++◌, codes, ℤ}
use logd_go.Http.Config.{Config, default_timeout}
use logd_go.Http.Worker.{Request, Response, Worker, Phase}
use logd_go.Http.Client.{Channel, post}
use logd_go.Http.System.{System, After, Call, start}
use logd_go.Http.Witnesses.{plain}
use logd_go.Lua.Lock.{Owner, Poller, Shared, LockEvent, Moved, run_events}
use logd_go.Lua.Deadlock.{IsStuck, run_events-IsStuck}
use logd_go.Lua.Reentry.{IsCaught, run_events-IsCaught}
use logd_go.Lua.Relief.{relief, in_hook, run_events-relieved}
use logd_go.Lua.Runs.{Ends}

abbrev one_worker : Config
one_worker = record { concurrency = ℤ.pos 1; chan_buffer = ℤ.pos 2; timeout = default_timeout }

abbrev begun : Shared
begun = record {
  system = start;
  owner = Owner.free;
  poller = Poller.receiving;
  configuring = false;
}

abbrev posting : LockEvent
posting = LockEvent.post (codes "u") (codes "x") (codes "t") (ℤ.negsuc 0)

abbrev down : Response
down = Response.failed (codes "down")

-- A hook starts the client and posts twice. Both requests fail: the poller receives the first error and waits for
-- the lock, which the next hook holds, and the worker waits for the poller with the second one. That hook calls
-- config_set, which closes the queue and waits for the worker.
abbrev failing_posts : List LockEvent
failing_posts =
    LockEvent.lock
    ∷ LockEvent.configure one_worker
    ∷ posting
    ∷ LockEvent.proceed
    ∷ LockEvent.lock
    ∷ posting
    ∷ LockEvent.proceed
    ∷ LockEvent.receive 0
    ∷ LockEvent.respond 0 down
    ∷ LockEvent.lock
    ∷ LockEvent.report 0
    ∷ LockEvent.receive 0
    ∷ LockEvent.respond 0 down
    ∷ LockEvent.configure one_worker
    ∷ LockEvent.proceed
    ∷ []

abbrev request : Request
request = record {
  url = codes "u";
  content_type = codes "t";
  payload = codes "x";
  timeout = default_timeout;
}

abbrev stuck : Shared
stuck = record {
  system = record start {
    client = record {
      cfg = one_worker;
      errorchan = true;
      reqchan = some (
          record {
            queue = [];
            capacity = 2;
            closed = true;
            phase = Phase.reporting request (codes "down");
          }
          ∷ []);
      quitchan = Channel.opened;
    };
    call = Call.waiting (After.init (some one_worker) true) 0;
    accepted = (0, request) ∷ (0, request) ∷ [];
    attempted = (0, request) ∷ (0, request) ∷ [];
  };
  owner = Owner.hook;
  poller = Poller.locking;
  configuring = true;
}

run_events-stuck : run_events plain failing_posts begun ≡ Moved.moved stuck
unfolding run_events
run_events-stuck = refl

stuck-IsStuck : IsStuck stuck
stuck-IsStuck = record {
  held = refl;
  configures = refl;
  busy = λ e. cc;
  after = After.init (some one_worker) true;
  round = 0;
  waits = refl;
  jammed = (refl, tt);
}

run_events-IsStuck_example : Ends IsStuck (
    run_events plain
      (LockEvent.poll_lock ∷ LockEvent.report 0 ∷ LockEvent.quit 0 ∷ LockEvent.unlock ∷ [])
      stuck)
run_events-IsStuck_example =
    run_events-IsStuck plain
      (LockEvent.poll_lock ∷ LockEvent.report 0 ∷ LockEvent.quit 0 ∷ LockEvent.unlock ∷ []) stuck
      stuck-IsStuck

abbrev small_worker : Config
small_worker = record { concurrency = ℤ.pos 1; chan_buffer = ℤ.pos 1; timeout = default_timeout }

-- Three posts, of which the first two fail while the third fills the queue, and then one by the hook
-- on_http_error.
abbrev retried_posts : List LockEvent
retried_posts =
    LockEvent.lock
    ∷ LockEvent.configure small_worker
    ∷ posting
    ∷ LockEvent.proceed
    ∷ LockEvent.receive 0
    ∷ LockEvent.lock
    ∷ posting
    ∷ LockEvent.proceed
    ∷ LockEvent.respond 0 down
    ∷ LockEvent.report 0
    ∷ LockEvent.receive 0
    ∷ LockEvent.respond 0 down
    ∷ LockEvent.lock
    ∷ posting
    ∷ LockEvent.proceed
    ∷ LockEvent.poll_lock
    ∷ posting
    ∷ []

abbrev full_queue : Worker
full_queue = record {
  queue = request ∷ [];
  capacity = 1;
  closed = false;
  phase = Phase.reporting request (codes "down");
}

abbrev caught : Shared
caught = record {
  system = record start {
    client = record {
      cfg = small_worker;
      errorchan = true;
      reqchan = some (full_queue ∷ []);
      quitchan = Channel.opened;
    };
    call = Call.sending request 0;
    accepted = (0, request) ∷ (0, request) ∷ (0, request) ∷ [];
    attempted = (0, request) ∷ (0, request) ∷ [];
  };
  owner = Owner.free;
  poller = Poller.posting;
  configuring = false;
}

run_events-caught : run_events plain retried_posts begun ≡ Moved.moved caught
unfolding run_events
run_events-caught = refl

caught-IsCaught : IsCaught caught
caught-IsCaught = record {
  posts = refl;
  not_owner = λ e. cc;
  request = request;
  queue = 0;
  sends = refl;
  worker = full_queue;
  is_worker = refl;
  opened = refl;
  full = refl;
  failed = request;
  error = codes "down";
  reports = refl;
}

run_events-IsCaught_example : Ends IsCaught (
    run_events plain
      (LockEvent.poll_lock ∷ LockEvent.proceed ∷ LockEvent.report 0 ∷ LockEvent.lock ∷ [])
      caught)
run_events-IsCaught_example =
    run_events-IsCaught plain
      (LockEvent.poll_lock ∷ LockEvent.proceed ∷ LockEvent.report 0 ∷ LockEvent.lock ∷ []) caught
      (tt, (tt, (tt, (tt, tt)))) caught-IsCaught

abbrev crowded : System
crowded = record caught.system { call = Call.idle }

run_events-relieved_example :
    (t : Shared) × (run_events plain
        (relief (codes "u") (codes "x") (codes "t") (ℤ.negsuc 0) 0)
        (in_hook crowded Poller.locking)
      ≡ Moved.moved t)
    × (t.system.call ≡ Call.idle)
    × (t.system.accepted ≡ crowded.accepted ++ (0, request) ∷ [])
unfolding post
run_events-relieved_example =
    run_events-relieved plain crowded 0 1 request request [] (codes "down") request refl refl
      (codes "u") (codes "x") (codes "t") (ℤ.negsuc 0) refl refl Poller.locking (inr refl)
