-- ===== src/Http/Witnesses.antt =====
-- The theorems about the HTTP client at a run of two workers, and tests of its functions.
use logd_go.Base.{
  ℕ, zero, suc, ◌≡◌, ◌≤◌, refl, true, false, none, some, List, [], ◌∷◌, ◌++◌, Bytes, codes, ℤ,
  length, rounds, get_elem?, arith,
}
use logd_go.Http.Config.{Config}
use logd_go.Http.Worker.{Request, Response, Worker, Phase, new_worker, post_request}
use logd_go.Http.Client.{
  Channel, Client, NewRequest, PostResult, new_post_request, post, workers_of, new_client,
}
use logd_go.Http.System.{System, Result, Action, After, Call, start, advance}
use logd_go.Http.Invariant.{sent_to, queue_of}
use logd_go.Http.Delivery.{run_from, run-accepted, run-closed, run-bounded}
use logd_go.Http.Refused.{init-close_panics}
use logd_go.Http.Routing.{AllOpen, IsPicked, post-available}

-- A URL stands for itself.
abbrev pub plain : Bytes → NewRequest
plain url = NewRequest.parsed url

abbrev pub two_workers : Config
two_workers = record { concurrency = ℤ.pos 2; chan_buffer = ℤ.pos 1; timeout = ℤ.pos 5 }

abbrev request : Bytes → Request
request payload = record {
  url = codes "u";
  content_type = codes "t";
  payload = payload;
  timeout = ℤ.pos 5;
}

abbrev post_any : Bytes → Action
post_any payload = Action.call_post (codes "u") payload (codes "t") (ℤ.negsuc 0)

abbrev pub ok : Response
ok = Response.answered 200 (codes "200 OK") [] none

-- Two posts, the first of which fails and is reported, and Close.
abbrev script : List Action
script =
    Action.call_init (some two_workers) true
    ∷ post_any (codes "a")
    ∷ Action.proceed
    ∷ post_any (codes "b")
    ∷ Action.proceed
    ∷ Action.receives 0
    ∷ Action.responds 0 (Response.failed (codes "refused"))
    ∷ Action.reports 0
    ∷ Action.call_close
    ∷ Action.proceed
    ∷ Action.receives 0
    ∷ Action.quits 0
    ∷ Action.proceed
    ∷ Action.receives 1
    ∷ Action.responds 1 ok
    ∷ Action.receives 1
    ∷ Action.quits 1
    ∷ Action.proceed
    ∷ []

abbrev history : List (ℕ × Request)
history = (0, request (codes "a")) ∷ (1, request (codes "b")) ∷ []

abbrev closed_system : System
closed_system = record {
  client = record {
    cfg = two_workers;
    reqchan = none;
    errorchan = true;
    quitchan = Channel.closed;
  };
  call = Call.idle;
  accepted = history;
  attempted = history;
}

run-script : run_from plain script (Result.running start) ≡ Result.running closed_system
unfolding run_from
run-script = refl

run-closed_example : sent_to 1 closed_system.accepted ≡ sent_to 1 closed_system.attempted
run-closed_example = run-closed plain script run-script refl 1

-- The same run up to the two posts.
abbrev pub posts : List Action
posts =
    Action.call_init (some two_workers) true
    ∷ post_any (codes "a")
    ∷ Action.proceed
    ∷ post_any (codes "b")
    ∷ Action.proceed
    ∷ Action.receives 0
    ∷ []

abbrev pub waiting_worker : Worker
waiting_worker = record (new_worker 1) { queue = request (codes "b") ∷ [] }

abbrev pub full_client : Client
full_client = record {
  cfg = two_workers;
  reqchan =
      some (
        record (new_worker 1) { phase = Phase.posting (request (codes "a")) }
        ∷ waiting_worker
        ∷ []);
  errorchan = true;
  quitchan = Channel.opened;
}

abbrev pub posted_system : System
posted_system = record {
  client = full_client;
  call = Call.idle;
  accepted = history;
  attempted = (0, request (codes "a")) ∷ [];
}

pub run-posts : run_from plain posts (Result.running start) ≡ Result.running posted_system
unfolding run_from
run-posts = refl

run-accepted_example :
    sent_to 1 posted_system.accepted
    ≡ sent_to 1 posted_system.attempted
      ++ queue_of (get_elem? (workers_of posted_system.client.reqchan) 1)
run-accepted_example = run-accepted plain posts run-posts 1

run-bounded_example :
    length (queue_of (get_elem? (workers_of posted_system.client.reqchan) 1))
    ≤ rounds posted_system.client.cfg.chan_buffer
run-bounded_example = run-bounded plain posts run-posts 1

abbrev full_workers : List Worker
full_workers = workers_of full_client.reqchan

full_workers_open : AllOpen full_workers
full_workers_open zero w e = ground arith
full_workers_open (suc zero) w e = ground arith
full_workers_open (suc (suc j)) w e = cc

post-available_example :
    (k : ℕ) × (post plain full_client (codes "u") (codes "c") (codes "t") (ℤ.negsuc 0)
      ≡ PostResult.sends (new_post_request full_client (codes "u") (codes "c") (codes "t")) k)
    × IsPicked full_workers k
post-available_example =
    post-available plain full_client full_workers (codes "u") (codes "u") (codes "c") (codes "t")
      refl refl refl 0 (omega arith) full_workers_open

post_request-created :
    post_request (request []) (Response.answered 201 (codes "201") [] none) ≡ none
unfolding post_request
post_request-created = refl

post_request-refused :
    post_request (request []) (Response.answered 404 (codes "404 Not Found") (codes "x") none)
    ≡ some (codes "request to 'u' status: 404 Not Found")
unfolding post_request
post_request-refused = refl

new_client-invalid :
    new_client (some (record two_workers { chan_buffer = ℤ.negsuc 2 })) false
    ≡ some (none, some (codes "config error: min http channel buffer is 1"))
unfolding new_client
new_client-invalid = refl

abbrev bufferless : Config
bufferless = record two_workers { chan_buffer = ℤ.pos 0 }

init-close_panics_example :
    (s : System) × (advance plain (Action.call_init (some bufferless) false) start
      ≡ Result.running s)
    × (s.call ≡ Call.idle)
    × (s.client.reqchan ≡ none)
    × (advance plain Action.proceed (record s { call = Call.stopping After.close 0 })
        ≡ Result.panicked)
init-close_panics_example =
    init-close_panics plain start bufferless false After.close refl refl
      (record { concurrent = refl; bufferless = refl })
