-- ===== src/Lua/Relief.antt =====
-- lua/http.go: http_post gives the lock up, so that the poller of errors can go on, and the workers and the Post with
-- it.
use logd_go.Base.{
  ℕ, ◌≡◌, ◌⊎◌, inl, inr, refl, true, false, some, List, [], ◌∷◌, ◌++◌, Bytes, ℤ, length, get_elem?,
  update, arith, zero, suc,
}
use logd_go.Http.Worker.{
  Request, Worker, Phase, report, report_in, receive, receive_in, receive_from, has_room,
}
use logd_go.Http.Client.{NewRequest, PostResult, post, workers_of}
use logd_go.Http.System.{
  System, Result, Action, Call, is_idle, advance, enter, enter_post, step_worker, receive_step,
  at_worker, put_workers, proceed_in, send_on,
}
use logd_go.Lua.Lock.{
  Owner, Poller, Shared, LockEvent, Moved, with_system, take_lock, poller_locks, poller_unlocks,
  deliver, move, run_moved, run_events,
}

-- A hook runs, and the client is in no call.
abbrev pub in_hook : System → Poller → Shared
in_hook sys p = record { system = sys; owner = Owner.hook; poller = p; configuring = false }

-- Post is called, the poller ends what it does, worker `j` hands its error over and takes its next request, and Post
-- goes on.
abbrev pub relief : (url payload content_type : Bytes) → ℤ → ℕ → List LockEvent
relief url payload content_type affinity j =
    LockEvent.post url payload content_type affinity
    ∷ LockEvent.poll_lock
    ∷ LockEvent.poll_unlock
    ∷ LockEvent.report j
    ∷ LockEvent.receive j
    ∷ LockEvent.proceed
    ∷ []

get_elem?-put :
    (ws : List Worker) (j : ℕ) (w : Worker) {v : Worker}
    → get_elem? ws j ≡ some v
    → get_elem? (update ws j w) j ≡ some w
get_elem?-put [] j w e = cc
get_elem?-put (x ∷ ws) zero w e = refl
get_elem?-put (x ∷ ws) (suc j) w e = get_elem?-put ws j w e

module _ (parse : Bytes → NewRequest) (sys : System) (j capacity : ℕ) (x r : Request)
    (q : List Request) (e : Bytes) where
  -- The worker, with a full queue, at the send of an error.
  abbrev pub jammed : Worker
  jammed = record {
    queue = x ∷ q;
    capacity = capacity;
    closed = false;
    phase = Phase.reporting r e;
  }

  abbrev relieved : Worker
  relieved = record jammed { phase = Phase.receiving }

  abbrev served : Worker
  served = record jammed { queue = q; phase = Phase.posting x }

  module _ (new : Request) (at_j : get_elem? (workers_of sys.client.reqchan) j ≡ some jammed)
      (full : length (x ∷ q) ≡ capacity) where
    abbrev sent : System
    sent = record sys { call = Call.sending new j }

    abbrev reported : System
    reported = put_workers sent (update (workers_of sys.client.reqchan) j relieved)

    abbrev taken : System
    taken = record (put_workers reported (update (workers_of reported.client.reqchan) j served)) {
      attempted = sys.attempted ++ (j, x) ∷ [];
    }

    advance-reports : advance parse (Action.reports j) sent ≡ Result.running reported
    unfolding advance step_worker at_worker report report_in
    advance-reports = rw at_j refl

    at_reported : get_elem? (workers_of reported.client.reqchan) j ≡ some relieved
    at_reported = get_elem?-put (workers_of sys.client.reqchan) j relieved at_j

    advance-receives : advance parse (Action.receives j) reported ≡ Result.running taken
    unfolding advance receive_step at_worker receive receive_in receive_from
    advance-receives = rw at_reported refl

    at_taken : get_elem? (workers_of taken.client.reqchan) j ≡ some served
    at_taken = get_elem?-put (workers_of reported.client.reqchan) j served at_reported

    room : has_room served ≡ true
    room = ground (arith, full)

    abbrev gone : System
    gone =
        record (put_workers taken
          (update (workers_of taken.client.reqchan) j (record served { queue = q ++ new ∷ [] }))) {
            call = Call.idle;
            accepted = sys.accepted ++ (j, new) ∷ [];
          }

    advance-proceed : advance parse Action.proceed taken ≡ Result.running gone
    unfolding advance proceed_in send_on
    advance-proceed = rw at_taken (rw room refl)

    -- The state of the machine while Post waits.
    abbrev waits : System → Poller → Shared
    waits t p = record { system = t; owner = Owner.free; poller = p; configuring = false }

    move-report :
        move parse (LockEvent.report j) (waits sent Poller.receiving)
        ≡ Moved.moved (waits reported Poller.locking)
    unfolding move deliver with_system
    move-report = rw advance-reports refl

    move-receive :
        move parse (LockEvent.receive j) (waits reported Poller.locking)
        ≡ Moved.moved (waits taken Poller.locking)
    unfolding move with_system
    move-receive = rw advance-receives refl

    move-proceed :
        move parse LockEvent.proceed (waits taken Poller.locking)
        ≡ Moved.moved (waits gone Poller.locking)
    unfolding move with_system
    move-proceed = rw advance-proceed refl

    module _ (url payload content_type : Bytes) (affinity : ℤ) (idle : sys.call ≡ Call.idle)
        (sends : post parse sys.client url payload content_type affinity
          ≡ PostResult.sends new j) where
      move-post :
          (p : Poller)
          → move parse (LockEvent.post url payload content_type affinity) (in_hook sys p)
            ≡ Moved.moved (waits sent p)
      unfolding move advance enter enter_post is_idle with_system
      move-post p = rw idle (rw sends refl)

      -- http_post gives the lock up, and so gets on: a hook, called by another goroutine than the poller of errors,
      -- posts while the client is in no call, and Post picks the open, full queue of a worker that waits to send
      -- an error to that poller. The poller receives, or it waits for the lock that the hook holds. Then it can
      -- take the lock, end its call and receive, the worker can go on to its next request, and the Post returns
      -- with its request on the queue.
      pub run_events-relieved :
          (p : Poller)
          → (p ≡ Poller.receiving) ⊎ (p ≡ Poller.locking)
          → (t : Shared) × (run_events parse
                (relief url payload content_type affinity j)
                (in_hook sys p)
              ≡ Moved.moved t)
            × (t.system.call ≡ Call.idle)
            × (t.system.accepted ≡ sys.accepted ++ (j, new) ∷ [])
      unfolding run_events run_moved move poller_locks poller_unlocks take_lock
      run_events-relieved p (inl h) = (
        waits gone Poller.locking,
        rw h (
            rw (move-post Poller.receiving)
              (rw move-report (rw move-receive (rw move-proceed refl)))),
        refl,
        refl,
      )
      run_events-relieved p (inr h) = (
        waits gone Poller.locking,
        rw h (
            rw (move-post Poller.locking)
              (rw move-report (rw move-receive (rw move-proceed refl)))),
        refl,
        refl,
      )
