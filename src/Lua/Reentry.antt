-- ===== src/Lua/Reentry.antt =====
-- lua/http.go: http_post inside the hook on_http_error, which the poller of errors calls.
use logd_go.Base.{
  ℕ, ◌≡◌, ◌≢◌, inl, inr, refl, ◌∙◌, Bool, false, ◌||◌, ◌==◌, Option, none, some, List, Bytes, All,
  get_elem?, update, get_elem?-update, arith, Bool-cases, Option-cases,
}
use logd_go.Http.Worker.{
  Request, Worker, Phase, Response, has_room, receive, respond, receive_in, respond_in,
}
use logd_go.Http.Client.{NewRequest, workers_of}
use logd_go.Http.System.{
  System, Result, Call, is_idle, advance, enter, proceed_in, send_on, receive_step, step_worker,
  quit_step, at_worker,
}
use logd_go.Lua.Lock.{
  Owner, Poller, Shared, LockEvent, is_free, with_system, take_lock, release_lock, poller_locks,
  poller_unlocks, from_owner, gives_up, deliver, move, run_events,
}
use logd_go.Lua.Runs.{Stays, Ends, run_events-EndsFor}

-- The poller is in an http_post of its hook, at the send to the full queue of a worker that waits to send it an error.
pub record IsCaught (s : Shared) : Type 0 where
  pub posts : s.poller ≡ Poller.posting
  pub not_owner : s.owner ≢ Owner.poller
  pub request : Request
  pub queue : ℕ
  pub sends : s.system.call ≡ Call.sending request queue
  pub worker : Worker
  pub is_worker : get_elem? (workers_of s.system.client.reqchan) queue ≡ some worker
  pub opened : worker.closed ≡ false
  pub full : has_room worker ≡ false
  pub failed : Request
  pub error : Bytes
  pub reports : worker.phase ≡ Phase.reporting failed error

-- The step, if it is one, leaves the call and the worker at the index.
abbrev pub StaysIn : Request → ℕ → Worker → Result → Type 0
StaysIn r i w (Result.running t) =
    (t.call ≡ Call.sending r i) × (get_elem? (workers_of t.client.reqchan) i ≡ some w)
StaysIn r i w Result.panicked = ⊥
StaysIn r i w Result.disabled = Unit {0}

module _ (s : System) (r : Request) (i : ℕ) (w : Worker) (x : Request) (y : Bytes)
    (c : s.call ≡ Call.sending r i) (e : get_elem? (workers_of s.client.reqchan) i ≡ some w)
    (p : w.phase ≡ Phase.reporting x y) where
  -- A step of another worker.
  update-other :
      (f : Worker → Option Worker) (j : ℕ) (w' : Worker)
      → f w ≡ none
      → at_worker f (get_elem? (workers_of s.client.reqchan) j) ≡ some w'
      → get_elem? (update (workers_of s.client.reqchan) j w') i ≡ some w
  unfolding at_worker
  update-other f j w' n g =
      let ws = workers_of s.client.reqchan in
      elim (Bool-cases (j == i)) [
        | inl h ↦ let z : j ≡ i = ground arith in absurd (ground (arith, rw (z, e) at g))
        | inr h ↦ get_elem?-update ws j i w' ∙ rw h e
      ]

  step_worker-StaysIn :
      (f : Worker → Option Worker) (j : ℕ)
      → f w ≡ none
      → StaysIn r i w (step_worker s j (at_worker f (get_elem? (workers_of s.client.reqchan) j)))
  unfolding step_worker
  step_worker-StaysIn f j n =
      elim (Option-cases (at_worker f (get_elem? (workers_of s.client.reqchan) j))) [
        | inl g ↦ rw g tt
        | inr (w', g) ↦ rw g (c, update-other f j w' n g)
      ]

  receive_step-StaysIn :
      (j : ℕ)
      → StaysIn r i w
          (receive_step s j (at_worker receive (get_elem? (workers_of s.client.reqchan) j)))
  unfolding receive_step receive receive_in
  receive_step-StaysIn j =
      elim (Option-cases (at_worker receive (get_elem? (workers_of s.client.reqchan) j))) [
        | inl g ↦ rw g tt
        | inr (w', g) ↦ rw g (c, update-other receive j w' (rw p refl) g)
      ]

  respond-none : (b : Bool) (res : Response) → respond b res w ≡ none
  unfolding respond respond_in
  respond-none b res = rw p refl

  quit-StaysIn : (j : ℕ) (o : Option Worker) → StaysIn r i w (quit_step s.call s j o)
  unfolding quit_step
  quit-StaysIn j o = rw c tt

  proceed-StaysIn : w.closed ≡ false → has_room w ≡ false → StaysIn r i w (proceed_in s.call s)
  unfolding proceed_in send_on
  proceed-StaysIn o f = rw c (rw e (rw o (rw f tt)))

  not_idle : is_idle s.call ≡ false
  unfolding is_idle
  not_idle = rw c refl

with_system-Stays :
    (s : Shared) (v : IsCaught s) (b : Bool) (r : Result)
    → StaysIn v.request v.queue v.worker r
    → Stays IsCaught (with_system s b r)
unfolding with_system
with_system-Stays s v b (Result.running t) h = record {
  posts = v.posts;
  not_owner = v.not_owner;
  request = v.request;
  queue = v.queue;
  sends = h.0;
  worker = v.worker;
  is_worker = h.1;
  opened = v.opened;
  full = v.full;
  failed = v.failed;
  error = v.error;
  reports = v.reports;
}
with_system-Stays s v b Result.panicked h = h
with_system-Stays s v b Result.disabled h = tt

owned :
    (s : Shared) (o : Owner) (c : Bool)
    → IsCaught s
    → o ≢ Owner.poller
    → IsCaught (record s { owner = o; configuring = c })
owned s o c v n = record {
  posts = v.posts;
  not_owner = n;
  request = v.request;
  queue = v.queue;
  sends = v.sends;
  worker = v.worker;
  is_worker = v.is_worker;
  opened = v.opened;
  full = v.full;
  failed = v.failed;
  error = v.error;
  reports = v.reports;
}

-- The event is no config_set of a setting of HTTP.
abbrev pub NoInit : LockEvent → Type 0
NoInit (LockEvent.configure cfg) = ⊥
NoInit _ = Unit {0}

module _ (parse : Bytes → NewRequest) (s : Shared) (v : IsCaught s) where
  lock-Stays : Stays IsCaught (take_lock Owner.hook s)
  unfolding take_lock
  lock-Stays = elim (Bool-cases (is_free s.owner)) [
    | inl e ↦ rw e (owned s Owner.hook s.configuring v (λ z. cc))
    | inr e ↦ rw e tt
  ]

  unlock-Stays : (o : Owner) → Stays IsCaught (release_lock o s)
  unfolding release_lock
  unlock-Stays Owner.free = tt
  unlock-Stays Owner.poller = tt
  unlock-Stays Owner.hook = elim (Bool-cases s.configuring) [
    | inl e ↦ rw e tt
    | inr e ↦ rw e (owned s Owner.free false v (λ z. cc))
  ]

  poll_unlock-Stays : (o : Owner) → o ≢ Owner.poller → Stays IsCaught (poller_unlocks o s)
  unfolding poller_unlocks
  poll_unlock-Stays Owner.free n = tt
  poll_unlock-Stays Owner.hook n = tt
  poll_unlock-Stays Owner.poller n = absurd (n refl)

  busy : is_idle s.system.call ≡ false
  busy = not_idle s.system v.request v.queue v.worker v.failed v.error v.sends v.is_worker v.reports

  poll_lock-Stays : (p : Poller) → p ≡ Poller.posting → Stays IsCaught (poller_locks p s)
  unfolding poller_locks
  poll_lock-Stays p e = rw e (rw busy tt)

  report-Stays : (p : Poller) (r : Result) → p ≡ Poller.posting → Stays IsCaught (deliver p s r)
  unfolding deliver
  report-Stays p r e = rw e tt

  -- The client is busy, so no other Post begins.
  from_owner-Stays :
      (t : Shared) (b : Bool) (r : Result)
      → Stays IsCaught (from_owner s (with_system t b (enter (is_idle s.system.call) r)))
  unfolding with_system enter
  from_owner-Stays t b r =
      rw busy
        (elim (Bool-cases (is_free s.owner || s.configuring)) [ inl e ↦ rw e tt | inr e ↦ rw e tt ])

  move-Stays : (e : LockEvent) → NoInit e → Stays IsCaught (move parse e s)
  unfolding move advance
  move-Stays LockEvent.lock q = lock-Stays
  move-Stays LockEvent.unlock q = unlock-Stays s.owner
  move-Stays LockEvent.poll_lock q = poll_lock-Stays s.poller v.posts
  move-Stays LockEvent.poll_unlock q = poll_unlock-Stays s.owner v.not_owner
  move-Stays (LockEvent.configure cfg) q = absurd q
  move-Stays (LockEvent.post url payload content_type affinity) q =
      from_owner-Stays (gives_up s.owner s) false _
  move-Stays (LockEvent.report j) q = report-Stays s.poller _ v.posts
  move-Stays LockEvent.proceed q = with_system-Stays s v s.configuring _ (
      proceed-StaysIn s.system v.request v.queue v.worker v.failed v.error v.sends v.is_worker
        v.reports v.opened v.full)
  move-Stays (LockEvent.receive j) q = with_system-Stays s v s.configuring _ (
      receive_step-StaysIn s.system v.request v.queue v.worker v.failed v.error v.sends v.is_worker
        v.reports j)
  move-Stays (LockEvent.respond j res) q =
      let c = s.system.client.errorchan in
      let n =
        respond-none s.system v.request v.queue v.worker v.failed v.error v.sends v.is_worker
          v.reports c res in
      with_system-Stays s v s.configuring _ (
        step_worker-StaysIn s.system v.request v.queue v.worker v.failed v.error v.sends v.is_worker
          v.reports (respond c res) j n)
  move-Stays (LockEvent.quit j) q = with_system-Stays s v s.configuring _ (
      quit-StaysIn s.system v.request v.queue v.worker v.failed v.error v.sends v.is_worker
        v.reports j _)

-- http_post gives the lock up, and can still wait for ever: once the hook on_http_error is in an http_post at the
-- full queue of a worker that waits to send it an error, every schedule of the goroutines in which no hook calls
-- config_set of a setting of HTTP leads to such a state again. The Post never returns, no error is received any more,
-- and nothing panics: only Init or Close could close the queue under the send.
pub run_events-IsCaught :
    (parse : Bytes → NewRequest) (es : List LockEvent) (s : Shared)
    → All NoInit es
    → IsCaught s
    → Ends IsCaught (run_events parse es s)
run_events-IsCaught parse es s q v =
    run_events-EndsFor IsCaught parse NoInit (move-Stays parse) es s q v
