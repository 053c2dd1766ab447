-- ===== src/Lua/Deadlock.antt =====
-- lua/http.go: config_set waits, with the lock held, for workers that wait for the poller of errors, which waits for
-- the lock.
use logd_go.Base.{
  ℕ, ◌≡◌, ◌≢◌, inl, inr, refl, subst, Bool, true, false, not, Option, none, some, List, [], ◌∷◌,
  Bytes, All, get_elem?, update, arith, Bool-cases, Option-cases, zero, suc,
}
use logd_go.Http.Worker.{
  Worker, Phase, Response, receive, respond, quit, receive_in, respond_in, quit_in, receive_from,
}
use logd_go.Http.Client.{NewRequest, workers_of}
use logd_go.Http.System.{
  System, Result, After, Call, is_idle, advance, proceed_in, receive_step, step_worker, quit_step,
  at_worker,
}
use logd_go.Lua.Lock.{
  Owner, Poller, Shared, LockEvent, Moved, is_free, with_system, take_lock, release_lock,
  poller_locks, poller_unlocks, from_owner, deliver, move, run_events,
}
use logd_go.Lua.Runs.{Stays, Ends, run_events-Ends}

-- A worker that has ended, or sends an error, or serves a queue that is open.
abbrev pub jammed_in : Phase → Bool → Bool
jammed_in (Phase.reporting r e) closed = true
jammed_in Phase.stopped closed = true
jammed_in Phase.quitting closed = false
jammed_in _ closed = not closed

abbrev pub IsJammed : Worker → Type 0
IsJammed w = jammed_in w.phase w.closed ≡ true

-- A hook is in config_set, which waits for a worker, and the poller does not receive: it waits for the lock, or it is
-- itself the caller of the hook. Each worker whose queue is closed has ended or sends an error.
pub record IsStuck (s : Shared) : Type 0 where
  pub held : is_free s.owner ≡ false
  pub configures : s.configuring ≡ true
  pub busy : s.poller ≢ Poller.receiving
  pub after : After
  pub round : ℕ
  pub waits : s.system.call ≡ Call.waiting after round
  pub jammed : All IsJammed (workers_of s.system.client.reqchan)

All-update :
    (ws : List Worker) (j : ℕ) (w : Worker)
    → All IsJammed ws
    → IsJammed w
    → All IsJammed (update ws j w)
All-update [] j w a h = a
All-update (x ∷ ws) zero w a h = (h, a.1)
All-update (x ∷ ws) (suc j) w a h = (a.0, All-update ws j w a.1 h)

All-get_elem? :
    (ws : List Worker) (j : ℕ) {w : Worker} → All IsJammed ws → get_elem? ws j ≡ some w → IsJammed w
All-get_elem? [] j a e = cc
All-get_elem? (x ∷ ws) zero {w} a e = let f : x ≡ w = cc in subst IsJammed f a.0
All-get_elem? (x ∷ ws) (suc j) a e = All-get_elem? ws j a.1 e

receive-IsJammed : (w w' : Worker) → IsJammed w → receive w ≡ some w' → IsJammed w'
unfolding receive receive_in receive_from
receive-IsJammed w w' h e = ground arith

respond-IsJammed :
    (c : Bool) (res : Response) (w w' : Worker)
    → IsJammed w
    → respond c res w ≡ some w'
    → IsJammed w'
unfolding respond respond_in
respond-IsJammed c res w w' h e = ground arith

quit-IsJammed : (w : Worker) → IsJammed w → quit w ≡ none
unfolding quit quit_in
quit-IsJammed w h = ground arith

-- A step of a worker that is no report.
at_worker-jammed :
    (f : Worker → Option Worker) (o : Option Worker) {w' : Worker}
    → at_worker f o ≡ some w'
    → (w : Worker) × (o ≡ some w) × (f w ≡ some w')
unfolding at_worker
at_worker-jammed f none e = cc
at_worker-jammed f (some w) e = (w, refl, e)

-- The step, if it is one, leaves the call and the workers jammed.
abbrev pub StaysIn : After → ℕ → Result → Type 0
StaysIn k i (Result.running t) =
    (t.call ≡ Call.waiting k i) × All IsJammed (workers_of t.client.reqchan)
StaysIn k i Result.panicked = ⊥
StaysIn k i Result.disabled = Unit {0}

module _ (s : System) (k : After) (i : ℕ) (c : s.call ≡ Call.waiting k i)
    (a : All IsJammed (workers_of s.client.reqchan)) where
  step_worker-StaysIn :
      (f : Worker → Option Worker) (j : ℕ)
      → ((w w' : Worker) → IsJammed w → f w ≡ some w' → IsJammed w')
      → StaysIn k i (step_worker s j (at_worker f (get_elem? (workers_of s.client.reqchan) j)))
  unfolding step_worker
  step_worker-StaysIn f j g =
      let ws = workers_of s.client.reqchan in
      elim (Option-cases (at_worker f (get_elem? ws j))) [
        | inl e ↦ rw e tt
        | inr (w', e) ↦
            let (w, m, n) = at_worker-jammed f (get_elem? ws j) e in
            rw e (c, All-update ws j w' a (g w w' (All-get_elem? ws j a m) n))
      ]

  receive_step-StaysIn :
      (j : ℕ)
      → StaysIn k i
          (receive_step s j (at_worker receive (get_elem? (workers_of s.client.reqchan) j)))
  unfolding receive_step
  receive_step-StaysIn j =
      let ws = workers_of s.client.reqchan in
      elim (Option-cases (at_worker receive (get_elem? ws j))) [
        | inl e ↦ rw e tt
        | inr (w', e) ↦
            let (w, m, n) = at_worker-jammed receive (get_elem? ws j) e in
            rw e (c, All-update ws j w' a (receive-IsJammed w w' (All-get_elem? ws j a m) n))
      ]

  quit_step-StaysIn :
      (j : ℕ)
      → StaysIn k i
          (quit_step s.call s j (at_worker quit (get_elem? (workers_of s.client.reqchan) j)))
  unfolding quit_step
  quit_step-StaysIn j =
      let ws = workers_of s.client.reqchan in
      elim (Option-cases (at_worker quit (get_elem? ws j))) [
        | inl e ↦ rw (c, e) tt
        | inr (w', e) ↦
            let (w, m, n) = at_worker-jammed quit (get_elem? ws j) e in
            let z = quit-IsJammed w (All-get_elem? ws j a m) in cc
      ]

  proceed-StaysIn : StaysIn k i (proceed_in s.call s)
  unfolding proceed_in
  proceed-StaysIn = rw c tt

with_system-Stays :
    (s : Shared) (v : IsStuck s) (r : Result)
    → StaysIn v.after v.round r
    → Stays IsStuck (with_system s s.configuring r)
unfolding with_system
with_system-Stays s v (Result.running t) h = record {
  held = v.held;
  configures = rw v.configures (rw h.0 (unfold is_idle in refl));
  busy = v.busy;
  after = v.after;
  round = v.round;
  waits = h.0;
  jammed = h.1;
}
with_system-Stays s v Result.panicked h = h
with_system-Stays s v Result.disabled h = tt

module _ (parse : Bytes → NewRequest) (s : Shared) (v : IsStuck s) where
  pass_lock-Stays : (o : Owner) (p : Poller) → Stays IsStuck (take_lock o (record s { poller = p }))
  unfolding take_lock
  pass_lock-Stays o p = rw v.held tt

  from_owner-Stays : (r : Moved) → Stays IsStuck (from_owner s r)
  from_owner-Stays r = rw v.held (rw v.configures tt)

  unlock-Stays : (o : Owner) → Stays IsStuck (release_lock o s)
  unfolding release_lock
  unlock-Stays Owner.free = tt
  unlock-Stays Owner.hook = rw v.configures tt
  unlock-Stays Owner.poller = tt

  poll_unlock-Stays : (o : Owner) → Stays IsStuck (poller_unlocks o s)
  unfolding poller_unlocks
  poll_unlock-Stays Owner.free = tt
  poll_unlock-Stays Owner.hook = tt
  poll_unlock-Stays Owner.poller = rw v.configures tt

  poll_lock-Stays : (p : Poller) → Stays IsStuck (poller_locks p s)
  unfolding poller_locks
  poll_lock-Stays Poller.receiving = tt
  poll_lock-Stays Poller.locking = pass_lock-Stays Owner.poller Poller.calling
  poll_lock-Stays Poller.calling = tt
  poll_lock-Stays Poller.posting = elim (Bool-cases (is_idle s.system.call)) [
    | inl e ↦ rw e (pass_lock-Stays Owner.poller Poller.calling)
    | inr e ↦ rw e tt
  ]

  deliver-Stays : (p : Poller) (r : Result) → p ≢ Poller.receiving → Stays IsStuck (deliver p s r)
  unfolding deliver
  deliver-Stays Poller.receiving r n = absurd (n refl)
  deliver-Stays Poller.locking r n = tt
  deliver-Stays Poller.calling r n = tt
  deliver-Stays Poller.posting r n = tt

  move-Stays : (e : LockEvent) → Stays IsStuck (move parse e s)
  unfolding move advance
  move-Stays LockEvent.lock = pass_lock-Stays Owner.hook s.poller
  move-Stays LockEvent.unlock = unlock-Stays s.owner
  move-Stays LockEvent.poll_lock = poll_lock-Stays s.poller
  move-Stays LockEvent.poll_unlock = poll_unlock-Stays s.owner
  move-Stays (LockEvent.configure cfg) = from_owner-Stays _
  move-Stays (LockEvent.post url payload content_type affinity) = from_owner-Stays _
  move-Stays (LockEvent.report j) = deliver-Stays s.poller _ v.busy
  move-Stays LockEvent.proceed =
      with_system-Stays s v _ (proceed-StaysIn s.system v.after v.round v.waits v.jammed)
  move-Stays (LockEvent.receive j) =
      with_system-Stays s v _ (receive_step-StaysIn s.system v.after v.round v.waits v.jammed j)
  move-Stays (LockEvent.respond j res) =
      let c = s.system.client.errorchan in
      with_system-Stays s v _ (
        step_worker-StaysIn s.system v.after v.round v.waits v.jammed (respond c res) j
          (respond-IsJammed c res))
  move-Stays (LockEvent.quit j) =
      with_system-Stays s v _ (quit_step-StaysIn s.system v.after v.round v.waits v.jammed j)

-- The deadlock: from a state in which config_set waits, with the lock held, for a worker of the HTTP client, no
-- http_post is in Post, the poller of errors is not at its receive, and each worker whose queue is closed has ended or
-- sends an error, every schedule of the goroutines that take the lock, of the workers and of the poller leads to such
-- a state again. No further Post begins, nothing panics, and config_set never returns. Signals are left out: their
-- hook runs without the lock.
pub run_events-IsStuck :
    (parse : Bytes → NewRequest) (es : List LockEvent) (s : Shared)
    → IsStuck s
    → Ends IsStuck (run_events parse es s)
run_events-IsStuck parse es s v = run_events-Ends IsStuck parse (move-Stays parse) es s v
