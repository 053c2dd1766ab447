-- ===== src/Http/Serve.antt =====
-- http/http.go: the steps of the workers keep the invariant.
use logd_go.Base.{
  ℕ, ◌≡◌, ◌⊎◌, inl, inr, ◌∙◌, sym, ap, refl, Bool, true, false, Option, none, some, List, [], ◌∷◌,
  ◌++◌, append-nil, ◌==◌, ltb, rounds, Bytes, get_elem?, update, length-update, arith, Option-cases,
}
use logd_go.Http.Worker.{
  Request, Response, Worker, Phase, post_request, receive, receive_in, receive_from, respond,
  respond_in, settle, report, report_in,
}
use logd_go.Http.Client.{workers_of}
use logd_go.Http.System.{Call, System, put_workers, step_worker, at_worker, attempt, receive_step}
use logd_go.Http.Invariant.{
  Conserved, is_stopped, is_ended, Tidy, Good, Keeps, AllTidy-at, update-AllTidy, update-Conserved,
  receive-Conserved, closed_count, stopped_count,
}

-- A slice with a worker is not nil.
pub worker-reqchan :
    (o : Option (List Worker)) (j : ℕ) (w : Worker)
    → get_elem? (workers_of o) j ≡ some w
    → o ≡ some (workers_of o)
worker-reqchan none j w e = cc
worker-reqchan (some ws) j w e = refl

-- A worker of the system takes a step.
module _ (s : System) (g : Good s) (j : ℕ) (w w' : Worker)
    (e : get_elem? (workers_of s.client.reqchan) j ≡ some w) where
  pub worker-Tidy :
      Tidy (closed_count s.call) (stopped_count s.call) (rounds s.client.cfg.chan_buffer) j w
  worker-Tidy = AllTidy-at (workers_of s.client.reqchan) j w w' e _ _ _ g.tidy

  pub update-Good :
      (call : Call) (acc att : List (ℕ × Request))
      → Conserved acc att (update (workers_of s.client.reqchan) j w')
      → Tidy (closed_count call) (stopped_count call) (rounds s.client.cfg.chan_buffer) j w'
      → ((i : ℕ)
          → i == j ≡ false
          → (ltb i (closed_count s.call) ≡ ltb i (closed_count call))
            × (ltb i (stopped_count s.call) ≡ ltb i (stopped_count call)))
      → Good (record (put_workers s (update (workers_of s.client.reqchan) j w')) {
        call = call;
        accepted = acc;
        attempted = att;
      })
  update-Good call acc att c t h =
      let ws = workers_of s.client.reqchan in
      record {
        conserved = c;
        tidy = update-AllTidy ws j w w' e _ _ _ _ _ g.tidy t h;
        counted = λ vs f.
            ground
              (arith, g.counted ws (worker-reqchan s.client.reqchan j w e), length-update ws j w');
      }

  -- The caller stays where it is.
  pub kept-Good :
      (acc att : List (ℕ × Request))
      → Conserved acc att (update (workers_of s.client.reqchan) j w')
      → Tidy (closed_count s.call) (stopped_count s.call) (rounds s.client.cfg.chan_buffer) j w'
      → Good (record (put_workers s (update (workers_of s.client.reqchan) j w')) {
        accepted = acc;
        attempted = att;
      })
  kept-Good acc att c t = update-Good s.call acc att c t (λ i n. (refl, refl))

-- A step of a worker that takes nothing from its queue and does not end.
pub record Quiet (w w' : Worker) : Type 0 where
  pub same_queue : w'.queue ≡ w.queue
  pub same_closed : w'.closed ≡ w.closed
  pub same_capacity : w'.capacity ≡ w.capacity
  pub running_before : is_ended w.phase ≡ false
  pub running_after : is_ended w'.phase ≡ false
  pub going_before : is_stopped w.phase ≡ false
  pub going_after : is_stopped w'.phase ≡ false

settle-running :
    (errorchan : Bool) (r : Request) (o : Option Bytes)
    → (is_ended (settle errorchan r o) ≡ false) × (is_stopped (settle errorchan r o) ≡ false)
unfolding settle
settle-running errorchan r none = (refl, refl)
settle-running true r (some e) = (refl, refl)
settle-running false r (some e) = (refl, refl)

pub respond-Quiet :
    (errorchan : Bool) (res : Response) (w w' : Worker)
    → respond errorchan res w ≡ some w'
    → Quiet w w'
unfolding respond respond_in
respond-Quiet errorchan res w w' e = go w.phase refl e
  where
    go : (p : Phase) → w.phase ≡ p → respond_in p errorchan res w ≡ some w' → Quiet w w'
    go (Phase.posting r) q f = ground (arith, settle-running errorchan r (post_request r res))
    go _ q f = cc

pub report-Quiet : (w w' : Worker) → report w ≡ some w' → Quiet w w'
unfolding report report_in
report-Quiet w w' e = go w.phase refl e
  where
    go : (p : Phase) → w.phase ≡ p → report_in p w ≡ some w' → Quiet w w'
    go (Phase.reporting r x) q f = ground arith
    go _ q f = cc

Quiet-Tidy : {c d n j : ℕ} {w w' : Worker} → Quiet w w' → Tidy c d n j w → Tidy c d n j w'
Quiet-Tidy k t = record {
  closed_below = k.same_closed ∙ t.closed_below;
  stopped_below = k.going_after ∙ sym k.going_before ∙ t.stopped_below;
  drained = λ h. cc (h, k.running_after);
  ended_closed = λ h. cc (h, k.running_after);
  bounded = ground (arith, t.bounded, k.same_queue);
  sized = k.same_capacity ∙ t.sized;
}

pub step_worker-Keeps :
    (s : System) (j : ℕ) (f : Worker → Option Worker)
    → ((w w' : Worker) → f w ≡ some w' → Quiet w w')
    → Good s
    → Keeps (step_worker s j (at_worker f (get_elem? (workers_of s.client.reqchan) j)))
unfolding step_worker at_worker
step_worker-Keeps s j f q g = elim (Option-cases (get_elem? (workers_of s.client.reqchan) j)) [
  | inl e ↦ rw e tt
  | inr e ↦ elim (Option-cases (f e.0)) [
    | inl m ↦ rw e.1 (rw m tt)
    | inr m ↦
        let k : Quiet e.0 m.0 = q e.0 m.0 m.1 in
        let ws = workers_of s.client.reqchan in
        let t = worker-Tidy s g j e.0 m.0 e.1 in
        rw e.1 (
          rw m.1 (
            kept-Good s g j e.0 m.0 e.1 s.accepted s.attempted
              (update-Conserved ws j e.0 m.0 e.1 s.accepted s.attempted k.same_queue g.conserved)
              (Quiet-Tidy k t)))
  ]
]

-- A receive takes the first request of the queue.
record Takes (w w' : Worker) (r : Request) : Type 0 where
  first : w.queue ≡ r ∷ w'.queue
  posts : w'.phase ≡ Phase.posting r
  received : w.phase ≡ Phase.receiving
  same_closed : w'.closed ≡ w.closed
  same_capacity : w'.capacity ≡ w.capacity

-- A receive finds the queue closed and empty.
record Ends (w w' : Worker) : Type 0 where
  is_empty : w.queue ≡ []
  still_empty : w'.queue ≡ []
  quits : w'.phase ≡ Phase.quitting
  received : w.phase ≡ Phase.receiving
  was_closed : w.closed ≡ true
  same_closed : w'.closed ≡ w.closed
  same_capacity : w'.capacity ≡ w.capacity

receive_cases : (w w' : Worker) → receive w ≡ some w' → ((r : Request) × Takes w w' r) ⊎ Ends w w'
unfolding receive receive_in receive_from
receive_cases w w' e = go w.phase w.queue refl refl e
  where
    go :
        (p : Phase) (q : List Request)
        → w.phase ≡ p
        → w.queue ≡ q
        → receive_in p w ≡ some w'
        → ((r : Request) × Takes w w' r) ⊎ Ends w w'
    go Phase.receiving (r ∷ q) p h f = inl (r, ground arith)
    go Phase.receiving [] p h f = inr (ground arith)
    go _ q p h f = cc

module _ (s : System) (g : Good s) (j : ℕ) (w w' : Worker)
    (e : get_elem? (workers_of s.client.reqchan) j ≡ some w) where
  Takes-Keeps : (r : Request) → Takes w w' r → Keeps (receive_step s j (some w'))
  unfolding receive_step attempt
  Takes-Keeps r k =
      let t = worker-Tidy s g j w w' e in
      let ws = workers_of s.client.reqchan in
      let a : attempt w'.phase j ≡ (j, r) ∷ [] = ap (λ p. attempt p j) k.posts in
      kept-Good s g j w w' e s.accepted (s.attempted ++ attempt w'.phase j)
        (rw a (receive-Conserved ws j w w' e s.accepted s.attempted r k.first g.conserved))
        (ground arith)

  Ends-Keeps : Ends w w' → Keeps (receive_step s j (some w'))
  unfolding receive_step attempt
  Ends-Keeps k =
      let t = worker-Tidy s g j w w' e in
      let ws = workers_of s.client.reqchan in
      let a : attempt w'.phase j ≡ [] = ap (λ p. attempt p j) k.quits in
      kept-Good s g j w w' e s.accepted (s.attempted ++ attempt w'.phase j)
        (rw a (
          rw append-nil (
            update-Conserved ws j w w' e s.accepted s.attempted (k.still_empty ∙ sym k.is_empty)
              g.conserved)))
        (ground arith)

pub receive_step-Keeps :
    (s : System) (j : ℕ)
    → Good s
    → Keeps (receive_step s j (at_worker receive (get_elem? (workers_of s.client.reqchan) j)))
unfolding receive_step at_worker
receive_step-Keeps s j g = elim (Option-cases (get_elem? (workers_of s.client.reqchan) j)) [
  | inl e ↦ rw e tt
  | inr e ↦ elim (Option-cases (receive e.0)) [
    | inl m ↦ rw e.1 (rw m tt)
    | inr m ↦ rw e.1 (
        rw m.1 (elim (receive_cases e.0 m.0 m.1) [
          | inl k ↦ Takes-Keeps s g j e.0 m.0 e.1 k.0 k.1
          | inr k ↦ Ends-Keeps s g j e.0 m.0 e.1 k
        ]))
  ]
]
