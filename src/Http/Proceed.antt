-- ===== src/Http/Proceed.antt =====
-- http/http.go: the steps of the caller inside a method keep the invariant.
use logd_go.Base.{
  ℕ, subst, ◌+◌, ◌≡◌, inl, inr, ◌∙◌, refl, Bool, true, false, none, some, [], ◌∷◌, ◌++◌, append-nil,
  length-append, if◌then◌else◌, ℤ, ltb_int, rounds, get_elem?, update, get_elem?-bound, arith,
  Bool-cases, Option-cases,
}
use logd_go.Http.Worker.{Request, Worker, Phase, has_room, quit, quit_in}
use logd_go.Http.Client.{workers_of}
use logd_go.Http.System.{
  After, Call, System, Result, put_workers, send_on, close_queue, finish, proceed_in, at_worker,
  quit_step,
}
use logd_go.Http.Invariant.{
  Tidy, TidyAt, Good, Keeps, update-Conserved, send-Conserved, closed_count, stopped_count,
}
use logd_go.Http.Finish.{Delivered, return_with-Keeps, stopped-queue, finish-Leaves}
use logd_go.Http.Serve.{worker-reqchan, worker-Tidy, update-Good}

stopped-Delivered :
    (s : System) (k : After) (i : ℕ)
    → Good s
    → s.call ≡ Call.stopping k i
    → ltb_int (ℤ.pos i) s.client.cfg.concurrency ≡ false
    → Delivered s.accepted s.attempted
stopped-Delivered s k i g c h j =
    let ws = workers_of s.client.reqchan in
    elim (Option-cases (get_elem? ws j)) [
      | inl e ↦ g.conserved j ∙ rw e (rw append-nil refl)
      | inr e ↦
          let q = worker-reqchan s.client.reqchan j e.0 e.1 in
          let b = get_elem?-bound ws j e.1 in
          let n = rounds s.client.cfg.chan_buffer in
          let t : TidyAt i i n j (get_elem? ws j) =
            subst (λ x. TidyAt (closed_count x) (stopped_count x) n j (get_elem? ws j)) c
              (g.tidy j) in
          g.conserved j
          ∙ rw (stopped-queue i n i j (get_elem? ws j) t (ground (arith, g.counted ws q)))
              (rw append-nil refl)
    ]

Keeps-if :
    (b : Bool) (x y : Result)
    → (b ≡ true → Keeps x)
    → (b ≡ false → Keeps y)
    → Keeps (if b then x else y)
Keeps-if true x y p q = p refl
Keeps-if false x y p q = q refl

-- The worker whose quit the caller receives in round `i` is worker `i`.
quit_in-Keeps :
    (s : System) (j : ℕ) (w : Worker) (c : Call) (p : Phase)
    → Good s
    → get_elem? (workers_of s.client.reqchan) j ≡ some w
    → s.call ≡ c
    → w.phase ≡ p
    → Keeps (quit_step c s j (quit_in p w))
unfolding quit_step quit_in
quit_in-Keeps s j w (Call.waiting k i) Phase.quitting g e c p =
    let w' : Worker = record w { phase = Phase.stopped } in
    let t = worker-Tidy s g j w w' e in
    let n = rounds s.client.cfg.chan_buffer in
    let u : Tidy (i + 1) i n j w = subst (λ x. Tidy (closed_count x) (stopped_count x) n j w) c t in
    update-Good s g j w w' e (Call.stopping k (i + 1)) s.accepted s.attempted
      (update-Conserved (workers_of s.client.reqchan) j w w' e s.accepted s.attempted refl
        g.conserved)
      (ground arith) (λ m h. (ground arith, ground arith))
quit_in-Keeps s j w (Call.waiting k i) _ g e c p = tt
quit_in-Keeps s j w _ _ g e c p = tt

no_worker-Keeps : (s : System) (j : ℕ) (c : Call) → Keeps (quit_step c s j none)
unfolding quit_step
no_worker-Keeps s j (Call.waiting k i) = tt
no_worker-Keeps s j _ = tt

pub quit_step-Keeps :
    (s : System) (j : ℕ)
    → Good s
    → Keeps (quit_step s.call s j (at_worker quit (get_elem? (workers_of s.client.reqchan) j)))
unfolding at_worker quit
quit_step-Keeps s j g = elim (Option-cases (get_elem? (workers_of s.client.reqchan) j)) [
  | inl e ↦ rw e (no_worker-Keeps s j s.call)
  | inr e ↦ rw e.1 (quit_in-Keeps s j e.0 s.call e.0.phase g e.1 refl refl)
]

-- The send of Post.
sent-Good :
    (s : System) (r : Request) (i : ℕ)
    → Good s
    → s.call ≡ Call.sending r i
    → (w : Worker) → get_elem? (workers_of s.client.reqchan) i ≡ some w
    → w.closed ≡ false
    → has_room w ≡ true
    → Good
        (record (put_workers s
          (update (workers_of s.client.reqchan) i (record w { queue = w.queue ++ r ∷ [] }))) {
            call = Call.idle;
            accepted = s.accepted ++ (i, r) ∷ [];
          })
sent-Good s r i g c w e h k =
    let w' : Worker = record w { queue = w.queue ++ r ∷ [] } in
    let ws = workers_of s.client.reqchan in
    let n = rounds s.client.cfg.chan_buffer in
    let t : Tidy 0 0 n i w =
      subst (λ x. Tidy (closed_count x) (stopped_count x) n i w) c (worker-Tidy s g i w w' e) in
    update-Good s g i w w' e Call.idle (s.accepted ++ (i, r) ∷ []) s.attempted
      (send-Conserved ws i w w' e s.accepted s.attempted r refl g.conserved)
      (record {
        closed_below = t.closed_below;
        stopped_below = t.stopped_below;
        drained = λ q. cc (t.ended_closed q, h);
        ended_closed = t.ended_closed;
        bounded = ground (arith, length-append w.queue (r ∷ []), t.sized);
        sized = t.sized;
      })
      (λ m q. rw c (refl, refl))

send_on-Keeps :
    (s : System) (r : Request) (i : ℕ)
    → Good s
    → s.call ≡ Call.sending r i
    → Keeps
        (send_on s (workers_of s.client.reqchan) r i (get_elem? (workers_of s.client.reqchan) i))
unfolding send_on
send_on-Keeps s r i g c = elim (Option-cases (get_elem? (workers_of s.client.reqchan) i)) [
  | inl e ↦ rw e tt
  | inr e ↦ rw e.1 (
      Keeps-if e.0.closed _ _ (λ h. tt)
        (λ h. Keeps-if (has_room e.0) _ _ (λ k. sent-Good s r i g c e.0 e.1 h k) (λ k. tt)))
]

-- `close` in round i of stopWorkers.
closed-Good :
    (s : System) (k : After) (i : ℕ)
    → Good s
    → s.call ≡ Call.stopping k i
    → (w : Worker) → get_elem? (workers_of s.client.reqchan) i ≡ some w
    → w.closed ≡ false
    → Good
        (record (put_workers s
          (update (workers_of s.client.reqchan) i (record w { closed = true }))) {
            call = Call.waiting k i;
          })
closed-Good s k i g c w e h =
    let w' : Worker = record w { closed = true } in
    let ws = workers_of s.client.reqchan in
    let n = rounds s.client.cfg.chan_buffer in
    let t : Tidy i i n i w =
      subst (λ x. Tidy (closed_count x) (stopped_count x) n i w) c (worker-Tidy s g i w w' e) in
    update-Good s g i w w' e (Call.waiting k i) s.accepted s.attempted
      (update-Conserved ws i w w' e s.accepted s.attempted refl g.conserved)
      (record {
        closed_below = ground arith;
        stopped_below = t.stopped_below;
        drained = t.drained;
        ended_closed = λ q. refl;
        bounded = t.bounded;
        sized = t.sized;
      })
      (λ m q. rw c (ground arith, refl))

close_queue-Keeps :
    (s : System) (k : After) (i : ℕ)
    → Good s
    → s.call ≡ Call.stopping k i
    → Keeps (
        close_queue s (workers_of s.client.reqchan) k i (get_elem? (workers_of s.client.reqchan) i))
unfolding close_queue
close_queue-Keeps s k i g c = elim (Option-cases (get_elem? (workers_of s.client.reqchan) i)) [
  | inl e ↦ rw e tt
  | inr e ↦ rw e.1 (Keeps-if e.0.closed _ _ (λ h. tt) (λ h. closed-Good s k i g c e.0 e.1 h))
]

pub proceed_in-Keeps : (s : System) → Good s → (c : Call) → s.call ≡ c → Keeps (proceed_in c s)
unfolding proceed_in
proceed_in-Keeps s g Call.idle c = tt
proceed_in-Keeps s g (Call.sending r i) c = send_on-Keeps s r i g c
proceed_in-Keeps s g (Call.stopping k i) c =
    elim (Bool-cases (ltb_int (ℤ.pos i) s.client.cfg.concurrency)) [
      | inl h ↦ rw h (close_queue-Keeps s k i g c)
      | inr h ↦ rw h (
          return_with-Keeps s (finish k s.client)
            (finish-Leaves s (stopped-Delivered s k i g c h) k))
    ]
proceed_in-Keeps s g (Call.waiting k i) c = tt
