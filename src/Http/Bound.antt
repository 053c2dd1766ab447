-- ===== src/Http/Bound.antt =====
-- http/http.go: every step of the workers and of a running call takes some of the work that is left.
use logd_go.Base.{
  ℕ, ◌+◌, ◌<◌, ◌≤◌, ◌≡◌, inl, inr, refl, subst, Bool, true, false, Option, none, some, List, [],
  ◌∷◌, length, length-append, length-update, ltb_int, ℤ, rounds, get_elem?, get_elem?-bound, update,
  arith, Option-cases, Bytes,
}
use logd_go.Http.Worker.{Request, Worker, Phase, has_room, receive, respond, report, quit, quit_in}
use logd_go.Http.Client.{workers_of, NewRequest}
use logd_go.Http.System.{
  After, Call, System, Action, send_on, close_queue, finish, proceed_in, step_worker, at_worker,
  receive_step, quit_step, advance, put_workers,
}
use logd_go.Http.Invariant.{Good, closed_count, stopped_count, Tidy}
use logd_go.Http.Serve.{worker-Tidy}
use logd_go.Http.Work.{
  work, worker_work, call_work, workers_work-update, respond_work, report_work, receive_work,
  finish-Fresh, Less, Less-if, return_with-Less,
}

-- The entries of the methods are the only actions that the caller makes from outside.
abbrev pub is_entry : Action → Bool
is_entry (Action.call_post url payload content_type affinity) = true
is_entry Action.call_flush = true
is_entry Action.call_close = true
is_entry (Action.call_init cfg errorchan) = true
is_entry _ = false

-- One worker changes.
changed_work :
    (s : System) (j : ℕ) (w w' : Worker) (c : Call) (acc att : List (ℕ × Request))
    → get_elem? (workers_of s.client.reqchan) j ≡ some w
    → worker_work w' + call_work (length (workers_of s.client.reqchan)) c
      < worker_work w + call_work (length (workers_of s.client.reqchan)) s.call
    → work (record (put_workers s (update (workers_of s.client.reqchan) j w')) {
      call = c;
      accepted = acc;
      attempted = att;
    })
      < work s
unfolding work
changed_work s j w w' c acc att e h =
    let ws = workers_of s.client.reqchan in
    rw (length-update ws j w') (omega (arith, workers_work-update ws j w w' e))

step_worker-Less :
    (s : System) (j : ℕ) (f : Worker → Option Worker)
    → ((w w' : Worker) → f w ≡ some w' → worker_work w' < worker_work w)
    → Less (work s) (step_worker s j (at_worker f (get_elem? (workers_of s.client.reqchan) j)))
unfolding step_worker at_worker
step_worker-Less s j f q = elim (Option-cases (get_elem? (workers_of s.client.reqchan) j)) [
  | inl e ↦ rw e tt
  | inr e ↦ elim (Option-cases (f e.0)) [
    | inl m ↦ rw e.1 (rw m tt)
    | inr m ↦ rw e.1 (
        rw m.1 (
          changed_work s j e.0 m.0 s.call s.accepted s.attempted e.1
            (omega (arith, q e.0 m.0 m.1))))
  ]
]

receive_step-Less :
    (s : System) (j : ℕ)
    → Less
        (work s)
        (receive_step s j (at_worker receive (get_elem? (workers_of s.client.reqchan) j)))
unfolding receive_step at_worker
receive_step-Less s j = elim (Option-cases (get_elem? (workers_of s.client.reqchan) j)) [
  | inl e ↦ rw e tt
  | inr e ↦ elim (Option-cases (receive e.0)) [
    | inl m ↦ rw e.1 (rw m tt)
    | inr m ↦ rw e.1 (
        rw m.1 (
          changed_work s j e.0 m.0 s.call s.accepted _ e.1
            (omega (arith, receive_work e.0 m.0 m.1))))
  ]
]

quit_in-Less :
    (s : System) (j : ℕ) (w : Worker) (c : Call) (p : Phase)
    → Good s
    → get_elem? (workers_of s.client.reqchan) j ≡ some w
    → s.call ≡ c
    → w.phase ≡ p
    → Less (work s) (quit_step c s j (quit_in p w))
unfolding quit_step quit_in
quit_in-Less s j w (Call.waiting k i) Phase.quitting g e c p =
    let w' : Worker = record w { phase = Phase.stopped } in
    let n = rounds s.client.cfg.chan_buffer in
    let u : Tidy (i + 1) i n j w =
      subst (λ x. Tidy (closed_count x) (stopped_count x) n j w) c (worker-Tidy s g j w w' e) in
    let b = get_elem?-bound (workers_of s.client.reqchan) j e in
    changed_work s j w w' (Call.stopping k (i + 1)) s.accepted s.attempted e (rw c (ground arith))
quit_in-Less s j w (Call.waiting k i) _ g e c p = tt
quit_in-Less s j w _ _ g e c p = tt

no_worker-Less : (s : System) (n j : ℕ) (c : Call) → Less n (quit_step c s j none)
unfolding quit_step
no_worker-Less s n j (Call.waiting k i) = tt
no_worker-Less s n j _ = tt

quit_step-Less :
    (s : System) (j : ℕ)
    → Good s
    → Less
        (work s)
        (quit_step s.call s j (at_worker quit (get_elem? (workers_of s.client.reqchan) j)))
unfolding at_worker quit
quit_step-Less s j g = elim (Option-cases (get_elem? (workers_of s.client.reqchan) j)) [
  | inl e ↦ rw e (no_worker-Less s (work s) j s.call)
  | inr e ↦ rw e.1 (quit_in-Less s j e.0 s.call e.0.phase g e.1 refl refl)
]

send_on-Less :
    (s : System) (r : Request) (i : ℕ)
    → s.call ≡ Call.sending r i
    → Less
        (work s)
        (send_on s (workers_of s.client.reqchan) r i (get_elem? (workers_of s.client.reqchan) i))
unfolding send_on
send_on-Less s r i c = elim (Option-cases (get_elem? (workers_of s.client.reqchan) i)) [
  | inl e ↦ rw e tt
  | inr e ↦ rw e.1 (
      Less-if (work s) e.0.closed _ _ (λ h. tt)
        (λ h.
          Less-if (work s) (has_room e.0) _ _
            (λ k.
              changed_work s i e.0 _ Call.idle _ s.attempted e.1
                (rw c (omega (arith, length-append e.0.queue (r ∷ [])))))
            (λ k. tt)))
]

closed_work :
    (w : Worker) → w.closed ≡ false → worker_work (record w { closed = true }) ≤ worker_work w + 2
closed_work w h = ground arith

close_queue-Less :
    (s : System) (k : After) (i : ℕ)
    → s.call ≡ Call.stopping k i
    → Less (work s) (
        close_queue s (workers_of s.client.reqchan) k i (get_elem? (workers_of s.client.reqchan) i))
unfolding close_queue
close_queue-Less s k i c = elim (Option-cases (get_elem? (workers_of s.client.reqchan) i)) [
  | inl e ↦ rw e tt
  | inr e ↦
      let b = get_elem?-bound (workers_of s.client.reqchan) i e.1 in
      rw e.1 (
        Less-if (work s) e.0.closed _ _ (λ h. tt)
          (λ h.
            changed_work s i e.0 _ (Call.waiting k i) s.accepted s.attempted e.1
              (rw c (omega (arith, closed_work e.0 h)))))
]

proceed_in-Less : (s : System) (c : Call) → s.call ≡ c → Less (work s) (proceed_in c s)
unfolding proceed_in
proceed_in-Less s Call.idle c = tt
proceed_in-Less s (Call.sending r i) c = send_on-Less s r i c
proceed_in-Less s (Call.stopping k i) c =
    Less-if (work s) (ltb_int (ℤ.pos i) s.client.cfg.concurrency) _ _
      (λ h. close_queue-Less s k i c)
      (λ h.
        return_with-Less s (work s) (finish k s.client) (finish-Fresh k s.client)
          (unfold work in rw c (omega arith)))
proceed_in-Less s (Call.waiting k i) c = tt

pub advance-Less :
    (parse : Bytes → NewRequest) (a : Action) (s : System)
    → Good s
    → is_entry a ≡ false
    → Less (work s) (advance parse a s)
unfolding advance
advance-Less parse (Action.call_post url payload content_type affinity) s g h = cc
advance-Less parse Action.call_flush s g h = cc
advance-Less parse Action.call_close s g h = cc
advance-Less parse (Action.call_init cfg errorchan) s g h = cc
advance-Less parse Action.proceed s g h = proceed_in-Less s s.call refl
advance-Less parse (Action.receives j) s g h = receive_step-Less s j
advance-Less parse (Action.responds j res) s g h =
    step_worker-Less s j (respond s.client.errorchan res) (respond_work s.client.errorchan res)
advance-Less parse (Action.reports j) s g h = step_worker-Less s j report report_work
advance-Less parse (Action.quits j) s g h = quit_step-Less s j g
