-- ===== src/Http/Progress.antt =====
-- http/http.go: on a client that is initialised, a running call or one of the workers can always move.
use logd_go.Base.{
  ℕ, suc, ◌+◌, ◌<◌, ◌≡◌, ◌≢◌, ◌∙◌, ap, ◌⊎◌, inl, inr, refl, subst, Bool, true, false, some, List,
  [], ◌∷◌, ◌++◌, length, length-update, ltb_int, ℤ, rounds, get_elem?, get_elem?-some, update,
  arith, Bool-cases, Bytes,
}
use logd_go.Http.Worker.{
  Request, Response, Worker, Phase, has_room, receive, receive_in, receive_from, respond,
  respond_in, report, report_in, quit, quit_in,
}
use logd_go.Http.Client.{workers_of, NewRequest}
use logd_go.Http.System.{
  After, Call, System, Result, Action, step_worker, at_worker, receive_step, attempt, quit_step,
  advance, put_workers,
}
use logd_go.Http.Invariant.{closed_count, stopped_count, Tidy, is_ended, is_stopped}
use logd_go.Http.Serve.{worker-Tidy}
use logd_go.Http.Steps.{advance-Good}
use logd_go.Http.Bound.{is_entry}
use logd_go.Http.Ready.{
  InRange, IsReady, positive_int, positive_rounds, finish-some, sending_room, stopping_more,
  stopping_done,
}

-- The step of an action, and the call has returned or the client is still ready.
pub record Move (parse : Bytes → NewRequest) (a : Action) (s : System) : Type 0 where
  pub inner : is_entry a ≡ false
  pub after : System
  pub steps : advance parse a s ≡ Result.running after
  pub outcome : (after.call ≡ Call.idle) ⊎ IsReady after

abbrev pub is_response : Action → Bool
is_response (Action.responds j res) = true
is_response _ = false

-- One more step: that of a thread, or the end of a request with any response.
pub data Moves (parse : Bytes → NewRequest) (s : System) : Type 0 where
  thread_moves : (a : Action) → is_response a ≡ false → Move parse a s → Moves parse s
  server_moves : (j : ℕ) → ((res : Response) → Move parse (Action.responds j res) s) → Moves parse s

receive_first :
    (w : Worker) (x : Request) (q : List Request)
    → w.phase ≡ Phase.receiving
    → w.queue ≡ x ∷ q
    → receive w ≡ some (record w { queue = q; phase = Phase.posting x })
unfolding receive receive_in receive_from
receive_first w x q p h = ground arith

receive_end :
    (w : Worker)
    → w.phase ≡ Phase.receiving
    → w.queue ≡ []
    → w.closed ≡ true
    → receive w ≡ some (record w { phase = Phase.quitting })
unfolding receive receive_in receive_from
receive_end w p h b = ground arith

respond-some :
    (errorchan : Bool) (res : Response) (w : Worker) (x : Request)
    → w.phase ≡ Phase.posting x
    → (w' : Worker) × (respond errorchan res w ≡ some w')
unfolding respond respond_in
respond-some errorchan res w x p = (_, ap (λ y. respond_in y errorchan res w) p)

report-some :
    (w : Worker) (x : Request) (y : Bytes)
    → w.phase ≡ Phase.reporting x y
    → (w' : Worker) × (report w ≡ some w')
unfolding report report_in
report-some w x y p = (_, ap (λ z. report_in z w) p)

module _ (parse : Bytes → NewRequest) (s : System) (r : IsReady s) where
  -- A worker moves, and the rest stays.
  worker-Move :
      (a : Action) (j : ℕ) (w : Worker) (att : List (ℕ × Request))
      → is_entry a ≡ false
      → advance parse a s
        ≡ Result.running
            (record (put_workers s (update (workers_of s.client.reqchan) j w)) { attempted = att })
      → Move parse a s
  worker-Move a j w att h e =
      let ws = workers_of s.client.reqchan in
      record {
        inner = h;
        after = _;
        steps = e;
        outcome = inr (record {
          good = advance-Good parse a s r.good e;
          made = refl;
          some_queue = ground (arith, length-update ws j w, r.some_queue);
          buffered = r.buffered;
          quit_open = r.quit_open;
          in_range = rw (length-update ws j w) r.in_range;
        });
      }

  -- A worker with something to do.
  receives-Moves :
      (j : ℕ) (w w' : Worker)
      → get_elem? (workers_of s.client.reqchan) j ≡ some w
      → receive w ≡ some w'
      → Moves parse s
  unfolding advance receive_step at_worker
  receives-Moves j w w' e h = Moves.thread_moves (Action.receives j) refl (
      worker-Move (Action.receives j) j w' (s.attempted ++ attempt w'.phase j) refl
        (rw e (rw h refl)))

  responds-Move :
      (j : ℕ) (w w' : Worker) (res : Response)
      → get_elem? (workers_of s.client.reqchan) j ≡ some w
      → respond s.client.errorchan res w ≡ some w'
      → Move parse (Action.responds j res) s
  unfolding advance step_worker at_worker
  responds-Move j w w' res e h =
      worker-Move (Action.responds j res) j w' s.attempted refl (rw e (rw h refl))

  server-Moves :
      (j : ℕ) (w : Worker) (x : Request)
      → get_elem? (workers_of s.client.reqchan) j ≡ some w
      → w.phase ≡ Phase.posting x
      → Moves parse s
  server-Moves j w x e p = Moves.server_moves j (λ res.
      let (w', m) = respond-some s.client.errorchan res w x p in responds-Move j w w' res e m)

  reports-Moves :
      (j : ℕ) (w w' : Worker)
      → get_elem? (workers_of s.client.reqchan) j ≡ some w
      → report w ≡ some w'
      → Moves parse s
  unfolding advance step_worker at_worker
  reports-Moves j w w' e h =
      Moves.thread_moves (Action.reports j) refl
        (worker-Move (Action.reports j) j w' s.attempted refl (rw e (rw h refl)))

  -- A worker in its loop, with a request to take or the end of its queue in sight.
  busy-Moves :
      (j : ℕ) (w : Worker) (p : Phase) (q : List Request)
      → get_elem? (workers_of s.client.reqchan) j ≡ some w
      → w.phase ≡ p
      → w.queue ≡ q
      → is_ended p ≡ false
      → (w.closed ≡ true) ⊎ (0 < length q)
      → Moves parse s
  busy-Moves j w Phase.receiving (x ∷ q) e p h n b =
      receives-Moves j w (record w { queue = q; phase = Phase.posting x }) e
        (receive_first w x q p h)
  busy-Moves j w Phase.receiving [] e p h n (inl b) =
      receives-Moves j w (record w { phase = Phase.quitting }) e (receive_end w p h b)
  busy-Moves j w Phase.receiving [] e p h n (inr b) = absurd (omega arith)
  busy-Moves j w (Phase.posting x) q e p h n b = server-Moves j w x e p
  busy-Moves j w (Phase.reporting x y) q e p h n b =
      let (w', m) = report-some w x y p in reports-Moves j w w' e m
  busy-Moves j w Phase.quitting q e p h n b = cc
  busy-Moves j w Phase.stopped q e p h n b = cc

  -- The caller moves within its call.
  caller-Moves :
      (a : Action)
      → is_response a ≡ false
      → (s' : System) → is_entry a ≡ false
      → advance parse a s ≡ Result.running s'
      → s'.client.cfg ≡ s.client.cfg
      → s'.client.quitchan ≡ s.client.quitchan
      → (ws : List Worker) → s'.client.reqchan ≡ some ws
      → length ws ≡ length (workers_of s.client.reqchan)
      → InRange (length ws) s'.call
      → Moves parse s
  caller-Moves a n s' h e c q ws m l i = Moves.thread_moves a n (record {
    inner = h;
    after = s';
    steps = e;
    outcome = inr (record {
      good = advance-Good parse a s r.good e;
      made = rw m refl;
      some_queue = rw m (rw l r.some_queue);
      buffered = rw c r.buffered;
      quit_open = q ∙ r.quit_open;
      in_range = rw m i;
    });
  })

  returns-Moves :
      (a : Action)
      → is_response a ≡ false
      → (s' : System) → is_entry a ≡ false
      → advance parse a s ≡ Result.running s'
      → s'.call ≡ Call.idle
      → Moves parse s
  returns-Moves a n s' h e c =
      Moves.thread_moves a n (record { inner = h; after = s'; steps = e; outcome = inl c })

  quits-Moves :
      (k : After) (i : ℕ) (w : Worker)
      → s.call ≡ Call.waiting k i
      → get_elem? (workers_of s.client.reqchan) i ≡ some w
      → w.phase ≡ Phase.quitting
      → Moves parse s
  unfolding advance quit_step at_worker quit quit_in
  quits-Moves k i w c e p =
      let ws = workers_of s.client.reqchan in
      let w' : Worker = record w { phase = Phase.stopped } in
      let m : quit w ≡ some w' = ap (λ z. quit_in z w) p in
      let s' : System = record (put_workers s (update ws i w')) {
        call = Call.stopping k (i + 1);
      } in
      caller-Moves (Action.quits i) refl s' refl
        (ap (λ o. quit_step s.call s i (at_worker quit o)) e
          ∙ ap (λ o. quit_step s.call s i o) m
          ∙ ap (λ x. quit_step x s i (some w')) c)
        refl refl (update ws i w') refl (length-update ws i w') tt

  waiting_at-Moves :
      (k : After) (i : ℕ) (w : Worker) (p : Phase)
      → s.call ≡ Call.waiting k i
      → get_elem? (workers_of s.client.reqchan) i ≡ some w
      → w.phase ≡ p
      → w.closed ≡ true
      → is_stopped p ≡ false
      → Moves parse s
  waiting_at-Moves k i w Phase.stopped c e p t u = cc
  waiting_at-Moves k i w Phase.quitting c e p t u = quits-Moves k i w c e p
  waiting_at-Moves k i w Phase.receiving c e p t u =
      busy-Moves i w Phase.receiving w.queue e p refl refl (inl t)
  waiting_at-Moves k i w (Phase.posting x) c e p t u =
      busy-Moves i w (Phase.posting x) w.queue e p refl refl (inl t)
  waiting_at-Moves k i w (Phase.reporting x y) c e p t u =
      busy-Moves i w (Phase.reporting x y) w.queue e p refl refl (inl t)

  waiting-Moves : (k : After) (i : ℕ) → s.call ≡ Call.waiting k i → Moves parse s
  waiting-Moves k i c =
      let ws = workers_of s.client.reqchan in
      let n = rounds s.client.cfg.chan_buffer in
      let b : i < length ws = subst (InRange (length ws)) c r.in_range in
      let (w, e) = get_elem?-some ws i b in
      let t : Tidy (i + 1) i n i w =
        subst (λ x. Tidy (closed_count x) (stopped_count x) n i w) c
          (worker-Tidy s r.good i w w e) in
      waiting_at-Moves k i w w.phase c e refl (ground arith) (ground arith)

  full-Moves :
      (i : ℕ) (w : Worker) (q : List Request) (n : ℕ)
      → 0 < n
      → Tidy 0 0 n i w
      → get_elem? (workers_of s.client.reqchan) i ≡ some w
      → w.closed ≡ false
      → w.queue ≡ q
      → has_room w ≡ false
      → Moves parse s
  full-Moves i w [] n m t e o p h = absurd (ground arith)
  full-Moves i w (x ∷ q) n m t e o p h = elim (Bool-cases (is_ended w.phase)) [
    | inl b ↦ cc (t.ended_closed b, o)
    | inr b ↦ busy-Moves i w w.phase (x ∷ q) e refl p b (inr (omega arith))
  ]

  sending-Moves : (x : Request) (i : ℕ) → s.call ≡ Call.sending x i → Moves parse s
  sending-Moves x i c =
      let ws = workers_of s.client.reqchan in
      let n = rounds s.client.cfg.chan_buffer in
      let b : i < length ws = subst (InRange (length ws)) c r.in_range in
      let (w, e) = get_elem?-some ws i b in
      let t : Tidy 0 0 n i w =
        subst (λ y. Tidy (closed_count y) (stopped_count y) n i w) c
          (worker-Tidy s r.good i w w e) in
      let o : w.closed ≡ false = ground arith in
      elim (Bool-cases (has_room w)) [
        | inl h ↦
            returns-Moves Action.proceed refl
              (record (put_workers s (update ws i (record w { queue = w.queue ++ x ∷ [] }))) {
                call = Call.idle;
                accepted = s.accepted ++ (i, x) ∷ [];
              })
              refl (sending_room parse s x i w c e o h) refl
        | inr h ↦
            full-Moves i w w.queue n (positive_rounds s.client.cfg.chan_buffer r.buffered) t e o
              refl h
      ]

  stopping-Moves : (k : After) (i : ℕ) → s.call ≡ Call.stopping k i → Moves parse s
  stopping-Moves k i c =
      let ws = workers_of s.client.reqchan in
      let n = rounds s.client.cfg.chan_buffer in
      elim (Bool-cases (ltb_int (ℤ.pos i) s.client.cfg.concurrency)) [
        | inl h ↦
            let b : i < length ws = ground (arith, r.good.counted ws r.made) in
            let (w, e) = get_elem?-some ws i b in
            let t : Tidy i i n i w =
              subst (λ y. Tidy (closed_count y) (stopped_count y) n i w) c
                (worker-Tidy s r.good i w w e) in
            let o : w.closed ≡ false = ground arith in
            let w' : Worker = record w { closed = true } in
            caller-Moves Action.proceed refl
              (record (put_workers s (update ws i w')) { call = Call.waiting k i }) refl
              (stopping_more parse s k i w c h e o) refl refl (update ws i w') refl
              (length-update ws i w') (ground (arith, length-update ws i w'))
        | inr h ↦
            let (m, p) = positive_int s.client.cfg.chan_buffer r.buffered in
            let (c', f) =
              finish-some k s.client (length ws) (suc m) (r.good.counted ws r.made) p r.quit_open in
            returns-Moves Action.proceed refl (record s { client = c'; call = Call.idle }) refl
              (stopping_done parse s k i c' c h f) refl
      ]

  pub call-Moves : (c : Call) → s.call ≡ c → c ≢ Call.idle → Moves parse s
  call-Moves Call.idle c n = absurd (n refl)
  call-Moves (Call.sending x i) c n = sending-Moves x i c
  call-Moves (Call.stopping k i) c n = stopping-Moves k i c
  call-Moves (Call.waiting k i) c n = waiting-Moves k i c
