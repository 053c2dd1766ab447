-- ===== src/Http/Fares.antt =====
-- http/http.go: whatever step a worker or a running call makes on an initialised client, none of them panics, and
-- the client stays initialised until the call has returned.
use logd_go.Base.{
  ℕ, suc, ◌+◌, ◌++◌, ◌<◌, ◌≡◌, ◌∙◌, ap, ◌⊎◌, inl, inr, refl, sym, subst, true, false, Option, none,
  some, List, length, length-update, ltb_int, ℤ, rounds, Bytes, get_elem?, get_elem?-some, update,
  arith, Bool-cases,
}
use logd_go.Http.Worker.{Request, Worker, has_room}
use logd_go.Http.Client.{workers_of, NewRequest}
use logd_go.Http.System.{
  After, Call, System, Result, Action, step_worker, receive_step, attempt, quit_step, proceed_in,
  send_on, advance, put_workers,
}
use logd_go.Http.Invariant.{closed_count, stopped_count, Tidy}
use logd_go.Http.Serve.{worker-Tidy}
use logd_go.Http.Steps.{advance-Good}
use logd_go.Http.Bound.{is_entry}
use logd_go.Http.Ready.{
  InRange, IsReady, positive_int, finish-some, sending_room, stopping_more, stopping_done,
}

-- The call has returned, or the client is still initialised.
abbrev pub IsFine : System → Type 0
IsFine s = (s.call ≡ Call.idle) ⊎ IsReady s

abbrev pub Fares : Result → Type 0
Fares (Result.running t) = IsFine t
Fares Result.panicked = ⊥
Fares Result.disabled = Unit {0}

-- Behind the return of the call, the workers leave it returned.
module _ (s : System) (c : s.call ≡ Call.idle) where
  step_worker-Fares : (j : ℕ) (o : Option Worker) → Fares (step_worker s j o)
  unfolding step_worker
  step_worker-Fares j none = tt
  step_worker-Fares j (some w) = inl c

  receive_step-Fares : (j : ℕ) (o : Option Worker) → Fares (receive_step s j o)
  unfolding receive_step
  receive_step-Fares j none = tt
  receive_step-Fares j (some w) = inl c

  quit_step-Fares : (j : ℕ) (o : Option Worker) → Fares (quit_step s.call s j o)
  unfolding quit_step
  quit_step-Fares j o = rw c tt

  proceed-Fares : Fares (proceed_in s.call s)
  unfolding proceed_in
  proceed-Fares = rw c tt

  idle-Fares :
      (parse : Bytes → NewRequest) (a : Action) → is_entry a ≡ false → Fares (advance parse a s)
  unfolding advance
  idle-Fares parse (Action.receives j) h = receive_step-Fares j _
  idle-Fares parse (Action.responds j res) h = step_worker-Fares j _
  idle-Fares parse (Action.reports j) h = step_worker-Fares j _
  idle-Fares parse (Action.quits j) h = quit_step-Fares j _
  idle-Fares parse Action.proceed h = proceed-Fares
  idle-Fares parse (Action.call_post u p t z) h = cc
  idle-Fares parse Action.call_flush h = cc
  idle-Fares parse Action.call_close h = cc
  idle-Fares parse (Action.call_init cfg b) h = cc

module _ (parse : Bytes → NewRequest) (s : System) (r : IsReady s) where
  worker-Ready :
      (a : Action) (j : ℕ) (w : Worker) (att : List (ℕ × Request)) (x : Call)
      → advance parse a s
        ≡ Result.running (record (put_workers s (update (workers_of s.client.reqchan) j w)) {
          attempted = att;
          call = x;
        })
      → InRange (length (workers_of s.client.reqchan)) x
      → IsReady (record (put_workers s (update (workers_of s.client.reqchan) j w)) {
        attempted = att;
        call = x;
      })
  worker-Ready a j w att x e i =
      let ws = workers_of s.client.reqchan in
      record {
        good = advance-Good parse a s r.good e;
        made = refl;
        some_queue = ground (arith, length-update ws j w, r.some_queue);
        buffered = r.buffered;
        quit_open = r.quit_open;
        in_range = rw (length-update ws j w) i;
      }

  advance_at-Fares :
      (a : Action) (y : Result) → advance parse a s ≡ y → Fares y → Fares (advance parse a s)
  advance_at-Fares a y e h = subst Fares (sym e) h

  step_worker-Ready :
      (a : Action) (j : ℕ) (o : Option Worker)
      → advance parse a s ≡ step_worker s j o
      → Fares (advance parse a s)
  unfolding step_worker
  step_worker-Ready a j none e = advance_at-Fares a Result.disabled e tt
  step_worker-Ready a j (some w) e =
      advance_at-Fares a _ e (inr (worker-Ready a j w s.attempted s.call e r.in_range))

  receive_step-Ready :
      (a : Action) (j : ℕ) (o : Option Worker)
      → advance parse a s ≡ receive_step s j o
      → Fares (advance parse a s)
  unfolding receive_step
  receive_step-Ready a j none e = advance_at-Fares a Result.disabled e tt
  receive_step-Ready a j (some w) e =
      advance_at-Fares a _ e
        (inr (worker-Ready a j w (s.attempted ++ attempt w.phase j) s.call e r.in_range))

  quit_step-Ready :
      (a : Action) (j : ℕ) (c : Call) (o : Option Worker)
      → advance parse a s ≡ quit_step c s j o
      → Fares (advance parse a s)
  unfolding quit_step
  quit_step-Ready a j (Call.waiting k i) (some w) e =
      advance_at-Fares a _ e (inr (worker-Ready a j w s.attempted (Call.stopping k (i + 1)) e tt))
  quit_step-Ready a j (Call.waiting k i) none e = advance_at-Fares a Result.disabled e tt
  quit_step-Ready a j Call.idle o e = advance_at-Fares a Result.disabled e tt
  quit_step-Ready a j (Call.sending x i) o e = advance_at-Fares a Result.disabled e tt
  quit_step-Ready a j (Call.stopping k i) o e = advance_at-Fares a Result.disabled e tt

  full_send :
      (x : Request) (i : ℕ) (w : Worker)
      → s.call ≡ Call.sending x i
      → get_elem? (workers_of s.client.reqchan) i ≡ some w
      → w.closed ≡ false
      → has_room w ≡ false
      → advance parse Action.proceed s ≡ Result.disabled
  unfolding advance proceed_in send_on
  full_send x i w c e o h = rw c (rw e (rw o (rw h refl)))

  proceed_waits :
      (c : Call)
      → s.call ≡ c
      → proceed_in c s ≡ Result.disabled
      → advance parse Action.proceed s ≡ Result.disabled
  unfolding advance
  proceed_waits c e h = ap (λ x. proceed_in x s) e ∙ h

  waits_there : (k : After) (i : ℕ) → proceed_in (Call.waiting k i) s ≡ Result.disabled
  unfolding proceed_in
  waits_there k i = refl

  waits_idle : proceed_in Call.idle s ≡ Result.disabled
  unfolding proceed_in
  waits_idle = refl

  sending-Ready :
      (x : Request) (i : ℕ) → s.call ≡ Call.sending x i → Fares (advance parse Action.proceed s)
  sending-Ready x i c =
      let ws = workers_of s.client.reqchan in
      let n = rounds s.client.cfg.chan_buffer in
      let b : i < length ws = subst (InRange (length ws)) c r.in_range in
      let (w, e) = get_elem?-some ws i b in
      let t : Tidy 0 0 n i w =
        subst (λ y. Tidy (closed_count y) (stopped_count y) n i w) c
          (worker-Tidy s r.good i w w e) in
      let o : w.closed ≡ false = ground arith in
      elim (Bool-cases (has_room w)) [
        | inl h ↦ advance_at-Fares Action.proceed _ (sending_room parse s x i w c e o h) (inl refl)
        | inr h ↦ advance_at-Fares Action.proceed Result.disabled (full_send x i w c e o h) tt
      ]

  stopping-Ready :
      (k : After) (i : ℕ) → s.call ≡ Call.stopping k i → Fares (advance parse Action.proceed s)
  stopping-Ready k i c =
      let ws = workers_of s.client.reqchan in
      let n = rounds s.client.cfg.chan_buffer in
      elim (Bool-cases (ltb_int (ℤ.pos i) s.client.cfg.concurrency)) [
        | inl h ↦
            let b : i < length ws = ground (arith, r.good.counted ws r.made) in
            let (w, e) = get_elem?-some ws i b in
            let t : Tidy i i n i w =
              subst (λ y. Tidy (closed_count y) (stopped_count y) n i w) c
                (worker-Tidy s r.good i w w e) in
            let o : w.closed ≡ false = ground arith in
            let q = stopping_more parse s k i w c h e o in
            advance_at-Fares Action.proceed _ q (
              inr (
                worker-Ready Action.proceed i (record w { closed = true }) s.attempted
                  (Call.waiting k i) q b))
        | inr h ↦
            let (m, p) = positive_int s.client.cfg.chan_buffer r.buffered in
            let (c', f) =
              finish-some k s.client (length ws) (suc m) (r.good.counted ws r.made) p r.quit_open in
            advance_at-Fares Action.proceed _ (stopping_done parse s k i c' c h f) (inl refl)
      ]

  proceed-Ready : (c : Call) → s.call ≡ c → Fares (advance parse Action.proceed s)
  proceed-Ready Call.idle c =
      advance_at-Fares Action.proceed Result.disabled (proceed_waits Call.idle c waits_idle) tt
  proceed-Ready (Call.waiting k i) c =
      advance_at-Fares Action.proceed Result.disabled
        (proceed_waits (Call.waiting k i) c (waits_there k i)) tt
  proceed-Ready (Call.sending x i) c = sending-Ready x i c
  proceed-Ready (Call.stopping k i) c = stopping-Ready k i c

  ready-Fares : (a : Action) → is_entry a ≡ false → Fares (advance parse a s)
  unfolding advance
  ready-Fares (Action.receives j) h = receive_step-Ready (Action.receives j) j _ refl
  ready-Fares (Action.responds j res) h = step_worker-Ready (Action.responds j res) j _ refl
  ready-Fares (Action.reports j) h = step_worker-Ready (Action.reports j) j _ refl
  ready-Fares (Action.quits j) h = quit_step-Ready (Action.quits j) j s.call _ refl
  ready-Fares Action.proceed h = proceed-Ready s.call refl
  ready-Fares (Action.call_post u p t z) h = cc
  ready-Fares Action.call_flush h = cc
  ready-Fares Action.call_close h = cc
  ready-Fares (Action.call_init cfg b) h = cc

-- A step of a worker or of the running call.
pub advance-Fares :
    (parse : Bytes → NewRequest) (a : Action) (s : System)
    → IsFine s
    → is_entry a ≡ false
    → Fares (advance parse a s)
advance-Fares parse a s (inl c) h = idle-Fares s c parse a h
advance-Fares parse a s (inr r) h = ready-Fares parse s r a h
