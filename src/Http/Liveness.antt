-- ===== src/Http/Liveness.antt =====
-- http/http.go: schedules of the workers and of a running call end, and some take the call to its return.
use logd_go.Base.{
  ℕ, zero, suc, ◌+◌, ◌<◌, ◌≤◌, ◌≡◌, ◌≢◌, ◌⊎◌, inl, inr, refl, false, List, [], ◌∷◌, length, arith,
  All, Bytes, ap,
}
use logd_go.Http.Client.{NewRequest}
use logd_go.Http.System.{Call, System, Result, Action, advance}
use logd_go.Http.Invariant.{Good}
use logd_go.Http.Steps.{advance-Good}
use logd_go.Http.Delivery.{run_from}
use logd_go.Http.Work.{work}
use logd_go.Http.Bound.{is_entry, advance-Less}
use logd_go.Http.Ready.{IsReady}
use logd_go.Http.Progress.{Move, Moves, is_response, call-Moves}
use logd_go.Http.Fares.{IsFine, Fares, advance-Fares}
use logd_go.Http.Worker.{Response}

-- Steps of the workers and of the running call only.
abbrev pub AllInner : List Action → Type 0
AllInner acts = All (λ a. is_entry a ≡ false) acts

Result-cases :
    (r : Result)
    → ((t : System) × (r ≡ Result.running t)) ⊎ ((r ≡ Result.panicked) ⊎ (r ≡ Result.disabled))
Result-cases (Result.running t) = inl (t, refl)
Result-cases Result.panicked = inr (inl refl)
Result-cases Result.disabled = inr (inr refl)

run_from_stays :
    (parse : Bytes → NewRequest) (acts : List Action)
    → (run_from parse acts Result.panicked ≡ Result.panicked)
      × (run_from parse acts Result.disabled ≡ Result.disabled)
unfolding run_from
run_from_stays parse [] = (refl, refl)
run_from_stays parse (a ∷ acts) = (refl, refl)

run_from-ended :
    (parse : Bytes → NewRequest) (acts : List Action) (r : Result) {s : System}
    → (r ≡ Result.panicked) ⊎ (r ≡ Result.disabled)
    → run_from parse acts r ≢ Result.running s
run_from-ended parse acts r (inl c) =
    λ e. cc (e, ap (run_from parse acts) c, (run_from_stays parse acts).0)
run_from-ended parse acts r (inr c) =
    λ e. cc (e, ap (run_from parse acts) c, (run_from_stays parse acts).1)

-- However the workers and a running call are scheduled, they make at most as many steps as there is work
-- left: no schedule of theirs goes on for ever.
pub run_from-work :
    (parse : Bytes → NewRequest) (acts : List Action) (s : System) {s' : System}
    → Good s
    → AllInner acts
    → run_from parse acts (Result.running s) ≡ Result.running s'
    → length acts + work s' ≤ work s
unfolding run_from
run_from-work parse [] s g h e = ground arith
run_from-work parse (a ∷ acts) s g h e = elim (Result-cases (advance parse a s)) [
  | inl r ↦
      let l : work r.0 < work s = rw r.1 at (advance-Less parse a s g h.0) in
      let b = run_from-work parse acts r.0 (advance-Good parse a s g r.1) h.1 (rw r.1 at e) in
      omega arith
  | inr r ↦ absurd (run_from-ended parse acts (advance parse a s) r e)
]

-- The threads can take the system to the return of the call, whatever the server answers: a thread other than
-- the server is picked and moves, or a request is picked, which may end with any response.
pub data Completes (parse : Bytes → NewRequest) : System → Type 0 where
  returned : (s : System) → s.call ≡ Call.idle → Completes parse s
  thread_moves :
      (a : Action) (s t : System)
      → is_entry a ≡ false
      → is_response a ≡ false
      → advance parse a s ≡ Result.running t
      → Completes parse t
      → Completes parse s
  server_moves :
      (j : ℕ) (s : System) (next : Response → System)
      → ((res : Response) → advance parse (Action.responds j res) s ≡ Result.running (next res))
      → ((res : Response) → Completes parse (next res))
      → Completes parse s

idle_cases : (c : Call) → (c ≡ Call.idle) ⊎ (c ≢ Call.idle)
idle_cases Call.idle = inl refl
idle_cases (Call.sending r i) = inr (λ e. cc)
idle_cases (Call.stopping k i) = inr (λ e. cc)
idle_cases (Call.waiting k i) = inr (λ e. cc)

moved_work :
    (parse : Bytes → NewRequest) (a : Action) (s : System) (m : Move parse a s)
    → Good s
    → work m.after < work s
moved_work parse a s m g = rw m.steps at (advance-Less parse a s g m.inner)

some_response : Response
some_response = Response.failed []

no_work : (parse : Bytes → NewRequest) (s : System) → Good s → Moves parse s → work s ≤ 0 → ⊥
no_work parse s g (Moves.thread_moves a n m) h = absurd (omega (arith, moved_work parse a s m g))
no_work parse s g (Moves.server_moves j f) h =
    absurd (omega (arith, moved_work parse (Action.responds j some_response) s (f some_response) g))

moved-Completes :
    (parse : Bytes → NewRequest) (s : System) (fuel : ℕ)
    → Good s
    → work s ≤ suc fuel
    → Moves parse s
    → ((t : System) → (t.call ≡ Call.idle) ⊎ IsReady t → work t ≤ fuel → Completes parse t)
    → Completes parse s
moved-Completes parse s fuel g h (Moves.thread_moves a n m) rest =
    Completes.thread_moves a s m.after m.inner n m.steps
      (rest m.after m.outcome (omega (arith, moved_work parse a s m g)))
moved-Completes parse s fuel g h (Moves.server_moves j f) rest =
    Completes.server_moves j s (λ res. (f res).after) (λ res. (f res).steps)
      (λ res.
        rest (f res).after (f res).outcome
          (omega (arith, moved_work parse (Action.responds j res) s (f res) g)))

pub ready-Completes :
    (parse : Bytes → NewRequest) (fuel : ℕ) (s : System)
    → (s.call ≡ Call.idle) ⊎ IsReady s
    → work s ≤ fuel
    → Completes parse s
ready-Completes parse fuel s (inl c) h = Completes.returned s c
ready-Completes parse zero s (inr r) h = elim (idle_cases s.call) [
  | inl c ↦ Completes.returned s c
  | inr c ↦ absurd (no_work parse s r.good (call-Moves parse s r s.call refl c) h)
]
ready-Completes parse (suc fuel) s (inr r) h = elim (idle_cases s.call) [
  | inl c ↦ Completes.returned s c
  | inr c ↦
      moved-Completes parse s fuel r.good h (call-Moves parse s r s.call refl c)
        (ready-Completes parse fuel)
]

-- After any steps of the threads, with any responses.
abbrev pub StillCompletes : (Bytes → NewRequest) → Result → Type 0
StillCompletes parse (Result.running t) = Completes parse t
StillCompletes parse Result.panicked = ⊥
StillCompletes parse Result.disabled = Unit {0}

fine-StillCompletes : (parse : Bytes → NewRequest) (r : Result) → Fares r → StillCompletes parse r
fine-StillCompletes parse (Result.running t) f = ready-Completes parse (work t) t f (omega arith)
fine-StillCompletes parse Result.panicked f = f
fine-StillCompletes parse Result.disabled f = tt

run_from-Fares :
    (parse : Bytes → NewRequest) (acts : List Action) (r : Result)
    → Fares r
    → AllInner acts
    → Fares (run_from parse acts r)
unfolding run_from
run_from-Fares parse [] r f h = f
run_from-Fares parse (a ∷ acts) (Result.running s) f h =
    run_from-Fares parse acts (advance parse a s) (advance-Fares parse a s f h.0) h.1
run_from-Fares parse (a ∷ acts) Result.panicked f h = f
run_from-Fares parse (a ∷ acts) Result.disabled f h = tt

pub run_from-Completes :
    (parse : Bytes → NewRequest) (acts : List Action) (s : System)
    → IsFine s
    → AllInner acts
    → StillCompletes parse (run_from parse acts (Result.running s))
run_from-Completes parse acts s f h =
    fine-StillCompletes parse _ (run_from-Fares parse acts (Result.running s) f h)
