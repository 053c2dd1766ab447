-- ===== src/Http/Delivery.antt =====
-- http/http.go: the requests that Post accepted against those that the workers attempted, over every
-- interleaving of the caller and the workers.
use logd_go.Base.{
  ℕ, ◌≡◌, ◌≤◌, ◌∙◌, refl, none, List, [], ◌∷◌, ◌++◌, append-nil, Bytes, length, rounds, get_elem?,
  subst, Option-cases, inl, inr, arith,
}
use logd_go.Http.Client.{NewRequest, workers_of}
use logd_go.Http.System.{System, Result, Action, start, advance}
use logd_go.Http.Invariant.{sent_to, queue_of, Good, TidyAt}
use logd_go.Http.Steps.{advance-Good}

-- The system after a sequence of steps, none of which panics or waits.
unfoldable pub run_from : (Bytes → NewRequest) → List Action → Result → Result
unfolding advance
run_from parse [] r = r
run_from parse (a ∷ acts) (Result.running s) = run_from parse acts (advance parse a s)
run_from parse (a ∷ acts) Result.panicked = Result.panicked
run_from parse (a ∷ acts) Result.disabled = Result.disabled

pub start-Good : Good start
unfolding sent_to
start-Good = record { conserved = λ i. refl; tidy = λ i. tt; counted = λ ws e. cc }

run_from-Good :
    (parse : Bytes → NewRequest) (acts : List Action) (r : Result) {s : System}
    → ((t : System) → r ≡ Result.running t → Good t)
    → run_from parse acts r ≡ Result.running s
    → Good s
unfolding run_from
run_from-Good parse [] r h e = h _ e
run_from-Good parse (a ∷ acts) (Result.running t) h e =
    run_from-Good parse acts (advance parse a t) (λ u f. advance-Good parse a t (h t refl) f) e
run_from-Good parse (a ∷ acts) Result.panicked h e = cc
run_from-Good parse (a ∷ acts) Result.disabled h e = cc

pub run-Good :
    (parse : Bytes → NewRequest) (acts : List Action) {s : System}
    → run_from parse acts (Result.running start) ≡ Result.running s
    → Good s
run-Good parse acts e =
    run_from-Good parse acts (Result.running start) (λ t f. subst Good (start_eq f) start-Good) e
  where
    start_eq : {t : System} → Result.running start ≡ Result.running t → start ≡ t
    start_eq f = cc

-- However the calls of a client and the steps of its workers interleave, for each queue the requests
-- accepted are those that its worker has handed to the HTTP client, and behind them those in the queue,
-- in the same order: none is lost, doubled or overtaken, also over Flush, Close and Init.
pub run-accepted :
    (parse : Bytes → NewRequest) (acts : List Action) {s : System}
    → run_from parse acts (Result.running start) ≡ Result.running s
    → (i : ℕ)
    → sent_to i s.accepted
      ≡ sent_to i s.attempted ++ queue_of (get_elem? (workers_of s.client.reqchan) i)
run-accepted parse acts e i = (run-Good parse acts e).conserved i

-- Whenever the client is without queues, as Close leaves it and Init if it fails, every request that it
-- accepted has been attempted once, in the order of its queue.
pub run-closed :
    (parse : Bytes → NewRequest) (acts : List Action) {s : System}
    → run_from parse acts (Result.running start) ≡ Result.running s
    → s.client.reqchan ≡ none
    → (i : ℕ) → sent_to i s.accepted ≡ sent_to i s.attempted
run-closed parse acts e n i = run-accepted parse acts e i ∙ rw n (rw append-nil refl)

-- In every interleaving a queue holds at most as many requests as the configured buffer.
pub run-bounded :
    (parse : Bytes → NewRequest) (acts : List Action) {s : System}
    → run_from parse acts (Result.running start) ≡ Result.running s
    → (i : ℕ)
    → length (queue_of (get_elem? (workers_of s.client.reqchan) i))
      ≤ rounds s.client.cfg.chan_buffer
run-bounded parse acts {s} e i = elim (Option-cases (get_elem? (workers_of s.client.reqchan) i)) [
  | inl f ↦ rw f (omega arith)
  | inr f ↦
      let t =
        subst (TidyAt _ _ (rounds s.client.cfg.chan_buffer) i) f.1
          ((run-Good parse acts e).tidy i) in
      rw f.1 t.bounded
]
