-- ===== src/Http/Invariant.antt =====
-- http/http.go: what holds of the client, its queues and its workers between two steps.
use logd_go.Base.{
  inl, inr, eq_cases, ℕ, ◌+◌, ◌≤◌, ◌≡◌, ◌∙◌, subst, Bool, true, false, Option, none, some, List, [],
  ◌∷◌, ◌++◌, append_assoc, length, if◌then◌else◌, ◌==◌, ltb, ℤ, rounds, get_elem?, update,
  get_elem?-update, get_elem?-bound, arith,
}
use logd_go.Http.Worker.{Request, Worker, Phase}
use logd_go.Http.Client.{workers_of}
use logd_go.Http.System.{Call, System, Result}

-- The requests of a history that went to queue `i`.
unfoldable pub sent_to : ℕ → List (ℕ × Request) → List Request
sent_to i [] = []
sent_to i (p ∷ ps) = let rest = sent_to i ps in if p.0 == i then p.1 ∷ rest else rest

pub sent_to_append :
    (i j : ℕ) (r : Request) (ps : List (ℕ × Request))
    → sent_to i (ps ++ (j, r) ∷ []) ≡ (if j == i then sent_to i ps ++ r ∷ [] else sent_to i ps)
unfolding sent_to
sent_to_append i j r [] = ground arith
sent_to_append i j r (p ∷ ps) = ground (arith, sent_to_append i j r ps)

abbrev pub queue_of : Option Worker → List Request
queue_of none = []
queue_of (some w) = w.queue

-- For each queue, the requests accepted are those attempted and then those in the queue, in order.
abbrev pub Conserved : List (ℕ × Request) → List (ℕ × Request) → List Worker → Type 0
Conserved acc att ws = (i : ℕ) → sent_to i acc ≡ sent_to i att ++ queue_of (get_elem? ws i)

abbrev pub is_stopped : Phase → Bool
is_stopped Phase.stopped = true
is_stopped _ = false

-- Behind its loop.
abbrev pub is_ended : Phase → Bool
is_ended Phase.stopped = true
is_ended Phase.quitting = true
is_ended _ = false

-- Worker `i`, where the queues below `c` are closed, the workers below `d` have stopped, and a queue
-- holds `n` requests.
pub record Tidy (c d n i : ℕ) (w : Worker) : Type 0 where
  pub closed_below : w.closed ≡ ltb i c
  pub stopped_below : is_stopped w.phase ≡ ltb i d
  pub drained : is_ended w.phase ≡ true → w.queue ≡ []
  pub ended_closed : is_ended w.phase ≡ true → w.closed ≡ true
  pub bounded : length w.queue ≤ n
  pub sized : w.capacity ≡ n

abbrev pub TidyAt : ℕ → ℕ → ℕ → ℕ → Option Worker → Type 0
TidyAt c d n i none = Unit
TidyAt c d n i (some w) = Tidy c d n i w

abbrev pub AllTidy : ℕ → ℕ → ℕ → List Worker → Type 0
AllTidy c d n ws = (i : ℕ) → TidyAt c d n i (get_elem? ws i)

abbrev pub closed_count : Call → ℕ
closed_count Call.idle = 0
closed_count (Call.sending r i) = 0
closed_count (Call.stopping k i) = i
closed_count (Call.waiting k i) = i + 1

abbrev pub stopped_count : Call → ℕ
stopped_count Call.idle = 0
stopped_count (Call.sending r i) = 0
stopped_count (Call.stopping k i) = i
stopped_count (Call.waiting k i) = i

pub record Good (s : System) : Type 0 where
  pub conserved : Conserved s.accepted s.attempted (workers_of s.client.reqchan)
  pub tidy :
      AllTidy
        (closed_count s.call)
        (stopped_count s.call)
        (rounds s.client.cfg.chan_buffer)
        (workers_of s.client.reqchan)
  pub counted :
      (ws : List Worker) → s.client.reqchan ≡ some ws → s.client.cfg.concurrency ≡ ℤ.pos (length ws)

-- The step does not end in a state that breaks the invariant.
abbrev pub Keeps : Result → Type 0
Keeps (Result.running s) = Good s
Keeps Result.panicked = Unit
Keeps Result.disabled = Unit

-- The worker at an index, and its neighbours, after an update.
update_self :
    (ws : List Worker) (j : ℕ) (w w' : Worker)
    → get_elem? ws j ≡ some w
    → get_elem? (update ws j w') j ≡ some w'
update_self ws j w w' e = ground (arith, get_elem?-update ws j j w', get_elem?-bound ws j e)

update_other :
    (ws : List Worker) (i j : ℕ) (w' : Worker)
    → i == j ≡ false
    → get_elem? (update ws j w') i ≡ get_elem? ws i
update_other ws i j w' n = ground (arith, get_elem?-update ws j i w')

TidyAt-same :
    (c d c' d' n i : ℕ) (o : Option Worker)
    → ltb i c ≡ ltb i c'
    → ltb i d ≡ ltb i d'
    → TidyAt c d n i o
    → TidyAt c' d' n i o
TidyAt-same c d c' d' n i none p q t = tt
TidyAt-same c d c' d' n i (some w) p q t = record {
  closed_below = t.closed_below ∙ p;
  stopped_below = t.stopped_below ∙ q;
  drained = t.drained;
  ended_closed = t.ended_closed;
  bounded = t.bounded;
  sized = t.sized;
}

module _ (ws : List Worker) (j : ℕ) (w w' : Worker) (e : get_elem? ws j ≡ some w) where
  pub AllTidy-at : (c d n : ℕ) → AllTidy c d n ws → Tidy c d n j w
  AllTidy-at c d n t = subst (TidyAt c d n j) e (t j)

  -- One worker changes, and the counts change at its index only.
  pub update-AllTidy :
      (c d c' d' n : ℕ)
      → AllTidy c d n ws
      → Tidy c' d' n j w'
      → ((i : ℕ) → i == j ≡ false → (ltb i c ≡ ltb i c') × (ltb i d ≡ ltb i d'))
      → AllTidy c' d' n (update ws j w')
  update-AllTidy c d c' d' n t u h i = elim (eq_cases i j) [
    | inl p ↦ rw p (rw (update_self ws j w w' e) u)
    | inr p ↦
        rw (update_other ws i j w' p)
          (TidyAt-same c d c' d' n i (get_elem? ws i) (h i p).0 (h i p).1 (t i))
  ]

  -- One worker changes, and neither its queue nor the histories do.
  pub update-Conserved :
      (acc att : List (ℕ × Request))
      → w'.queue ≡ w.queue
      → Conserved acc att ws
      → Conserved acc att (update ws j w')
  update-Conserved acc att q h i = elim (eq_cases i j) [
    | inl p ↦ rw p (rw (update_self ws j w w' e) (cc (h j, e, q)))
    | inr p ↦ rw (update_other ws i j w' p) (h i)
  ]

  -- A request is accepted at the end of the queue.
  pub send-Conserved :
      (acc att : List (ℕ × Request)) (r : Request)
      → w'.queue ≡ w.queue ++ r ∷ []
      → Conserved acc att ws
      → Conserved (acc ++ (j, r) ∷ []) att (update ws j w')
  send-Conserved acc att r q h i = elim (eq_cases i j) [
    | inl p ↦ rw p (
        rw (update_self ws j w w' e) (
          ground (
            arith,
            sent_to_append j j r acc,
            h j,
            e,
            q,
            append_assoc (sent_to j att) w.queue (r ∷ []),
          )))
    | inr p ↦ rw (update_other ws i j w' p) (ground (arith, sent_to_append i j r acc, h i))
  ]

  -- A request is attempted from the front of the queue.
  pub receive-Conserved :
      (acc att : List (ℕ × Request)) (r : Request)
      → w.queue ≡ r ∷ w'.queue
      → Conserved acc att ws
      → Conserved acc (att ++ (j, r) ∷ []) (update ws j w')
  receive-Conserved acc att r q h i = elim (eq_cases i j) [
    | inl p ↦ rw p (
        rw (update_self ws j w w' e) (
          ground (
            arith,
            sent_to_append j j r att,
            h j,
            e,
            q,
            append_assoc (sent_to j att) (r ∷ []) w'.queue,
          )))
    | inr p ↦ rw (update_other ws i j w' p) (ground (arith, sent_to_append i j r att, h i))
  ]
