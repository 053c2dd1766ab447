-- ===== src/Http/Routing.antt =====
-- http/http.go: the queue that Post picks, and what Init makes of a configuration.
use logd_go.Base.{
  ℕ, zero, suc, ◌+◌, ◌≡◌, ◌∙◌, ◌≤◌, ◌<◌, refl, Bool, true, false, Option, none, some, List, [], ◌∷◌,
  Bytes, length, ℤ, pred_int, get_elem?, ltb, get_elem?-some, ◌⊎◌, inl, inr, Bool-cases, arith,
  if◌then◌else◌, eq_cases,
}
use logd_go.Http.Worker.{Request, Worker, has_room}
use logd_go.Http.Client.{
  Client, Route, find_available, try_send, route, or_first, NewRequest, new_post_request, PostError,
  PostResult, post, post_parsed, submit, submit_to,
}

-- Whether the worker at an index has room in its queue.
abbrev pub room_of : Option Worker → Bool
room_of none = false
room_of (some w) = has_room w

abbrev pub AllOpen : List Worker → Type 0
AllOpen ws = (j : ℕ) (w : Worker) → get_elem? ws j ≡ some w → w.closed ≡ false

-- What the loop from index `k` finds.
abbrev Found : List Worker → ℕ → Route → Type 0
Found ws k (Route.to i) =
    (k ≤ i)
    × (room_of (get_elem? ws i) ≡ true)
    × ((j : ℕ) → k ≤ j → j < i → room_of (get_elem? ws j) ≡ false)
Found ws k Route.full = (j : ℕ) → k ≤ j → room_of (get_elem? ws j) ≡ false
Found ws k Route.panics = ⊥

pub room_of_beyond : (ws : List Worker) (j : ℕ) → length ws ≤ j → room_of (get_elem? ws j) ≡ false
room_of_beyond [] j h = refl
room_of_beyond (w ∷ ws) zero h = absurd (omega arith)
room_of_beyond (w ∷ ws) (suc j) h = room_of_beyond ws j (omega arith)

Found_later :
    (ws : List Worker) (k : ℕ) (r : Route)
    → room_of (get_elem? ws k) ≡ false
    → Found ws (k + 1) r
    → Found ws k r
Found_later ws k (Route.to i) n h = (
  omega (arith, h.0),
  h.1,
  λ j a b. elim (eq_cases j k) [ inl e ↦ rw e n | inr e ↦ h.2 j (ground arith) b ],
)
Found_later ws k Route.full n h =
    λ j a. elim (eq_cases j k) [ inl e ↦ rw e n | inr e ↦ h j (ground arith) ]
Found_later ws k Route.panics n h = elim h [ ]

find_available-Found :
    (ws : List Worker) (n k : ℕ)
    → AllOpen ws
    → k + n ≡ length ws
    → Found ws k (find_available ws n k)
unfolding find_available try_send
find_available-Found ws zero k o e = λ j h. room_of_beyond ws j (omega arith)
find_available-Found ws (suc n) k o e =
    let (w, f) = get_elem?-some ws k (omega arith) in
    let rest : Found ws (k + 1) (find_available ws n (k + 1)) =
      find_available-Found ws n (k + 1) o (omega arith) in
    rw f (
      rw (o k w f) (elim (Bool-cases (has_room w)) [
        | inl h ↦ rw h (omega arith, rw f h, λ j a b. absurd (omega arith))
        | inr h ↦ rw h (Found_later ws k _ (rw f h) rest)
      ]))

-- Where Post sends without an affinity: to the first queue with room, or to queue 0 if there is none.
abbrev pub IsPicked : List Worker → ℕ → Type 0
IsPicked ws k =
    ((room_of (get_elem? ws k) ≡ true) × ((j : ℕ) → j < k → room_of (get_elem? ws j) ≡ false))
    ⊎ ((k ≡ 0) × ((j : ℕ) → room_of (get_elem? ws j) ≡ false))

module _ (parse : Bytes → NewRequest) (c : Client) (ws : List Worker)
    (url u payload content_type : Bytes) (q : c.reqchan ≡ some ws)
    (n : c.cfg.concurrency ≡ ℤ.pos (length ws)) (p : parse url ≡ NewRequest.parsed u) where
  -- Post with an affinity of at least 0, on a client whose slice has a queue for each unit of its
  -- concurrency, and with a URL that parses: it sends to the queue of that index if there is one, and
  -- else returns the error, which names the highest index and the concurrency.
  pub post-affinity :
      (i : ℕ)
      → post parse c url payload content_type (ℤ.pos i) ≡ (
          if ltb i (length ws)
          then PostResult.sends (new_post_request c u payload content_type) i
          else PostResult.refused
              (PostError.affinity_error (pred_int (ℤ.pos (length ws))) (ℤ.pos (length ws))))
  unfolding post post_parsed submit submit_to route
  post-affinity i = ground arith

  Found-IsPicked :
      (r : Request) (x : Route)
      → 0 < length ws
      → Found ws 0 x
      → (k : ℕ) × (submit_to r (or_first x) ≡ PostResult.sends r k) × IsPicked ws k
  unfolding submit_to or_first
  Found-IsPicked r (Route.to k) h f = (k, refl, inl (f.1, λ j a. f.2 j (omega arith) a))
  Found-IsPicked r Route.full h f = (0, refl, inr (refl, λ j. f j (omega arith)))
  Found-IsPicked r Route.panics h f = elim f [ ]

  post-search :
      (i : ℕ)
      → 0 < length ws
      → post parse c url payload content_type (ℤ.negsuc i)
        ≡ submit_to
            (new_post_request c u payload content_type)
            (or_first (find_available ws (length ws) 0))
  unfolding post post_parsed submit route
  post-search i h = ground arith

  -- Post with a negative affinity and a URL that parses, on a client whose slice has a queue for each unit
  -- of its concurrency, at least one, and none of them closed: it returns no error, and sends to the first
  -- queue with room, or waits for room in queue 0 if all are full.
  pub post-available :
      (i : ℕ)
      → 0 < length ws
      → AllOpen ws
      → (k : ℕ) × (post parse c url payload content_type (ℤ.negsuc i)
          ≡ PostResult.sends (new_post_request c u payload content_type) k)
        × IsPicked ws k
  post-available i h o =
      let (k, e, f) =
        Found-IsPicked (new_post_request c u payload content_type) (find_available ws (length ws) 0)
          h (find_available-Found ws (length ws) 0 o (omega arith)) in
      (k, post-search i h ∙ e, f)
