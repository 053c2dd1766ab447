-- ===== src/Lua/Runs.antt =====
-- lua/: invariants of the goroutines around the lock of the sandbox, over any schedule.
use logd_go.Base.{◌≡◌, refl, List, [], ◌∷◌, Bytes, All}
use logd_go.Http.Client.{NewRequest}
use logd_go.Lua.Lock.{Shared, LockEvent, Moved, move, run_moved, run_events}

module _ (P : Shared → Type 0) where
  -- The step, if it is one, leads to such a state.
  abbrev pub Stays : Moved → Type 0
  Stays (Moved.moved t) = P t
  Stays Moved.blocked = Unit {0}
  Stays Moved.crashed = ⊥
  Stays Moved.unfollowed = ⊥

  -- The run has not ended in a panic, and leads to such a state.
  abbrev pub Ends : Moved → Type 0
  Ends r = (t : Shared) × (r ≡ Moved.moved t) × P t

  run_moved-Ends :
      (parse : Bytes → NewRequest) (o : Moved) (s : Shared) (rest : Shared → Moved)
      → Stays o
      → P s
      → ((t : Shared) → P t → Ends (rest t))
      → Ends (run_moved parse o s rest)
  unfolding run_moved
  run_moved-Ends parse (Moved.moved t) s rest h v g = g t h
  run_moved-Ends parse Moved.blocked s rest h v g = g s v
  run_moved-Ends parse Moved.crashed s rest h v g = absurd h
  run_moved-Ends parse Moved.unfollowed s rest h v g = absurd h

  -- What every step keeps, every schedule keeps.
  pub run_events-Ends :
      (parse : Bytes → NewRequest)
      → ((s : Shared) → P s → (e : LockEvent) → Stays (move parse e s))
      → (es : List LockEvent) (s : Shared) → P s
      → Ends (run_events parse es s)
  unfolding run_events
  run_events-Ends parse keeps [] s v = (s, refl, v)
  run_events-Ends parse keeps (e ∷ es) s v =
      run_moved-Ends parse (move parse e s) s (run_events parse es) (keeps s v e) v
        (run_events-Ends parse keeps es)

  -- What the steps of a kind keep, every schedule of such steps keeps.
  pub run_events-EndsFor :
      (parse : Bytes → NewRequest) (Q : LockEvent → Type 0)
      → ((s : Shared) → P s → (e : LockEvent) → Q e → Stays (move parse e s))
      → (es : List LockEvent) (s : Shared) → All Q es
      → P s
      → Ends (run_events parse es s)
  unfolding run_events
  run_events-EndsFor parse Q keeps [] s q v = (s, refl, v)
  run_events-EndsFor parse Q keeps (e ∷ es) s q v =
      run_moved-Ends parse (move parse e s) s (run_events parse es) (keeps s v e q.0) v
        (λ t w. run_events-EndsFor parse Q keeps es t q.1 w)
