-- ===== src/Http/Returns.antt =====
-- http/http.go: the calls on an initialised client return.
use logd_go.Base.{
  ℕ, ◌<◌, ◌≡◌, ◌∙◌, sym, ◌⊎◌, inl, inr, refl, subst, Bool, true, Option, none, some, Bool-cases,
  List, length, ltb, ltb_int, pred_int, ℤ, rounds, arith, Bytes, ap, ◌>>=◌,
}
use logd_go.Http.Config.{Config, validate_configuration}
use logd_go.Http.Finish.{init_workers-repeat, length-repeat_worker}
use logd_go.Http.Worker.{Worker}
use logd_go.Http.Client.{
  Client, Channel, init_workers, configure, configure_valid, workers_of, NewRequest, PostResult,
  post, post_parsed,
}
use logd_go.Http.System.{
  After, Call, System, Result, Action, advance, enter, is_idle, enter_post, enter_init, return_with,
  configured,
}
use logd_go.Http.Invariant.{Good, closed_count, stopped_count, Tidy}
use logd_go.Http.Serve.{worker-Tidy}
use logd_go.Http.Steps.{advance-Good}
use logd_go.Http.Routing.{AllOpen, IsPicked, room_of_beyond, post-affinity, post-available}
use logd_go.Http.Bound.{is_entry}
use logd_go.Http.Ready.{InRange, IsReady, validate-natural, natural_int, init_workers-some}
use logd_go.Http.Delivery.{run_from}
use logd_go.Http.Liveness.{AllInner, StillCompletes, run_from-Completes}

picked_bound : (ws : List Worker) (k : ℕ) → 0 < length ws → IsPicked ws k → k < length ws
picked_bound ws k h (inl p) = elim (Bool-cases (ltb k (length ws))) [
  | inl b ↦ ground arith
  | inr b ↦ cc (p.0, room_of_beyond ws k (ground arith))
]
picked_bound ws k h (inr p) = omega arith

-- Post does not panic, and the queue on which it sends is there.
abbrev Posts : ℕ → PostResult → Type 0
Posts n (PostResult.refused e) = Unit
Posts n PostResult.panicked = ⊥
Posts n (PostResult.sends r i) = i < n

open-queues : (s : System) → IsReady s → s.call ≡ Call.idle → AllOpen (workers_of s.client.reqchan)
open-queues s r c j w e =
    let n = rounds s.client.cfg.chan_buffer in
    let t : Tidy 0 0 n j w =
      subst (λ x. Tidy (closed_count x) (stopped_count x) n j w) c (worker-Tidy s r.good j w w e) in
    ground arith

post-Posts :
    (parse : Bytes → NewRequest) (s : System) (url payload content_type : Bytes) (z : ℤ)
    (u : NewRequest)
    → IsReady s
    → s.call ≡ Call.idle
    → parse url ≡ u
    → Posts (length (workers_of s.client.reqchan)) (post parse s.client url payload content_type z)
unfolding post post_parsed
post-Posts parse s url payload content_type z (NewRequest.refusal e) r c p =
    elim (Bool-cases (ltb_int (pred_int s.client.cfg.concurrency) z)) [
      | inl h ↦ rw h tt
      | inr h ↦ rw h (rw p tt)
    ]
post-Posts parse s url payload content_type (ℤ.pos i) (NewRequest.parsed u) r c p =
    let ws = workers_of s.client.reqchan in
    let e =
      post-affinity parse s.client ws url u payload content_type r.made (r.good.counted ws r.made) p
        i in
    elim (Bool-cases (ltb i (length ws))) [
      | inl h ↦ subst (Posts (length ws)) (sym (rw h at e)) (ground arith)
      | inr h ↦ subst (Posts (length ws)) (sym (rw h at e)) tt
    ]
post-Posts parse s url payload content_type (ℤ.negsuc i) (NewRequest.parsed u) r c p =
    let ws = workers_of s.client.reqchan in
    let (k, e, f) =
      post-available parse s.client ws url u payload content_type r.made (r.good.counted ws r.made)
        p i r.some_queue (open-queues s r c) in
    subst (Posts (length ws)) (sym e) (picked_bound ws k r.some_queue f)

-- A call enters an initialised client.
record Enters (parse : Bytes → NewRequest) (a : Action) (s : System) : Type 0 where
  after : System
  steps : advance parse a s ≡ Result.running after
  outcome : (after.call ≡ Call.idle) ⊎ IsReady after

module _ (parse : Bytes → NewRequest) (s : System) (r : IsReady s) (c : s.call ≡ Call.idle) where
  entered-IsReady :
      (a : Action) (x : Call)
      → advance parse a s ≡ Result.running (record s { call = x })
      → InRange (length (workers_of s.client.reqchan)) x
      → Enters parse a s
  entered-IsReady a x e i = record {
    after = record s { call = x };
    steps = e;
    outcome = inr (record {
      good = advance-Good parse a s r.good e;
      made = r.made;
      some_queue = r.some_queue;
      buffered = r.buffered;
      quit_open = r.quit_open;
      in_range = i;
    });
  }

  enter_lem : (x : Result) → enter (is_idle s.call) x ≡ x
  unfolding enter is_idle
  enter_lem x = ap (λ y. enter (is_idle y) x) c

  post-Enters :
      (url payload content_type : Bytes) (z : ℤ) (p : PostResult)
      → post parse s.client url payload content_type z ≡ p
      → Posts (length (workers_of s.client.reqchan)) p
      → Enters parse (Action.call_post url payload content_type z) s
  unfolding advance enter_post
  post-Enters url payload content_type z (PostResult.refused x) e i = record {
    after = s;
    steps = enter_lem _ ∙ ap (enter_post s) e;
    outcome = inl c;
  }
  post-Enters url payload content_type z PostResult.panicked e i = elim i [ ]
  post-Enters url payload content_type z (PostResult.sends x j) e i =
      entered-IsReady (Action.call_post url payload content_type z) (Call.sending x j)
        (enter_lem _ ∙ ap (enter_post s) e) i

  entry-Enters : (a : Action) → is_entry a ≡ true → Enters parse a s
  unfolding advance enter_init
  entry-Enters (Action.call_post url payload content_type z) h =
      post-Enters url payload content_type z _ refl
        (post-Posts parse s url payload content_type z _ r c refl)
  entry-Enters Action.call_flush h =
      entered-IsReady Action.call_flush (Call.stopping After.flush 0) (enter_lem _) tt
  entry-Enters Action.call_close h =
      entered-IsReady Action.call_close (Call.stopping After.close 0) (enter_lem _) tt
  entry-Enters (Action.call_init cfg errorchan) h =
      entered-IsReady (Action.call_init cfg errorchan) (Call.stopping (After.init cfg errorchan) 0)
        (enter_lem _ ∙ ap (λ o. enter_init o cfg errorchan s) r.made) tt
  entry-Enters Action.proceed h = cc
  entry-Enters (Action.receives j) h = cc
  entry-Enters (Action.reports j) h = cc
  entry-Enters (Action.quits j) h = cc
  entry-Enters (Action.responds j res) h = cc

-- Post, Flush, Close and Init on an initialised, idle client do not panic when they are entered. Whatever the
-- workers and the call do from there on, and whatever the server answers, nothing panics, and at every point the
-- call can still be brought to its return: there is a way on for which every response will do, as long as
-- errors that are reported are received, and no other call is made.
pub call-returns :
    (parse : Bytes → NewRequest) (s : System) (a : Action) (acts : List Action)
    → IsReady s
    → s.call ≡ Call.idle
    → is_entry a ≡ true
    → AllInner acts
    → (t : System) × (advance parse a s ≡ Result.running t)
      × StillCompletes parse (run_from parse acts (Result.running t))
call-returns parse s a acts r c h n =
    let e = entry-Enters parse s r c a h in
    (e.after, e.steps, run_from-Completes parse acts e.after e.outcome n)

module _ (cfg : Config) (errorchan : Bool) (s : System) (v : validate_configuration cfg ≡ none)
    (q : s.client.reqchan ≡ none) where
  init_steps :
      (parse : Bytes → NewRequest) (c' : Client)
      → s.call ≡ Call.idle
      → init_workers
          (record s.client { cfg = cfg; errorchan = errorchan; quitchan = Channel.opened })
        ≡ some c'
      → advance parse (Action.call_init (some cfg) errorchan) s
        ≡ Result.running (record s { client = c'; call = Call.idle })
  unfolding advance enter is_idle enter_init return_with configure configure_valid configured
  init_steps parse c' c m =
      ap (λ x. enter (is_idle x) (enter_init s.client.reqchan (some cfg) errorchan s)) c
      ∙ ap (λ o. enter_init o (some cfg) errorchan s) q
      ∙ ap
          (λ o.
            return_with s
              (configured (configure_valid o errorchan (record s.client { cfg = cfg }))))
          v
      ∙ ap (λ (o : Option Client). return_with s (configured (o >>= λ x. some (x, none)))) m

-- Init of an idle client without queues, with a valid configuration, returns and leaves an initialised,
-- idle client with that configuration.
pub init-IsReady :
    (parse : Bytes → NewRequest) (s : System) (cfg : Config) (errorchan : Bool)
    → Good s
    → s.call ≡ Call.idle
    → s.client.reqchan ≡ none
    → validate_configuration cfg ≡ none
    → (t : System) × (advance parse (Action.call_init (some cfg) errorchan) s ≡ Result.running t)
      × (t.call ≡ Call.idle)
      × (t.client.cfg ≡ cfg)
      × IsReady t
init-IsReady parse s cfg errorchan g c q v =
    let (x, y) = validate-natural cfg v in
    let (k, e) = natural_int cfg.concurrency x in
    let (n, f) = natural_int cfg.chan_buffer y in
    let c0 : Client = record s.client {
      cfg = cfg;
      errorchan = errorchan;
      quitchan = Channel.opened;
    } in
    let (c', m) = init_workers-some c0 k n e f in
    let (l, d, u) = init_workers-repeat c0 m in
    let steps = init_steps cfg errorchan s v q parse c' c m in
    (
      record s { client = c'; call = Call.idle },
      steps,
      refl,
      rw u refl,
      record {
        good = advance-Good parse (Action.call_init (some cfg) errorchan) s g steps;
        made = rw u refl;
        some_queue = rw u (rw (length-repeat_worker l (rounds cfg.chan_buffer)) (ground arith));
        buffered = rw u (ground arith);
        quit_open = rw u refl;
        in_range = tt;
      },
    )
