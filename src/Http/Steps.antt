-- ===== src/Http/Steps.antt =====
-- http/http.go: every step of the system keeps the invariant.
use logd_go.Base.{
  subst, ◌≡◌, inl, inr, refl, Bool, true, Option, none, some, List, rounds, Bytes, Bool-cases,
}
use logd_go.Http.Config.{Config}
use logd_go.Http.Worker.{Worker, respond, report}
use logd_go.Http.Client.{workers_of, configure, PostResult, NewRequest, post}
use logd_go.Http.System.{
  After, Call, System, Result, Action, configured, enter_post, enter_init, is_idle, enter, advance,
}
use logd_go.Http.Invariant.{AllTidy, Good, Keeps, closed_count, stopped_count}
use logd_go.Http.Finish.{return_with-Keeps, absent-Delivered, configure-Leaves}
use logd_go.Http.Serve.{step_worker-Keeps, respond-Quiet, report-Quiet, receive_step-Keeps}
use logd_go.Http.Proceed.{quit_step-Keeps, proceed_in-Keeps}

-- The client of an idle system that has no part in the invariant's counts.
moved-Good :
    (s : System) (c : Call)
    → Good s
    → s.call ≡ Call.idle
    → closed_count c ≡ 0
    → stopped_count c ≡ 0
    → Good (record s { call = c })
moved-Good s c g e p q =
    let n = rounds s.client.cfg.chan_buffer in
    let ws = workers_of s.client.reqchan in
    record {
      conserved = g.conserved;
      tidy = rw p (rw q (subst (λ x. AllTidy (closed_count x) (stopped_count x) n ws) e g.tidy));
      counted = g.counted;
    }

is_idle-eq : (c : Call) → is_idle c ≡ true → c ≡ Call.idle
unfolding is_idle
is_idle-eq Call.idle h = refl
is_idle-eq _ h = cc

enter-Keeps :
    (s : System) (r : Result) → (s.call ≡ Call.idle → Keeps r) → Keeps (enter (is_idle s.call) r)
unfolding enter
enter-Keeps s r h = elim (Bool-cases (is_idle s.call)) [
  | inl e ↦ rw e (h (is_idle-eq s.call e))
  | inr e ↦ rw e tt
]

enter_post-Keeps :
    (s : System) (r : PostResult) → Good s → s.call ≡ Call.idle → Keeps (enter_post s r)
unfolding enter_post
enter_post-Keeps s (PostResult.refused x) g e = g
enter_post-Keeps s PostResult.panicked g e = tt
enter_post-Keeps s (PostResult.sends r i) g e = moved-Good s (Call.sending r i) g e refl refl

enter_init-Keeps :
    (s : System) (o : Option (List Worker)) (cfg : Option Config) (errorchan : Bool)
    → Good s
    → s.call ≡ Call.idle
    → s.client.reqchan ≡ o
    → Keeps (enter_init o cfg errorchan s)
unfolding enter_init
enter_init-Keeps s none cfg errorchan g e q =
    return_with-Keeps s (configured (configure cfg errorchan s.client))
      (configure-Leaves s (absent-Delivered s g q) s.client cfg errorchan q)
enter_init-Keeps s (some ws) cfg errorchan g e q =
    moved-Good s (Call.stopping (After.init cfg errorchan) 0) g e refl refl

advance-Keeps :
    (parse : Bytes → NewRequest) (a : Action) (s : System) → Good s → Keeps (advance parse a s)
unfolding advance
advance-Keeps parse (Action.call_post url payload content_type affinity) s g =
    enter-Keeps s _ (enter_post-Keeps s (post parse s.client url payload content_type affinity) g)
advance-Keeps parse Action.call_flush s g =
    enter-Keeps s _ (λ e. moved-Good s (Call.stopping After.flush 0) g e refl refl)
advance-Keeps parse Action.call_close s g =
    enter-Keeps s _ (λ e. moved-Good s (Call.stopping After.close 0) g e refl refl)
advance-Keeps parse (Action.call_init cfg errorchan) s g =
    enter-Keeps s _ (λ e. enter_init-Keeps s s.client.reqchan cfg errorchan g e refl)
advance-Keeps parse Action.proceed s g = proceed_in-Keeps s g s.call refl
advance-Keeps parse (Action.receives j) s g = receive_step-Keeps s j g
advance-Keeps parse (Action.responds j res) s g =
    step_worker-Keeps s j (respond s.client.errorchan res) (respond-Quiet s.client.errorchan res) g
advance-Keeps parse (Action.reports j) s g = step_worker-Keeps s j report report-Quiet g
advance-Keeps parse (Action.quits j) s g = quit_step-Keeps s j g

-- The invariant holds after every step that is made in a system in which it holds: no thread loses,
-- doubles or reorders a request, a queue stays within its buffer, and `stopWorkers` has closed the queues
-- below its index and seen their workers end.
pub advance-Good :
    (parse : Bytes → NewRequest) (a : Action) (s : System) {s' : System}
    → Good s
    → advance parse a s ≡ Result.running s'
    → Good s'
advance-Good parse a s g e = subst Keeps e (advance-Keeps parse a s g)
