-- ===== src/Http/Work.antt =====
-- http/http.go: the work that is left to the workers and to a running call, and how every step of theirs
-- takes some of it.
use logd_go.Base.{
  ℕ, subst, zero, suc, ◌+◌, ◌-◌, ◌*◌, ◌<◌, ◌≡◌, inl, inr, refl, Bool, true, false, Option, none,
  some, List, [], ◌∷◌, length, rounds, get_elem?, update, arith, Option-cases, if◌then◌else◌, Bytes,
}
use logd_go.Http.Config.{Config, validate_configuration}
use logd_go.Http.Worker.{
  Response, Worker, Phase, receive, receive_in, receive_from, respond, respond_in, settle, report,
  report_in, quit, quit_in,
}
use logd_go.Http.Client.{
  Channel, Client, workers_of, repeat_worker, init_workers, configure, configure_valid,
  choose_config,
}
use logd_go.Http.System.{
  After, Call, System, Result, return_with, end_close, configured, init_closed, finish,
}
use logd_go.Http.Finish.{init_workers-repeat}

-- What is left of the request in hand, and of the end of a goroutine whose queue is closed.
abbrev pub phase_work : Bool → Phase → ℕ
phase_work true Phase.receiving = 2
phase_work false Phase.receiving = 0
phase_work true (Phase.posting r) = 4
phase_work false (Phase.posting r) = 2
phase_work true (Phase.reporting r e) = 3
phase_work false (Phase.reporting r e) = 1
phase_work b Phase.quitting = 1
phase_work b Phase.stopped = 0

abbrev pub worker_work : Worker → ℕ
worker_work w = 3 * length w.queue + phase_work w.closed w.phase

abbrev pub workers_work : List Worker → ℕ
workers_work [] = 0
workers_work (w ∷ ws) = worker_work w + workers_work ws

-- Of a call on a client with `n` queues: the send of Post, or the rounds of stopWorkers.
abbrev pub call_work : ℕ → Call → ℕ
call_work n Call.idle = 0
call_work n (Call.sending r i) = 4
call_work n (Call.stopping k i) = 4 * (n - i) + 1
call_work n (Call.waiting k i) = 4 * (n - i) - 2

unfoldable pub work : System → ℕ
work s = let ws = workers_of s.client.reqchan in workers_work ws + call_work (length ws) s.call

pub workers_work-update :
    (ws : List Worker) (j : ℕ) (w w' : Worker)
    → get_elem? ws j ≡ some w
    → workers_work (update ws j w') + worker_work w ≡ workers_work ws + worker_work w'
workers_work-update [] j w w' e = cc
workers_work-update (v ∷ ws) zero w w' e = ground arith
workers_work-update (v ∷ ws) (suc j) w w' e = omega (arith, workers_work-update ws j w w' e)

pub respond_work :
    (errorchan : Bool) (res : Response) (w w' : Worker)
    → respond errorchan res w ≡ some w'
    → worker_work w' < worker_work w
unfolding respond respond_in settle
respond_work errorchan res w w' e = ground arith

pub report_work : (w w' : Worker) → report w ≡ some w' → worker_work w' < worker_work w
unfolding report report_in
report_work w w' e = ground arith

pub receive_work : (w w' : Worker) → receive w ≡ some w' → worker_work w' < worker_work w
unfolding receive receive_in receive_from
receive_work w w' e = ground arith

pub quit_work : (w w' : Worker) → quit w ≡ some w' → worker_work w ≡ worker_work w' + 1
unfolding quit quit_in
quit_work w w' e = ground arith

repeat_work : (k n : ℕ) → workers_work (repeat_worker k n) ≡ 0
repeat_work zero n = refl
repeat_work (suc k) n = omega (arith, repeat_work k n)

-- New workers have nothing to do.
abbrev pub Fresh : Option Client → Type 0
Fresh none = Unit
Fresh (some c) = workers_work (workers_of c.reqchan) ≡ 0

init_workers-Fresh : (c : Client) → Fresh (init_workers c)
init_workers-Fresh c = elim (Option-cases (init_workers c)) [
  | inl m ↦ rw m tt
  | inr m ↦
      let (k, e, f) = init_workers-repeat c m.1 in
      rw m.1 (rw f (repeat_work k (rounds c.cfg.chan_buffer)))
]

configure_valid-Fresh :
    (o : Option Bytes) (errorchan : Bool) (c : Client)
    → c.reqchan ≡ none
    → Fresh (configured (configure_valid o errorchan c))
unfolding configure_valid configured
configure_valid-Fresh (some e) errorchan c n = rw n refl
configure_valid-Fresh none errorchan c n =
    let c' : Client = record c { errorchan = errorchan; quitchan = Channel.opened } in
    elim (Option-cases (init_workers c')) [
      | inl m ↦ rw m tt
      | inr m ↦ rw m.1 (subst Fresh m.1 (init_workers-Fresh c'))
    ]

end_close-Fresh : (q : Channel) (c : Client) → Fresh (end_close q c)
unfolding end_close
end_close-Fresh Channel.opened c = refl
end_close-Fresh _ c = tt

init_closed-Fresh :
    (q : Channel) (c : Client) (cfg : Option Config) (errorchan : Bool)
    → Fresh (init_closed cfg errorchan (end_close q c))
unfolding init_closed end_close configure
init_closed-Fresh Channel.opened c cfg errorchan =
    configure_valid-Fresh (validate_configuration (choose_config cfg)) errorchan
      (record c { reqchan = none; quitchan = Channel.closed; cfg = choose_config cfg }) refl
init_closed-Fresh _ c cfg errorchan = tt

pub finish-Fresh : (k : After) (c : Client) → Fresh (finish k c)
unfolding finish
finish-Fresh After.flush c = init_workers-Fresh c
finish-Fresh After.close c = end_close-Fresh c.quitchan c
finish-Fresh (After.init cfg errorchan) c = init_closed-Fresh c.quitchan c cfg errorchan

-- The result of a step leaves less work than `n`.
abbrev pub Less : ℕ → Result → Type 0
Less n (Result.running s) = work s < n
Less n Result.panicked = Unit
Less n Result.disabled = Unit

pub Less-if :
    (n : ℕ) (b : Bool) (x y : Result)
    → (b ≡ true → Less n x)
    → (b ≡ false → Less n y)
    → Less n (if b then x else y)
Less-if n true x y p q = p refl
Less-if n false x y p q = q refl

pub return_with-Less :
    (s : System) (n : ℕ) (o : Option Client) → Fresh o → 0 < n → Less n (return_with s o)
unfolding return_with work
return_with-Less s n none f h = tt
return_with-Less s n (some c) f h = ground arith
