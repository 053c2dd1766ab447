-- ===== src/Http/Finish.antt =====
-- http/http.go: the clients that Flush, Close and Init leave once every worker has stopped.
use logd_go.Base.{
  ℕ, subst, zero, suc, ◌≡◌, inl, inr, ◌∙◌, refl, Bool, true, Option, none, some, List, [],
  append-nil, length, ltb, ℤ, rounds, Bytes, get_elem?, arith, Option-cases,
}
use logd_go.Http.Config.{Config, validate_configuration}
use logd_go.Http.Worker.{Request, Worker, Phase}
use logd_go.Http.Client.{
  Channel, Client, repeat_worker, make_workers, init_workers, configure, configure_valid,
  choose_config,
}
use logd_go.Http.System.{
  After, Call, System, return_with, end_close, configured, init_closed, finish,
}
use logd_go.Http.Invariant.{sent_to, queue_of, is_stopped, is_ended, TidyAt, Good, Keeps}

-- Every request that was accepted has been attempted, in the order of each queue.
abbrev pub Delivered : List (ℕ × Request) → List (ℕ × Request) → Type 0
Delivered acc att = (i : ℕ) → sent_to i acc ≡ sent_to i att

repeat_worker-queue : (k n i : ℕ) → queue_of (get_elem? (repeat_worker k n) i) ≡ []
repeat_worker-queue zero n i = refl
repeat_worker-queue (suc k) n zero = refl
repeat_worker-queue (suc k) n (suc i) = repeat_worker-queue k n i

repeat_worker-TidyAt : (k n i j : ℕ) → TidyAt 0 0 n j (get_elem? (repeat_worker k n) i)
repeat_worker-TidyAt zero n i j = tt
repeat_worker-TidyAt (suc k) n zero j = ground arith
repeat_worker-TidyAt (suc k) n (suc i) j = repeat_worker-TidyAt k n i j

pub length-repeat_worker : (k n : ℕ) → length (repeat_worker k n) ≡ k
length-repeat_worker zero n = refl
length-repeat_worker (suc k) n = omega (arith, length-repeat_worker k n)

make_workers-repeat :
    (k : ℕ) (n : ℤ) {ws : List Worker}
    → make_workers k n ≡ some ws
    → ws ≡ repeat_worker k (rounds n)
unfolding make_workers
make_workers-repeat zero n e = ground arith
make_workers-repeat (suc k) (ℤ.pos n) e = ground arith
make_workers-repeat (suc k) (ℤ.negsuc n) e = cc

init_workers_from :
    (c : Client) (z : ℤ) {c' : Client}
    → c.cfg.concurrency ≡ z
    → init_workers c ≡ some c'
    → (k : ℕ) × (c.cfg.concurrency ≡ ℤ.pos k)
      × (c' ≡ record c { reqchan = some (repeat_worker k (rounds c.cfg.chan_buffer)) })
unfolding init_workers
init_workers_from c (ℤ.negsuc k) e m = ground arith
init_workers_from c (ℤ.pos k) e m =
    let o : Option (List Worker) = make_workers (rounds c.cfg.concurrency) c.cfg.chan_buffer in
    elim (Option-cases o) [
      | inl f ↦ ground arith
      | inr f ↦ (
        k,
        e,
        ground (arith, make_workers-repeat (rounds c.cfg.concurrency) c.cfg.chan_buffer f.1),
      )
    ]

pub init_workers-repeat :
    (c : Client) {c' : Client}
    → init_workers c ≡ some c'
    → (k : ℕ) × (c.cfg.concurrency ≡ ℤ.pos k)
      × (c' ≡ record c { reqchan = some (repeat_worker k (rounds c.cfg.chan_buffer)) })
init_workers-repeat c m = init_workers_from c c.cfg.concurrency refl m

-- The client that a method leaves, in an idle system, satisfies the invariant.
abbrev pub Leaves : System → Option Client → Type 0
Leaves s none = Unit
Leaves s (some c) = Good (record s { client = c; call = Call.idle })

pub return_with-Keeps : (s : System) (o : Option Client) → Leaves s o → Keeps (return_with s o)
unfolding return_with
return_with-Keeps s none h = tt
return_with-Keeps s (some c) h = h

module _ (s : System) (d : Delivered s.accepted s.attempted) where
  none-Leaves : (c : Client) → c.reqchan ≡ none → Leaves s (some c)
  none-Leaves c e = record {
    conserved = λ i. rw e (rw (append-nil) (d i));
    tidy = λ i. rw e tt;
    counted = λ ws f. cc;
  }

  repeat-Leaves :
      (c : Client) (k : ℕ)
      → c.cfg.concurrency ≡ ℤ.pos k
      → Leaves s (some (record c { reqchan = some (repeat_worker k (rounds c.cfg.chan_buffer)) }))
  repeat-Leaves c k e = record {
    conserved =
        λ i. rw (repeat_worker-queue k (rounds c.cfg.chan_buffer) i) (rw (append-nil) (d i));
    tidy = λ i. repeat_worker-TidyAt k (rounds c.cfg.chan_buffer) i i;
    counted = λ ws f. ground (arith, length-repeat_worker k (rounds c.cfg.chan_buffer));
  }

  init_workers-Leaves : (c : Client) → Leaves s (init_workers c)
  init_workers-Leaves c = elim (Option-cases (init_workers c)) [
    | inl m ↦ rw m tt
    | inr m ↦ let (k, e, f) = init_workers-repeat c m.1 in rw m.1 (rw f (repeat-Leaves c k e))
  ]

  configure_valid-Leaves :
      (o : Option Bytes) (errorchan : Bool) (c : Client)
      → c.reqchan ≡ none
      → Leaves s (configured (configure_valid o errorchan c))
  unfolding configure_valid configured
  configure_valid-Leaves (some e) errorchan c n = none-Leaves c n
  configure_valid-Leaves none errorchan c n =
      let c' : Client = record c { errorchan = errorchan; quitchan = Channel.opened } in
      elim (Option-cases (init_workers c')) [
        | inl m ↦ rw m tt
        | inr m ↦ rw m.1 (subst (Leaves s) m.1 (init_workers-Leaves c'))
      ]

  pub configure-Leaves :
      (c : Client) (cfg : Option Config) (errorchan : Bool)
      → c.reqchan ≡ none
      → Leaves s (configured (configure cfg errorchan c))
  unfolding configure
  configure-Leaves c cfg errorchan e =
      configure_valid-Leaves (validate_configuration (choose_config cfg)) errorchan
        (record c { cfg = choose_config cfg }) e

  end_close-Leaves : (q : Channel) (c : Client) → Leaves s (end_close q c)
  unfolding end_close
  end_close-Leaves Channel.opened c =
      none-Leaves (record c { reqchan = none; quitchan = Channel.closed }) refl
  end_close-Leaves _ c = tt

  init_closed-Leaves :
      (q : Channel) (c : Client) (cfg : Option Config) (errorchan : Bool)
      → Leaves s (init_closed cfg errorchan (end_close q c))
  unfolding init_closed end_close
  init_closed-Leaves Channel.opened c cfg errorchan =
      configure-Leaves (record c { reqchan = none; quitchan = Channel.closed }) cfg errorchan refl
  init_closed-Leaves _ c cfg errorchan = tt

  pub finish-Leaves : (k : After) → Leaves s (finish k s.client)
  unfolding finish
  finish-Leaves After.flush = init_workers-Leaves s.client
  finish-Leaves After.close = end_close-Leaves s.client.quitchan s.client
  finish-Leaves (After.init cfg errorchan) =
      init_closed-Leaves s.client.quitchan s.client cfg errorchan

-- The histories of an idle client without workers, and of one whose workers have all stopped.
pub absent-Delivered :
    (s : System) → Good s → s.client.reqchan ≡ none → Delivered s.accepted s.attempted
absent-Delivered s g e i = g.conserved i ∙ rw e (rw (append-nil) refl)

pub stopped-queue :
    (d n i j : ℕ) (o : Option Worker) → TidyAt d d n j o → ltb j d ≡ true → queue_of o ≡ []
stopped-queue d n i j none t h = refl
stopped-queue d n i j (some w) t h = t.drained (stopped-ended w.phase (t.stopped_below ∙ h))
  where
    stopped-ended : (p : Phase) → is_stopped p ≡ true → is_ended p ≡ true
    stopped-ended Phase.stopped h = refl
    stopped-ended _ h = cc
