-- ===== src/Http/Ready.antt =====
-- http/http.go: the client as Init leaves it with a valid configuration, and what its steps come to.
use logd_go.Base.{
  ℕ, zero, suc, ◌<◌, ◌≡◌, ◌∙◌, ap, inl, inr, refl, Bool, true, false, Option, none, some, List, [],
  ◌∷◌, ◌++◌, length, ltb_int, ℤ, rounds, get_elem?, update, arith, Option-cases, if◌then◌else◌,
  Bytes,
}
use logd_go.Http.Config.{Config, validate_configuration}
use logd_go.Http.Worker.{Request, Worker, has_room}
use logd_go.Http.Client.{
  Channel, Client, workers_of, NewRequest, init_workers, make_workers, configure, configure_valid,
  choose_config,
}
use logd_go.Http.System.{
  After, Call, System, Result, Action, send_on, close_queue, return_with, finish, end_close,
  init_closed, configured, proceed_in, advance, put_workers,
}
use logd_go.Http.Invariant.{Good}

-- The queue of a send or a receive from quitchan is there.
abbrev pub InRange : ℕ → Call → Type 0
InRange n Call.idle = Unit
InRange n (Call.sending r i) = i < n
InRange n (Call.stopping k i) = Unit
InRange n (Call.waiting k i) = i < n

-- A client as Init leaves it with a valid configuration, idle or in a call.
pub record IsReady (s : System) : Type 0 where
  pub good : Good s
  pub made : s.client.reqchan ≡ some (workers_of s.client.reqchan)
  pub some_queue : 0 < length (workers_of s.client.reqchan)
  pub buffered : ltb_int (ℤ.pos 0) s.client.cfg.chan_buffer ≡ true
  pub quit_open : s.client.quitchan ≡ Channel.opened
  pub in_range : InRange (length (workers_of s.client.reqchan)) s.call

pub positive_int : (z : ℤ) → ltb_int (ℤ.pos 0) z ≡ true → (n : ℕ) × (z ≡ ℤ.pos (suc n))
positive_int (ℤ.pos zero) h = cc
positive_int (ℤ.pos (suc n)) h = (n, refl)
positive_int (ℤ.negsuc n) h = cc

pub positive_rounds : (z : ℤ) → ltb_int (ℤ.pos 0) z ≡ true → 0 < rounds z
positive_rounds z h = let (n, e) = positive_int z h in rw e (omega arith)

make_workers-some : (k n : ℕ) → (ws : List Worker) × (make_workers k (ℤ.pos n) ≡ some ws)
unfolding make_workers
make_workers-some zero n = ([], refl)
make_workers-some (suc k) n = (_, refl)

pub init_workers-some :
    (c : Client) (k n : ℕ)
    → c.cfg.concurrency ≡ ℤ.pos k
    → c.cfg.chan_buffer ≡ ℤ.pos n
    → (c' : Client) × (init_workers c ≡ some c')
unfolding init_workers
init_workers-some c k n e f =
    let (ws, m) = make_workers-some k n in (record c { reqchan = some ws }, ground (arith, m))

pub natural_int : (z : ℤ) → ltb_int z (ℤ.pos 1) ≡ false → (n : ℕ) × (z ≡ ℤ.pos n)
natural_int (ℤ.pos n) h = (n, refl)
natural_int (ℤ.negsuc n) h = cc

pub validate-natural :
    (cfg : Config)
    → validate_configuration cfg ≡ none
    → (ltb_int cfg.concurrency (ℤ.pos 1) ≡ false) × (ltb_int cfg.chan_buffer (ℤ.pos 1) ≡ false)
unfolding validate_configuration
validate-natural cfg h = ground arith

pub configured-some :
    (cfg : Option Config) (errorchan : Bool) (c : Client)
    → (c' : Client) × (configured (configure cfg errorchan c) ≡ some c')
unfolding configured configure configure_valid
configured-some cfg errorchan c =
    let g : Config = choose_config cfg in
    elim (Option-cases (validate_configuration g)) [
      | inl h ↦
          let (p, q) = validate-natural g h in
          let (k, e) = natural_int g.concurrency p in
          let (n, f) = natural_int g.chan_buffer q in
          let (c', m) =
            init_workers-some
              (record c { cfg = g; errorchan = errorchan; quitchan = Channel.opened }) k n e f in
          (c', rw h (rw m refl))
      | inr h ↦ (record c { cfg = g }, rw h.1 refl)
    ]

pub finish-some :
    (k : After) (c : Client) (m n : ℕ)
    → c.cfg.concurrency ≡ ℤ.pos m
    → c.cfg.chan_buffer ≡ ℤ.pos n
    → c.quitchan ≡ Channel.opened
    → (c' : Client) × (finish k c ≡ some c')
unfolding finish end_close init_closed
finish-some After.flush c m n e f q = init_workers-some c m n e f
finish-some After.close c m n e f q = (_, ap (λ x. end_close x c) q)
finish-some (After.init cfg errorchan) c m n e f q =
    let (c', g) =
      configured-some cfg errorchan (record c { reqchan = none; quitchan = Channel.closed }) in
    (c', ap (λ x. init_closed cfg errorchan (end_close x c)) q ∙ g)

send_on_room :
    (s : System) (ws : List Worker) (x : Request) (i : ℕ) (w : Worker)
    → w.closed ≡ false
    → has_room w ≡ true
    → send_on s ws x i (some w)
      ≡ Result.running
          (record (put_workers s (update ws i (record w { queue = w.queue ++ x ∷ [] }))) {
            call = Call.idle;
            accepted = s.accepted ++ (i, x) ∷ [];
          })
unfolding send_on
send_on_room s ws x i w o h = ground arith

pub sending_room :
    (parse : Bytes → NewRequest) (s : System) (x : Request) (i : ℕ) (w : Worker)
    → s.call ≡ Call.sending x i
    → get_elem? (workers_of s.client.reqchan) i ≡ some w
    → w.closed ≡ false
    → has_room w ≡ true
    → advance parse Action.proceed s
      ≡ Result.running
          (record (put_workers s
            (update (workers_of s.client.reqchan) i (record w { queue = w.queue ++ x ∷ [] }))) {
              call = Call.idle;
              accepted = s.accepted ++ (i, x) ∷ [];
            })
unfolding advance proceed_in
sending_room parse s x i w c e o h =
    let ws = workers_of s.client.reqchan in
    ap (λ y. proceed_in y s) c ∙ ap (send_on s ws x i) e ∙ send_on_room s ws x i w o h

module _ (parse : Bytes → NewRequest) (s : System) (k : After) (i : ℕ) where
  pub stopping_more :
      (w : Worker)
      → s.call ≡ Call.stopping k i
      → ltb_int (ℤ.pos i) s.client.cfg.concurrency ≡ true
      → get_elem? (workers_of s.client.reqchan) i ≡ some w
      → w.closed ≡ false
      → advance parse Action.proceed s
        ≡ Result.running
            (record (put_workers s
              (update (workers_of s.client.reqchan) i (record w { closed = true }))) {
                call = Call.waiting k i;
              })
  unfolding advance proceed_in close_queue
  stopping_more w c h e o =
      ap (λ y. proceed_in y s) c
      ∙ ap
          (λ b.
            if b
            then close_queue s (workers_of s.client.reqchan) k i
                (get_elem? (workers_of s.client.reqchan) i)
            else return_with s (finish k s.client))
          h
      ∙ ap (close_queue s (workers_of s.client.reqchan) k i) e
      ∙ ap
          (λ b.
            if b
            then Result.panicked
            else Result.running
                (record (put_workers s
                  (update (workers_of s.client.reqchan) i (record w { closed = true }))) {
                    call = Call.waiting k i;
                  }))
          o

  pub stopping_done :
      (c' : Client)
      → s.call ≡ Call.stopping k i
      → ltb_int (ℤ.pos i) s.client.cfg.concurrency ≡ false
      → finish k s.client ≡ some c'
      → advance parse Action.proceed s ≡ Result.running (record s { client = c'; call = Call.idle })
  unfolding advance proceed_in return_with
  stopping_done c' c h f =
      ap (λ y. proceed_in y s) c
      ∙ ap
          (λ b.
            if b
            then close_queue s (workers_of s.client.reqchan) k i
                (get_elem? (workers_of s.client.reqchan) i)
            else return_with s (finish k s.client))
          h
      ∙ ap (return_with s) f
