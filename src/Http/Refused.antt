-- ===== src/Http/Refused.antt =====
-- http/http.go: Close and Flush on a client without queues.
use logd_go.Base.{
  true, false, ◌≡◌, ◌∙◌, ap, refl, Bool, none, some, Bytes, codes, ℤ, arith, ltb_int,
}
use logd_go.Http.Config.{Config, validate_configuration}
use logd_go.Http.Client.{Client, NewRequest, configure, configure_valid}
use logd_go.Http.System.{
  After, System, Result, Action, Call, advance, proceed_in, close_queue, enter_init, return_with,
  configured, is_idle, enter,
}

-- A configuration that Init refuses for its buffer alone.
pub record IsBufferless (cfg : Config) : Type 0 where
  pub concurrent : ltb_int cfg.concurrency (ℤ.pos 1) ≡ false
  pub bufferless : ltb_int cfg.chan_buffer (ℤ.pos 1) ≡ true

positive_int : (z : ℤ) → ltb_int z (ℤ.pos 1) ≡ false → ltb_int (ℤ.pos 0) z ≡ true
positive_int (ℤ.pos n) h = ground arith
positive_int (ℤ.negsuc n) h = cc

validate-IsBufferless :
    (cfg : Config) → IsBufferless cfg → (e : Bytes) × (validate_configuration cfg ≡ some e)
unfolding validate_configuration
validate-IsBufferless cfg h =
    (codes "config error: min http channel buffer is 1", rw h.concurrent (rw h.bufferless refl))

configure-IsBufferless :
    (cfg : Config) (errorchan : Bool) (c : Client)
    → IsBufferless cfg
    → configured (configure (some cfg) errorchan c) ≡ some (record c { cfg = cfg })
unfolding configured configure configure_valid
configure-IsBufferless cfg errorchan c h = rw (validate-IsBufferless cfg h).1 refl

close-panics :
    (s : System) (k : After)
    → s.client.reqchan ≡ none
    → ltb_int (ℤ.pos 0) s.client.cfg.concurrency ≡ true
    → proceed_in (Call.stopping k 0) s ≡ Result.panicked
unfolding proceed_in close_queue
close-panics s k q h = rw h (rw q refl)

-- Init with a configuration whose concurrency is positive and whose buffer is not, on an idle client
-- without queues, returns and leaves the client idle without queues; the next step of a Close or a Flush
-- of that client is a panic.
pub init-close_panics :
    (parse : Bytes → NewRequest) (s : System) (cfg : Config) (errorchan : Bool) (k : After)
    → s.call ≡ Call.idle
    → s.client.reqchan ≡ none
    → IsBufferless cfg
    → (s' : System) × (advance parse (Action.call_init (some cfg) errorchan) s ≡ Result.running s')
      × (s'.call ≡ Call.idle)
      × (s'.client.reqchan ≡ none)
      × (advance parse Action.proceed (record s' { call = Call.stopping k 0 }) ≡ Result.panicked)
unfolding advance enter is_idle enter_init return_with
init-close_panics parse s cfg errorchan k c q h =
    let s' : System = record s { client = record s.client { cfg = cfg }; call = Call.idle } in
    (
      s',
      ap (λ x. enter (is_idle x) (enter_init s.client.reqchan (some cfg) errorchan s)) c
          ∙ ap (λ o. enter_init o (some cfg) errorchan s) q
          ∙ ap (return_with s) (configure-IsBufferless cfg errorchan s.client h),
      refl,
      q,
      close-panics (record s' { call = Call.stopping k 0 }) k q
          (positive_int cfg.concurrency h.concurrent),
    )
