-- ===== src/Http/System.antt =====
-- http/http.go: a client, the goroutines of its workers, and one caller, as steps of a machine. The mutex
-- lets one Post or Flush in at a time, and Close and Init, which do not take it, are called alone here.
-- A step is disabled where its thread waits on a channel.
use logd_go.Base.{
  ℕ, ◌+◌, Bool, true, false, Option, none, some, List, [], ◌∷◌, ◌++◌, Bytes, if◌then◌else◌, ℤ,
  ltb_int, get_elem?, update,
}
use logd_go.Http.Config.{Config}
use logd_go.Http.Worker.{Request, Response, Worker, Phase, has_room, receive, respond, report, quit}
use logd_go.Http.Client.{
  Channel, Client, zero_client, workers_of, init_workers, configure, PostResult, NewRequest, post,
}

-- What the caller does once every worker has stopped.
pub data After : Type 0 where
  flush close : After
  init : Option Config → Bool → After

-- Where the caller is: outside the client, at the send of Post on a queue, at `close` in round `i` of
-- stopWorkers, or at the receive from quitchan in that round.
pub data Call : Type 0 where
  idle : Call
  sending : Request → ℕ → Call
  stopping waiting : After → ℕ → Call

-- `accepted` and `attempted` are not in the code. They list the requests that were put on a queue, and
-- those that a worker handed to `client.Do`, each with the index of the queue, oldest first.
pub record System : Type 0 where
  pub client : Client
  pub call : Call
  pub accepted : List (ℕ × Request)
  pub attempted : List (ℕ × Request)

pub data Result : Type 0 where
  running : System → Result
  panicked disabled : Result

abbrev pub start : System
start = record { client = zero_client; call = Call.idle; accepted = []; attempted = [] }

abbrev pub put_workers : System → List Worker → System
put_workers s ws = record s { client = record s.client { reqchan = some ws } }

-- The send on a queue: a panic if it is closed or missing, a wait if it is full.
unfoldable pub send_on : System → List Worker → Request → ℕ → Option Worker → Result
send_on s ws r i none = Result.panicked
send_on s ws r i (some w) =
    if w.closed
    then Result.panicked
    else if has_room w
    then Result.running
        (record (put_workers s (update ws i (record w { queue = w.queue ++ r ∷ [] }))) {
          call = Call.idle;
          accepted = s.accepted ++ (i, r) ∷ [];
        })
    else Result.disabled

-- `close(a.reqchan[i])`
unfoldable pub close_queue : System → List Worker → After → ℕ → Option Worker → Result
close_queue s ws k i none = Result.panicked
close_queue s ws k i (some w) =
    if w.closed
    then Result.panicked
    else Result.running (record (put_workers s (update ws i (record w { closed = true }))) {
      call = Call.waiting k i;
    })

unfoldable pub return_with : System → Option Client → Result
return_with s none = Result.panicked
return_with s (some c) = Result.running (record s { client = c; call = Call.idle })

-- The end of Close, with the panic of `close` on a nil or closed channel.
unfoldable pub end_close : Channel → Client → Option Client
end_close Channel.opened c = some (record c { reqchan = none; quitchan = Channel.closed })
end_close _ c = none

unfoldable pub configured : Option (Client × Option Bytes) → Option Client
configured none = none
configured (some r) = some r.0

unfoldable pub init_closed : Option Config → Bool → Option Client → Option Client
unfolding configure configured
init_closed cfg errorchan none = none
init_closed cfg errorchan (some c) = configured (configure cfg errorchan c)

-- What Flush, Close and Init do behind stopWorkers.
unfoldable pub finish : After → Client → Option Client
unfolding init_workers end_close init_closed
finish After.flush c = init_workers c
finish After.close c = end_close c.quitchan c
finish (After.init cfg errorchan) c = init_closed cfg errorchan (end_close c.quitchan c)

-- The caller's next step. At the receive from quitchan it waits for a worker to quit.
unfoldable pub proceed_in : Call → System → Result
unfolding send_on close_queue finish return_with
proceed_in Call.idle s = Result.disabled
proceed_in (Call.sending r i) s =
    let ws = workers_of s.client.reqchan in send_on s ws r i (get_elem? ws i)
proceed_in (Call.stopping k i) s =
    let ws = workers_of s.client.reqchan in
    if ltb_int (ℤ.pos i) s.client.cfg.concurrency
    then close_queue s ws k i (get_elem? ws i)
    else return_with s (finish k s.client)
proceed_in (Call.waiting k i) s = Result.disabled

-- Worker `j` after a step of its own.
unfoldable pub step_worker : System → ℕ → Option Worker → Result
step_worker s j none = Result.disabled
step_worker s j (some w) = Result.running (put_workers s (update (workers_of s.client.reqchan) j w))

-- A method of the worker at an index, if there is one.
unfoldable pub at_worker : (Worker → Option Worker) → Option Worker → Option Worker
at_worker f none = none
at_worker f (some w) = f w

-- `client.Do` is the first thing that a worker does with the request that it has received.
unfoldable pub attempt : Phase → ℕ → List (ℕ × Request)
attempt (Phase.posting r) j = (j, r) ∷ []
attempt _ j = []

unfoldable pub receive_step : System → ℕ → Option Worker → Result
unfolding attempt
receive_step s j none = Result.disabled
receive_step s j (some w) =
    Result.running (record (put_workers s (update (workers_of s.client.reqchan) j w)) {
      attempted = s.attempted ++ attempt w.phase j;
    })

-- The receive of `stopWorkers` with the send of worker `j`.
unfoldable pub quit_step : Call → System → ℕ → Option Worker → Result
quit_step (Call.waiting k i) s j (some w) =
    Result.running (record (put_workers s (update (workers_of s.client.reqchan) j w)) {
      call = Call.stopping k (i + 1);
    })
quit_step _ s j w = Result.disabled

-- The entry of a method. A call that returns an error without a further effect leaves the system as it
-- is.
unfoldable pub enter_post : System → PostResult → Result
enter_post s (PostResult.refused e) = Result.running s
enter_post s PostResult.panicked = Result.panicked
enter_post s (PostResult.sends r i) = Result.running (record s { call = Call.sending r i })

unfoldable pub enter_init : Option (List Worker) → Option Config → Bool → System → Result
unfolding configure configured return_with
enter_init none cfg errorchan s = return_with s (configured (configure cfg errorchan s.client))
enter_init (some ws) cfg errorchan s =
    Result.running (record s { call = Call.stopping (After.init cfg errorchan) 0 })

-- The entries of the methods, which the caller makes when it is idle, and the steps of the threads.
pub data Action : Type 0 where
  call_post : (url payload content_type : Bytes) → ℤ → Action
  call_flush call_close proceed : Action
  call_init : Option Config → Bool → Action
  receives reports quits : ℕ → Action
  responds : ℕ → Response → Action

unfoldable pub is_idle : Call → Bool
is_idle Call.idle = true
is_idle _ = false

unfoldable pub enter : Bool → Result → Result
enter true r = r
enter false r = Result.disabled

-- One step of the whole system.
unfoldable pub advance : (Bytes → NewRequest) → Action → System → Result
unfolding is_idle enter enter_post enter_init post proceed_in receive_step step_worker quit_step
    at_worker receive respond report quit
advance parse (Action.call_post url payload content_type affinity) s =
    enter (is_idle s.call) (enter_post s (post parse s.client url payload content_type affinity))
advance parse Action.call_flush s =
    enter (is_idle s.call) (Result.running (record s { call = Call.stopping After.flush 0 }))
advance parse Action.call_close s =
    enter (is_idle s.call) (Result.running (record s { call = Call.stopping After.close 0 }))
advance parse (Action.call_init cfg errorchan) s =
    enter (is_idle s.call) (enter_init s.client.reqchan cfg errorchan s)
advance parse Action.proceed s = proceed_in s.call s
advance parse (Action.receives j) s =
    receive_step s j (at_worker receive (get_elem? (workers_of s.client.reqchan) j))
advance parse (Action.responds j res) s =
    step_worker s j
      (at_worker (respond s.client.errorchan res) (get_elem? (workers_of s.client.reqchan) j))
advance parse (Action.reports j) s =
    step_worker s j (at_worker report (get_elem? (workers_of s.client.reqchan) j))
advance parse (Action.quits j) s =
    quit_step s.call s j (at_worker quit (get_elem? (workers_of s.client.reqchan) j))
