-- ===== src/Http/Client.antt =====
-- http/http.go: AsyncClient with NewClient, Init, Post, Flush and Close. A method that waits on a channel
-- is cut into its steps: Post gives the queue on which it sends, and Flush, Close and Init go through
-- `stop_workers` queue by queue. `none` is a Go panic.
use logd_go.Base.{
  ℕ, zero, suc, ◌+◌, Bool, false, Option, none, some, List, [], ◌∷◌, Bytes, if◌then◌else◌, ◌>>=◌, ℤ,
  pred_int, ltb_int, rounds, get_elem?,
}
use logd_go.Http.Config.{Config, default_config, validate_configuration}
use logd_go.Http.Worker.{Request, Worker, new_worker, has_room}

pub data Channel : Type 0 where
  missing opened closed : Channel

-- `reqchan` is `none` where the slice is nil; `errorchan` says whether it is not nil.
pub record Client : Type 0 where
  pub cfg : Config
  pub reqchan : Option (List Worker)
  pub errorchan : Bool
  pub quitchan : Channel

-- `new(AsyncClient)`
abbrev pub zero_client : Client
zero_client = record {
  cfg = record { concurrency = ℤ.pos 0; chan_buffer = ℤ.pos 0; timeout = ℤ.pos 0 };
  reqchan = none;
  errorchan = false;
  quitchan = Channel.missing;
}

-- The workers of the client, none where the slice is nil.
abbrev pub workers_of : Option (List Worker) → List Worker
workers_of none = []
workers_of (some ws) = ws

abbrev pub repeat_worker : ℕ → ℕ → List Worker
repeat_worker zero n = []
repeat_worker (suc k) n = new_worker n ∷ repeat_worker k n

-- The loop of initWorkers, with the panic of `make` on a negative size.
unfoldable pub make_workers : ℕ → ℤ → Option (List Worker)
make_workers zero n = some []
make_workers (suc k) (ℤ.pos n) = some (repeat_worker (suc k) n)
make_workers (suc k) (ℤ.negsuc n) = none

unfoldable pub init_workers : Client → Option Client
unfolding make_workers
init_workers c = if ltb_int c.cfg.concurrency (ℤ.pos 0) then none else (do
  ws ← make_workers (rounds c.cfg.concurrency) c.cfg.chan_buffer
  some (record c { reqchan = some ws }))

-- The configuration that Init takes: the default one for nil.
abbrev pub choose_config : Option Config → Config
choose_config none = default_config
choose_config (some cfg) = cfg

-- What Init does once the client is closed: the client, and the error.
unfoldable pub configure_valid : Option Bytes → Bool → Client → Option (Client × Option Bytes)
unfolding init_workers
configure_valid (some e) errorchan c = some (c, some e)
configure_valid none errorchan c = do
  c' ← init_workers (record c { errorchan = errorchan; quitchan = Channel.opened })
  some (c', none)

unfoldable pub configure : Option Config → Bool → Client → Option (Client × Option Bytes)
unfolding configure_valid validate_configuration
configure cfg errorchan c =
    let cfg' : Config = choose_config cfg in
    configure_valid (validate_configuration cfg') errorchan (record c { cfg = cfg' })

-- NewClient: the client, or the error of Init on a client without workers.
choose_client : Client × Option Bytes → Option Client × Option Bytes
choose_client (c, some e) = (none, some e)
choose_client (c, none) = (some c, none)

unfoldable pub new_client : Option Config → Bool → Option (Option Client × Option Bytes)
unfolding choose_client configure
new_client cfg errorchan = do r ← configure cfg errorchan zero_client; some (choose_client r)

-- Where Post sends: the queue, or nowhere.
pub data Route : Type 0 where
  to : ℕ → Route
  full panics : Route

unfoldable pub try_send : Option Worker → ℕ → Route → Route
try_send none i rest = Route.panics
try_send (some w) i rest =
    if w.closed then Route.panics else if has_room w then Route.to i else rest

-- The loop of Post that looks for an available queue, with `n` rounds to go at index `i`.
unfoldable pub find_available : List Worker → ℕ → ℕ → Route
unfolding try_send
find_available ws zero i = Route.full
find_available ws (suc n) i =
    let rest = find_available ws n (i + 1) in try_send (get_elem? ws i) i rest

unfoldable pub or_first : Route → Route
or_first Route.full = Route.to 0
or_first r = r

unfoldable pub route : Client → List Worker → ℤ → Route
unfolding or_first find_available
route c ws (ℤ.pos i) = Route.to i
route c ws (ℤ.negsuc i) = or_first (find_available ws (rounds c.cfg.concurrency) 0)

-- The errors of Post: "cannot pass affinity greater than %d (only %d channels available)" with its two
-- numbers, and the error of `http.NewRequest`.
pub data PostError : Type 0 where
  affinity_error : ℤ → ℤ → PostError
  request_error : Bytes → PostError

-- What Post comes to: an error, a panic, or a send of the request on a queue.
pub data PostResult : Type 0 where
  refused : PostError → PostResult
  panicked : PostResult
  sends : Request → ℕ → PostResult

unfoldable pub submit_to : Request → Route → PostResult
submit_to r (Route.to i) = PostResult.sends r i
submit_to r _ = PostResult.panicked

unfoldable pub submit : Client → Option (List Worker) → Request → ℤ → PostResult
unfolding submit_to route
submit c none r affinity = PostResult.panicked
submit c (some ws) r affinity = submit_to r (route c ws affinity)

-- What `http.NewRequest` gives on a URL: its text, or an error.
pub data NewRequest : Type 0 where
  parsed refusal : Bytes → NewRequest

abbrev pub new_post_request : Client → Bytes → Bytes → Bytes → Request
new_post_request c url payload content_type = record {
  url = url;
  content_type = content_type;
  payload = payload;
  timeout = c.cfg.timeout;
}

unfoldable pub post_parsed : Client → NewRequest → Bytes → Bytes → ℤ → PostResult
unfolding submit
post_parsed c (NewRequest.refusal e) payload content_type affinity =
    PostResult.refused (PostError.request_error e)
post_parsed c (NewRequest.parsed url) payload content_type affinity =
    submit c c.reqchan (new_post_request c url payload content_type) affinity

unfoldable pub post : (Bytes → NewRequest) → Client → Bytes → Bytes → Bytes → ℤ → PostResult
unfolding post_parsed
post parse c url payload content_type affinity =
    if ltb_int (pred_int c.cfg.concurrency) affinity
    then PostResult.refused
        (PostError.affinity_error (pred_int c.cfg.concurrency) c.cfg.concurrency)
    else post_parsed c (parse url) payload content_type affinity
