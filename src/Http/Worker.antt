-- ===== src/Http/Worker.antt =====
-- http/http.go: the requests, postRequest, and poster, the goroutine that serves one queue. A queue is
-- served by one goroutine only, so both are one record here. Logging is left out.
use logd_go.Base.{
  ℕ, Bool, true, false, ◌&&◌, Option, none, some, List, [], ◌∷◌, ◌++◌, Bytes, codes, length, ltb,
  leb, if◌then◌else◌, ℤ,
}

-- What a request keeps of its arguments and of the configuration.
pub record Request : Type 0 where
  pub url : Bytes
  pub content_type : Bytes
  pub payload : Bytes
  pub timeout : ℤ

-- What `client.Do` gives: an error, or a response with what `ioutil.ReadAll` gives on its body.
pub data Response : Type 0 where
  failed : Bytes → Response
  answered : (status_code : ℕ) (status body : Bytes) (read_error : Option Bytes) → Response

status_text : Request → Bytes → Bytes
status_text req status = codes "request to '" ++ req.url ++ codes "' status: " ++ status

status_error : Request → Bytes → Bytes → Option Bytes → Bytes
unfolding status_text
status_error req status body (some e) = status_text req status ++ codes ": " ++ body
status_error req status body none = status_text req status

-- postRequest: the error, if there is one.
unfoldable pub post_request : Request → Response → Option Bytes
unfolding status_error
post_request req (Response.failed e) = some e
post_request req (Response.answered code status body e) =
    if leb 200 code && ltb code 300 then none else some (status_error req status body e)

-- Where the goroutine is: at the head of its loop, in postRequest, at the send to errorchan, at the
-- send to quitchan, or at its end.
pub data Phase : Type 0 where
  receiving : Phase
  posting : Request → Phase
  reporting : Request → Bytes → Phase
  quitting stopped : Phase

pub record Worker : Type 0 where
  pub queue : List Request
  pub capacity : ℕ
  pub closed : Bool
  pub phase : Phase

-- A new channel and the goroutine on it.
abbrev pub new_worker : ℕ → Worker
new_worker n = record { queue = []; capacity = n; closed = false; phase = Phase.receiving }

abbrev pub has_room : Worker → Bool
has_room w = ltb (length w.queue) w.capacity

-- `range reqchan`: the next request, or the end of the loop on a channel that is closed and empty.
-- No value: the goroutine waits.
unfoldable pub receive_from : Worker → List Request → Option Worker
receive_from w (r ∷ q) = some (record w { queue = q; phase = Phase.posting r })
receive_from w [] = if w.closed then some (record w { phase = Phase.quitting }) else none

unfoldable pub receive_in : Phase → Worker → Option Worker
unfolding receive_from
receive_in Phase.receiving w = receive_from w w.queue
receive_in _ w = none

unfoldable pub receive : Worker → Option Worker
unfolding receive_in
receive w = receive_in w.phase w

-- Behind postRequest: an error is sent to errorchan, if there is one.
unfoldable pub settle : Bool → Request → Option Bytes → Phase
settle errorchan r none = Phase.receiving
settle true r (some e) = Phase.reporting r e
settle false r (some e) = Phase.receiving

unfoldable pub respond_in : Phase → Bool → Response → Worker → Option Worker
unfolding settle post_request
respond_in (Phase.posting r) errorchan res w =
    some (record w { phase = settle errorchan r (post_request r res) })
respond_in _ errorchan res w = none

-- The end of postRequest with the given response.
unfoldable pub respond : Bool → Response → Worker → Option Worker
unfolding respond_in
respond errorchan res w = respond_in w.phase errorchan res w

unfoldable pub report_in : Phase → Worker → Option Worker
report_in (Phase.reporting r e) w = some (record w { phase = Phase.receiving })
report_in _ w = none

-- The owner of errorchan receives the error.
unfoldable pub report : Worker → Option Worker
unfolding report_in
report w = report_in w.phase w

unfoldable pub quit_in : Phase → Worker → Option Worker
quit_in Phase.quitting w = some (record w { phase = Phase.stopped })
quit_in _ w = none

-- `quitchan <- struct{}{}` is received.
unfoldable pub quit : Worker → Option Worker
unfolding quit_in
quit w = quit_in w.phase w
