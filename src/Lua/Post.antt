-- ===== src/Lua/Post.antt =====
-- lua/http.go: luaHTTPPost and initHTTP. The function runs with the lock of the sandbox held, and gives it
-- up while Post may wait.
pub mod Returns
use logd_go.Base.{
  ◌&&◌, [], arith, ◌∙◌, subst, Bool-cases, inl, inr, >>=-eq-some, ◌≡◌, refl, Bool, true, false,
  Option, none, some, List, ◌∷◌, Bytes, ℤ, if◌then◌else◌, ◌>>=◌,
}
use logd_go.Http.Config.{Config}
use logd_go.Http.Client.{Client, new_client, NewRequest, PostError, PostResult, post}
use logd_go.Http.System.{System, Result, Action, start, is_idle}
use logd_go.Http.Delivery.{run_from}
use logd_go.Lua.Arguments.{Values, get_arg_string, get_optional_arg_int}

-- The lock, and the client once there is one.
pub record Poster : Type 0 where
  pub locked : Bool
  pub http_config : Config
  pub http : Option System

-- An error that the function raises in the script.
pub data PostFailure : Type 0 where
  not_initialised : Bytes → PostFailure
  refused_post : PostError → PostFailure

-- The function returns or raises an error, it panics, or Post still waits.
pub data PostOutcome : Type 0 where
  ended : Poster → Option PostFailure → PostOutcome
  panicked waiting : PostOutcome

-- `http.NewClient`, with its error.
made_client : Poster → Option Client × Option Bytes → Poster × Option Bytes
made_client po (none, e) = (po, e)
made_client po (some c, e) = (record po { http = some (record start { client = c }) }, e)

pub init_http : Poster → Option (Poster × Option Bytes)
unfolding made_client new_client
init_http po = do r ← new_client (some po.http_config) true; some (made_client po r)

unfoldable pub post_failure : PostResult → Option PostFailure
post_failure (PostResult.refused e) = some (PostFailure.refused_post e)
post_failure _ = none

-- The client once Post has returned, with the lock taken again.
end_post : Poster → Option PostFailure → Result → PostOutcome
end_post po e (Result.running s) =
    if is_idle s.call
    then PostOutcome.ended (record po { locked = true; http = some s }) e
    else PostOutcome.waiting
end_post po e Result.panicked = PostOutcome.panicked
end_post po e Result.disabled = PostOutcome.waiting

abbrev is_report : Action → Bool
is_report (Action.reports j) = true
is_report _ = false

-- The steps that can come while Post runs: pollHTTPErrors receives no error while it is in the hook
-- on_http_error, which may be the caller of http_post.
abbrev receivable : Bool → List Action → List Action
receivable by_poller [] = []
receivable by_poller (a ∷ acts) =
    let rest = receivable by_poller acts in if by_poller && is_report a then rest else a ∷ rest

-- `by_poller` tells that the hook on_http_error calls.
module _ (parse : Bytes → NewRequest) (by_poller : Bool) (schedule : List Action) where
  -- The part behind `Unlock`, which is a fatal error on a mutex that is not locked. The schedule has the steps
  -- of Post and of the workers.
  unlock_post : Bool → Poster → System → (url payload content_type : Bytes) → ℤ → PostOutcome
  unfolding end_post post_failure
  unlock_post false po s url payload content_type affinity = PostOutcome.panicked
  unlock_post true po s url payload content_type affinity =
      end_post po (post_failure (post parse s.client url payload content_type affinity)) (
        run_from parse
          (Action.call_post url payload content_type affinity ∷ receivable by_poller schedule)
          (Result.running s))

  post_in : Option System → Poster → (url payload content_type : Bytes) → ℤ → PostOutcome
  unfolding unlock_post
  post_in none po url payload content_type affinity = PostOutcome.panicked
  post_in (some s) po url payload content_type affinity =
      unlock_post po.locked po s url payload content_type affinity

  with_client :
      Option (Poster × Option Bytes) → (url payload content_type : Bytes) → ℤ → PostOutcome
  unfolding post_in
  with_client none url payload content_type affinity = PostOutcome.panicked
  with_client (some (po, some e)) url payload content_type affinity =
      PostOutcome.ended po (some (PostFailure.not_initialised e))
  with_client (some (po, none)) url payload content_type affinity =
      post_in po.http po url payload content_type affinity

  abbrev pub ensure_http : Option System → Poster → Option (Poster × Option Bytes)
  ensure_http none po = init_http po
  ensure_http (some s) po = some (po, none)

  checked_post : Option Bytes → Option Bytes → Option Bytes → ℤ → Poster → PostOutcome
  unfolding with_client init_http
  checked_post (some url) (some payload) (some content_type) affinity po =
      with_client (ensure_http po.http po) url payload content_type affinity
  checked_post _ _ _ affinity po = PostOutcome.panicked

  pub lua_http_post : (v : Values) → List v.Value → Poster → PostOutcome
  unfolding checked_post
  lua_http_post v xs po =
      checked_post (get_arg_string v 1 xs) (get_arg_string v 2 xs) (get_arg_string v 3 xs)
        (get_optional_arg_int v 4 (ℤ.negsuc 0) xs) po
