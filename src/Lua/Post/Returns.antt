-- ===== src/Lua/Post/Returns.antt =====
-- lua/http.go: luaHTTPPost comes to its end.
use logd_go.Base.{◌≡◌, refl, subst, ap, ◌∙◌, true, false, some, List, [], ◌∷◌, ◌++◌, Bytes, ℤ}
use logd_go.Http.Client.{NewRequest, post}
use logd_go.Http.Worker.{Response}
use logd_go.Http.System.{System, Result, Action, Call, advance, is_idle}
use logd_go.Http.Delivery.{run_from}
use logd_go.Http.Ready.{IsReady}
use logd_go.Http.Liveness.{AllInner, Completes, StillCompletes}
use logd_go.Http.Returns.{call-returns}
use logd_go.Lua.Arguments.{Values, get_arg_string, get_optional_arg_int}
use logd_go.Lua.Post.{
  Poster, PostOutcome, post_failure, end_post, receivable, unlock_post, lua_http_post,
}

-- A way on, to the return of the call.
abbrev WayOn : (Bytes → NewRequest) → Result → Type 0
WayOn parse r =
    (more : List Action) × AllInner more
    × (s : System) × (run_from parse more r ≡ Result.running s)
    × (s.call ≡ Call.idle)

step-WayOn :
    (parse : Bytes → NewRequest) (a : Action) (s t : System)
    → AllInner (a ∷ [])
    → advance parse a s ≡ Result.running t
    → WayOn parse (Result.running t)
    → WayOn parse (Result.running s)
unfolding run_from
step-WayOn parse a s t h e (more, i, u, r, c) =
    (a ∷ more, (h.0, i), u, ap (run_from parse more) e ∙ r, c)

Completes-WayOn :
    (parse : Bytes → NewRequest) {s : System} → Completes parse s → WayOn parse (Result.running s)
unfolding run_from
Completes-WayOn parse (Completes.returned s c) = ([], tt, s, refl, c)
Completes-WayOn parse (Completes.thread_moves a s t h n e k) =
    step-WayOn parse a s t (h, tt) e (Completes-WayOn parse k)
Completes-WayOn parse (Completes.server_moves j s next e k) =
    let res = Response.failed [] in
    step-WayOn parse (Action.responds j res) s (next res) (refl, tt) (e res)
      (Completes-WayOn parse (k res))

run_from-append :
    (parse : Bytes → NewRequest) (xs ys : List Action) (r : Result) {t : System}
    → run_from parse xs r ≡ Result.running t
    → run_from parse (xs ++ ys) r ≡ run_from parse ys (Result.running t)
unfolding run_from
run_from-append parse [] ys r e = ap (run_from parse ys) e
run_from-append parse (x ∷ xs) ys (Result.running s) e = run_from-append parse xs ys _ e
run_from-append parse (x ∷ xs) ys Result.panicked e = cc
run_from-append parse (x ∷ xs) ys Result.disabled e = cc

receivable-false : (acts : List Action) → receivable false acts ≡ acts
receivable-false [] = refl
receivable-false (a ∷ acts) = ap (◌∷◌ a) (receivable-false acts)

unlock_post-ended :
    (parse : Bytes → NewRequest) (schedule : List Action) (po : Poster) (s s' : System)
    (url payload content_type : Bytes) (z : ℤ)
    → run_from parse (Action.call_post url payload content_type z ∷ schedule) (Result.running s)
      ≡ Result.running s'
    → s'.call ≡ Call.idle
    → unlock_post parse false schedule true po s url payload content_type z
      ≡ PostOutcome.ended
          (record po { locked = true; http = some s' })
          (post_failure (post parse s.client url payload content_type z))
unfolding unlock_post end_post is_idle
unlock_post-ended parse schedule po s s' url payload content_type z runs idle =
    rw (receivable-false schedule) (rw runs (rw idle refl))

-- http_post can always get on: called with the lock held, an initialised client that is in no call, and three texts
-- as its first arguments, by another goroutine than the poller of errors, whatever steps Post and the workers have
-- made so far, with any responses of the server, there are further ones with which http_post ends. Then the lock is
-- held again and the client is in no call, and the error that http_post raises is the one with which Post refuses
-- the call, if it does. Errors that the workers report are received meanwhile, and no other call of the client is
-- made.
pub lua_http_post-returns :
    (parse : Bytes → NewRequest) (v : Values) (xs : List v.Value) (po : Poster) (s t : System)
    (url payload content_type : Bytes) (acts : List Action)
    → get_arg_string v 1 xs ≡ some url
    → get_arg_string v 2 xs ≡ some payload
    → get_arg_string v 3 xs ≡ some content_type
    → po.http ≡ some s
    → po.locked ≡ true
    → IsReady s
    → s.call ≡ Call.idle
    → AllInner acts
    → run_from parse
        (Action.call_post url payload content_type (get_optional_arg_int v 4 (ℤ.negsuc 0) xs)
          ∷ acts)
        (Result.running s)
      ≡ Result.running t
    → (more : List Action) × AllInner more
      × (s' : System) × (s'.call ≡ Call.idle)
      × (lua_http_post parse false (acts ++ more) v xs po
          ≡ PostOutcome.ended
              (record po { locked = true; http = some s' })
              (post_failure (
                post parse s.client url payload content_type
                  (get_optional_arg_int v 4 (ℤ.negsuc 0) xs))))
unfolding lua_http_post run_from
lua_http_post-returns parse v xs po s t url payload content_type acts a b c h l r i n runs =
    let z = get_optional_arg_int v 4 (ℤ.negsuc 0) xs in
    let call = Action.call_post url payload content_type z in
    let (t0, step, still) = call-returns parse s call acts r i refl n in
    let rest : run_from parse acts (Result.running t0) ≡ Result.running t = rw step at runs in
    let (more, m, s', e, d) = Completes-WayOn parse (subst (StillCompletes parse) rest still) in
    let whole : run_from parse (call ∷ acts ++ more) (Result.running s) ≡ Result.running s' =
      run_from-append parse (call ∷ acts) more (Result.running s) runs ∙ e in
    let done = unlock_post-ended parse (acts ++ more) po s s' url payload content_type z whole d in
    (more, m, s', d, rw a (rw b (rw c (rw h (rw l done)))))
