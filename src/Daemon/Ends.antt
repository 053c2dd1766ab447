-- ===== src/Daemon/Ends.antt =====
-- cmd/logd/main.go: how main ends, and what it has released by then.
use logd_go.Base.{
  ◌⊎◌, true, false, ◌≡◌, inl, inr, refl, sym, ap, ◌∙◌, Option, none, some, List, [], ◌∷◌, ◌++◌,
  Bytes, Bool-cases, if◌then◌else◌,
}
use logd_go.Daemon.Flags.{Flags, Mode, validate_flags, choose_mode}
use logd_go.Daemon.Opening.{Opened, get_reader}
use logd_go.Daemon.Main.{
  Resource, MainCall, Process, Env, Made, CpuProfile, calling, End, Closed, settle_end, from_reader,
  from_sandbox, from_profile, deferring, unwinds, exit_error, usage_exit, receive_exit, serve,
  run_mode, with_reader, with_sandbox, with_profile, with_flags, main, enable_cpu_profile,
}

-- The resources that the calls acquire, the last one first, and those that they release.
abbrev pub acquired : List MainCall → List Resource
acquired [] = []
acquired (MainCall.acquire r ∷ cs) = acquired cs ++ r ∷ []
acquired (_ ∷ cs) = acquired cs

abbrev pub released : List MainCall → List Resource
released [] = []
released (MainCall.release r ∷ cs) = r ∷ released cs
released (_ ∷ cs) = released cs

-- A process that waits may have made some of its deferred calls. One that returns or panics has released
-- what it acquired, the last resource first, and one that leaves by `os.Exit` has released nothing.
abbrev pub Releases : Process → Type 0
Releases p =
    (p.end ≡ End.waiting) ⊎ (released p.calls ≡ (if unwinds p.end then acquired p.calls else []))

acquired-append :
    (r : Resource) (cs : List MainCall) → acquired (cs ++ MainCall.release r ∷ []) ≡ acquired cs
acquired-append r [] = refl
acquired-append r (MainCall.acquire s ∷ cs) = ap (λ x. x ++ s ∷ []) (acquired-append r cs)
acquired-append r (MainCall.release s ∷ cs) = acquired-append r cs
acquired-append r (MainCall.init_logging s ∷ cs) = acquired-append r cs
acquired-append r (MainCall.start s ∷ cs) = acquired-append r cs
acquired-append r (MainCall.start_handler ∷ cs) = acquired-append r cs
acquired-append r (MainCall.notify ∷ cs) = acquired-append r cs
acquired-append r (MainCall.start_server ∷ cs) = acquired-append r cs

released-append :
    (r : Resource) (cs : List MainCall)
    → released (cs ++ MainCall.release r ∷ []) ≡ released cs ++ r ∷ []
released-append r [] = refl
released-append r (MainCall.release s ∷ cs) = ap (◌∷◌ s) (released-append r cs)
released-append r (MainCall.acquire s ∷ cs) = released-append r cs
released-append r (MainCall.init_logging s ∷ cs) = released-append r cs
released-append r (MainCall.start s ∷ cs) = released-append r cs
released-append r (MainCall.start_handler ∷ cs) = released-append r cs
released-append r (MainCall.notify ∷ cs) = released-append r cs
released-append r (MainCall.start_server ∷ cs) = released-append r cs

settle_exited : (o : Closed) (e : End) → unwinds e ≡ false → settle_end o e ≡ e
settle_exited Closed.done e h = refl
settle_exited Closed.panics End.exited h = refl
settle_exited Closed.panics End.waiting h = refl
settle_exited Closed.waits End.exited h = refl
settle_exited Closed.waits End.waiting h = refl
settle_exited o End.returned h = cc
settle_exited o End.panicked h = cc

settle_unwound :
    (o : Closed) (e : End)
    → unwinds e ≡ true
    → (settle_end o e ≡ End.waiting) ⊎ (unwinds (settle_end o e) ≡ true)
settle_unwound Closed.done e h = inr h
settle_unwound Closed.panics End.returned h = inr refl
settle_unwound Closed.panics End.panicked h = inr refl
settle_unwound Closed.waits End.returned h = inl refl
settle_unwound Closed.waits End.panicked h = inl refl
settle_unwound o End.exited h = cc
settle_unwound o End.waiting h = cc

-- A resource with its deferred call.
held-Releases :
    (r : Resource) (o : Closed) (p : Process)
    → Releases p
    → Releases (calling (MainCall.acquire r) (deferring r o p))
unfolding deferring
held-Releases r o p (inl h) = inl (ap (settle_end o) h ∙ settle_exited o End.waiting refl)
held-Releases r o p (inr h) = elim (Bool-cases (unwinds p.end)) [
  | inl e ↦
      let k : released p.calls ≡ acquired p.calls = rw e at h in
      elim (settle_unwound o p.end e) [
        | inl w ↦ inl w
        | inr u ↦ inr (
            rw u (
              rw e (
                released-append r p.calls
                ∙ ap (λ x. x ++ r ∷ []) (k ∙ sym (acquired-append r p.calls)))))
      ]
  | inr e ↦ inr (rw (settle_exited o p.end e) (rw e (rw e at h)))
]

receive_exit-Releases : (r : Option (Option Bytes)) → Releases (receive_exit r)
unfolding receive_exit
receive_exit-Releases none = inl refl
receive_exit-Releases (some none) = inr refl
receive_exit-Releases (some (some e)) = inr refl

exit_error-Releases : (e : Bytes) → Releases (exit_error e)
unfolding exit_error
exit_error-Releases e = inr refl

module _ {L : Type 0} (env : Env L) where
  serve-Releases : (r : Option (Option Bytes)) → Releases (serve env r)
  unfolding serve
  serve-Releases r = elim (Bool-cases env.server) [
    | inl e ↦ rw e (receive_exit-Releases r)
    | inr e ↦ rw e (receive_exit-Releases r)
  ]

  run_mode-Releases : (mode : Mode) (l : L) (o : Opened) → Releases (run_mode env mode l o)
  unfolding run_mode
  run_mode-Releases mode l o =
      held-Releases Resource.signals Closed.done
        (calling MainCall.start_handler
          (calling MainCall.notify (serve env (env.received mode l o))))
        (serve-Releases (env.received mode l o))

  from_reader-Releases :
      (mode : Mode) (l : L) (o : Opened)
      → Releases (calling (MainCall.acquire Resource.reader) (from_reader env mode l o))
  unfolding from_reader
  from_reader-Releases mode l o =
      held-Releases Resource.reader (env.close_reader o) (run_mode env mode l o)
        (run_mode-Releases mode l o)

  with_reader-Releases : (mode : Mode) (l : L) (o : Opened) → Releases (with_reader env mode l o)
  unfolding with_reader
  with_reader-Releases mode l (Opened.directories d) =
      from_reader-Releases mode l (Opened.directories d)
  with_reader-Releases mode l Opened.file = from_reader-Releases mode l Opened.file
  with_reader-Releases mode l (Opened.failed e) = exit_error-Releases e
  with_reader-Releases mode l (Opened.exits e) = exit_error-Releases e
  with_reader-Releases mode l Opened.panicked = inr refl

  from_sandbox-Releases :
      (l : L) → Releases (calling (MainCall.acquire Resource.sandbox) (from_sandbox env l))
  unfolding from_sandbox
  from_sandbox-Releases l =
      let o = get_reader env.os env.dirs env.watcher_error env.open_error in
      let p = with_reader env (choose_mode env.script env.bench) l o in
      let q =
        calling (MainCall.acquire Resource.exit_channel)
          (deferring Resource.exit_channel Closed.done p) in
      held-Releases Resource.sandbox (env.close_sandbox l) q (
        held-Releases Resource.exit_channel Closed.done p
          (with_reader-Releases (choose_mode env.script env.bench) l o))

  with_sandbox-Releases : (s : Made L) → Releases (with_sandbox env s)
  unfolding with_sandbox
  with_sandbox-Releases (Made.made l) = from_sandbox-Releases l
  with_sandbox-Releases (Made.failed e) = exit_error-Releases e
  with_sandbox-Releases Made.panicked = inr refl
  with_sandbox-Releases Made.waiting = inl refl

  with_profile-Releases : (c : CpuProfile) (v : Bytes) → Releases (with_profile env c v)
  unfolding with_profile from_profile
  with_profile-Releases CpuProfile.enabled v =
      held-Releases Resource.profile Closed.done (with_sandbox env (env.new_sandbox v))
        (with_sandbox-Releases (env.new_sandbox v))
  with_profile-Releases (CpuProfile.disabled s) v = with_sandbox-Releases (env.new_sandbox v)
  with_profile-Releases (CpuProfile.not_created e) v = exit_error-Releases e

  with_flags-Releases : (f : Flags) → Releases (with_flags env f)
  unfolding with_flags usage_exit
  with_flags-Releases (Flags.usage_error e) = inr refl
  with_flags-Releases (Flags.script v) =
      with_profile-Releases (enable_cpu_profile env.cpu_profile env.create_error env.start_error) v

  -- Unless main waits for ever, on `exit` or in a deferred call: where it returns or panics, it has made the
  -- calls that release the profile, the sandbox, the channels and the reader, for exactly those that it had
  -- acquired and in the reverse order, also where one of these calls panics. Where it leaves by `os.Exit`, as for
  -- every error and also for one that the pipeline sends, it has released nothing.
  pub main-Releases :
      ((main env).end ≡ End.waiting)
      ⊎ (released (main env).calls
          ≡ (if unwinds (main env).end then acquired (main env).calls else []))
  unfolding main
  main-Releases = with_flags-Releases (validate_flags env.script env.bench env.full_bench)
