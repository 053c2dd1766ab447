-- ===== src/Daemon/Success.antt =====
-- cmd/logd/main.go: when main returns, which ends the process with the status 0.
use logd_go.Base.{
  ◌≡◌, ◌↔◌, inl, inr, refl, sym, ap, ◌∙◌, Bool, true, false, Option, none, some, Bytes, Bool-cases,
}
use logd_go.Daemon.Flags.{Flags, Mode, Only, validate_flags, choose_mode, validate_flags-Only}
use logd_go.Daemon.Opening.{Opened, get_reader}
use logd_go.Daemon.Main.{
  End, Env, Made, CpuProfile, Closed, settle_end, from_reader, from_sandbox, from_profile,
  deferring, exit_error, usage_exit, receive_exit, serve, run_mode, with_reader, with_sandbox,
  with_profile, with_flags, main, enable_cpu_profile,
}

abbrev pub is_open : Opened → Bool
is_open (Opened.directories d) = true
is_open Opened.file = true
is_open _ = false

-- A profile is written, or not asked for, or it could not be started.
abbrev pub goes_on : CpuProfile → Bool
goes_on (CpuProfile.not_created e) = false
goes_on _ = true

settle_returned :
    (o : Closed) (e : End) → settle_end o e ≡ End.returned → (o ≡ Closed.done) × (e ≡ End.returned)
settle_returned Closed.done e h = (refl, h)
settle_returned Closed.panics End.returned h = cc
settle_returned Closed.panics End.panicked h = cc
settle_returned Closed.panics End.exited h = cc
settle_returned Closed.panics End.waiting h = cc
settle_returned Closed.waits End.returned h = cc
settle_returned Closed.waits End.panicked h = cc
settle_returned Closed.waits End.exited h = cc
settle_returned Closed.waits End.waiting h = cc

receive_returned : (r : Option (Option Bytes)) → (receive_exit r).end ≡ End.returned → r ≡ some none
unfolding receive_exit
receive_returned none h = cc
receive_returned (some none) h = refl
receive_returned (some (some e)) h = cc

receive_nothing : (receive_exit (some none)).end ≡ End.returned
unfolding receive_exit
receive_nothing = refl

exit_error-end : (e : Bytes) → (exit_error e).end ≡ End.exited
unfolding exit_error
exit_error-end e = refl

module _ {L : Type 0} (env : Env L) where
  abbrev pub opened : Opened
  opened = get_reader env.os env.dirs env.watcher_error env.open_error

  abbrev pub profiled : CpuProfile
  profiled = enable_cpu_profile env.cpu_profile env.create_error env.start_error

  -- One mode is chosen, its script gives a sandbox, the input can be opened, the profile's file can be made if
  -- one was asked for, the first value on `exit` is no error, and closing the reader and the sandbox neither
  -- panics nor waits for ever.
  pub record Succeeds : Type 0 where
    pub mode : Mode
    pub script : Bytes
    pub sandbox : L
    pub chosen : Only env.script env.bench env.full_bench mode script
    pub profile_ok : goes_on profiled ≡ true
    pub loads : env.new_sandbox script ≡ Made.made sandbox
    pub opens : is_open opened ≡ true
    pub closes_reader : env.close_reader opened ≡ Closed.done
    pub closes_sandbox : env.close_sandbox sandbox ≡ Closed.done
    pub ends : env.received mode sandbox opened ≡ some none

  serve-end : (r : Option (Option Bytes)) → (serve env r).end ≡ (receive_exit r).end
  unfolding serve
  serve-end r = elim (Bool-cases env.server) [ inl e ↦ rw e refl | inr e ↦ rw e refl ]

  run_mode-end :
      (mode : Mode) (l : L) (o : Opened)
      → (run_mode env mode l o).end ≡ (receive_exit (env.received mode l o)).end
  unfolding run_mode deferring
  run_mode-end mode l o = serve-end (env.received mode l o)

  abbrev reader_end : Mode → L → Opened → End
  reader_end mode l o = settle_end (env.close_reader o) (receive_exit (env.received mode l o)).end

  with_reader-open :
      (mode : Mode) (l : L) (o : Opened)
      → is_open o ≡ true
      → (with_reader env mode l o).end ≡ reader_end mode l o
  unfolding with_reader from_reader deferring
  with_reader-open mode l (Opened.directories d) h =
      let o = Opened.directories d in ap (settle_end (env.close_reader o)) (run_mode-end mode l o)
  with_reader-open mode l Opened.file h =
      ap (settle_end (env.close_reader Opened.file)) (run_mode-end mode l Opened.file)
  with_reader-open mode l (Opened.failed e) h = cc
  with_reader-open mode l (Opened.exits e) h = cc
  with_reader-open mode l Opened.panicked h = cc

  with_reader_opens :
      (mode : Mode) (l : L) (o : Opened)
      → (with_reader env mode l o).end ≡ End.returned
      → is_open o ≡ true
  unfolding with_reader
  with_reader_opens mode l (Opened.directories d) h = refl
  with_reader_opens mode l Opened.file h = refl
  with_reader_opens mode l (Opened.failed e) h = let x = exit_error-end e in cc
  with_reader_opens mode l (Opened.exits e) h = let x = exit_error-end e in cc
  with_reader_opens mode l Opened.panicked h = cc

  with_sandbox-made :
      (l : L)
      → (with_sandbox env (Made.made l)).end
        ≡ settle_end
            (env.close_sandbox l)
            (with_reader env (choose_mode env.script env.bench) l opened).end
  unfolding with_sandbox from_sandbox deferring
  with_sandbox-made l = refl

  with_sandbox_makes :
      (s : Made L) → (with_sandbox env s).end ≡ End.returned → (l : L) × (s ≡ Made.made l)
  unfolding with_sandbox
  with_sandbox_makes (Made.made l) h = (l, refl)
  with_sandbox_makes (Made.failed e) h = let x = exit_error-end e in cc
  with_sandbox_makes Made.panicked h = cc
  with_sandbox_makes Made.waiting h = cc

  with_profile-end :
      (c : CpuProfile) (v : Bytes)
      → goes_on c ≡ true
      → (with_profile env c v).end ≡ (with_sandbox env (env.new_sandbox v)).end
  unfolding with_profile
  with_profile-end CpuProfile.enabled v h = unfold from_profile deferring in refl
  with_profile-end (CpuProfile.disabled s) v h = refl
  with_profile-end (CpuProfile.not_created e) v h = cc

  with_profile-goes_on :
      (c : CpuProfile) (v : Bytes) → (with_profile env c v).end ≡ End.returned → goes_on c ≡ true
  unfolding with_profile
  with_profile-goes_on CpuProfile.enabled v h = refl
  with_profile-goes_on (CpuProfile.disabled s) v h = refl
  with_profile-goes_on (CpuProfile.not_created e) v h = let x = exit_error-end e in cc

  with_flags_script :
      (f : Flags)
      → (with_flags env f).end ≡ End.returned
      → (v : Bytes) × (f ≡ Flags.script v) × ((with_profile env profiled v).end ≡ End.returned)
  unfolding with_flags usage_exit
  with_flags_script (Flags.usage_error e) h = cc
  with_flags_script (Flags.script v) h = (v, refl, h)

  with_flags-script :
      (v : Bytes) → (with_flags env (Flags.script v)).end ≡ (with_profile env profiled v).end
  unfolding with_flags
  with_flags-script v = refl

  returned-Succeeds : (main env).end ≡ End.returned → Succeeds
  unfolding main
  returned-Succeeds h =
      let mode = choose_mode env.script env.bench in
      let (v, f, p) = with_flags_script (validate_flags env.script env.bench env.full_bench) h in
      let g = with_profile-goes_on profiled v p in
      let s = sym (with_profile-end profiled v g) ∙ p in
      let (l, m) = with_sandbox_makes (env.new_sandbox v) s in
      let w = sym (with_sandbox-made l) ∙ ap (λ x. (with_sandbox env x).end) (sym m) ∙ s in
      let (c, r) = settle_returned (env.close_sandbox l) (with_reader env mode l opened).end w in
      let o = with_reader_opens mode l opened r in
      let (d, e) =
        settle_returned (env.close_reader opened) (receive_exit (env.received mode l opened)).end
          (sym (with_reader-open mode l opened o) ∙ r) in
      record {
        mode = mode;
        script = v;
        sandbox = l;
        chosen = (validate_flags-Only env.script env.bench env.full_bench v mode).0 (f, refl);
        profile_ok = g;
        loads = m;
        opens = o;
        closes_reader = d;
        closes_sandbox = c;
        ends = receive_returned (env.received mode l opened) e;
      }

  Succeeds-returned : Succeeds → (main env).end ≡ End.returned
  unfolding main
  Succeeds-returned s =
      let mode = choose_mode env.script env.bench in
      let (f, m) =
        (validate_flags-Only env.script env.bench env.full_bench s.script s.mode).1 s.chosen in
      ap (λ x. (with_flags env x).end) f
      ∙ with_flags-script s.script
      ∙ with_profile-end profiled s.script s.profile_ok
      ∙ ap (λ x. (with_sandbox env x).end) s.loads
      ∙ with_sandbox-made s.sandbox
      ∙ ap (λ o. settle_end o (with_reader env mode s.sandbox opened).end) s.closes_sandbox
      ∙ with_reader-open mode s.sandbox opened s.opens
      ∙ ap (λ o. settle_end o (receive_exit (env.received mode s.sandbox opened)).end)
          s.closes_reader
      ∙ ap (λ x. (receive_exit (env.received x s.sandbox opened)).end) m
      ∙ ap (λ x. (receive_exit x).end) s.ends
      ∙ receive_nothing

  -- main returns just where one mode is chosen by its flag, the file of the profile can be made if one is asked
  -- for, the sandbox is made from the script of that flag, the input can be opened, the first value that main
  -- receives on `exit` is no error, and closing the reader and the sandbox neither panics nor waits for ever.
  pub main-returned : ((main env).end ≡ End.returned) ↔ Succeeds
  main-returned = (returned-Succeeds, Succeeds-returned)
