-- ===== src/Daemon/Bench.antt =====
-- cmd/logd/bench.go: the two benchmarks. The testing package picks the numbers of rounds, one for each of
-- its calls of the benchmark function, so they are an argument; the sandbox is a state with its hook and
-- its Flush, and `none` is a Go panic in the parser. The loops hand a copy of each log to the hook, which
-- shares the array of its properties: the hook also gives what it leaves in that array.
use logd_go.Base.{
  ℕ, zero, suc, ◌+◌, ◌*◌, ◌/◌, ◌≤◌, ◌<◌, ◌≡◌, ◌⊎◌, refl, sym, ap, ◌∙◌, Option, none, some, List, [],
  ◌∷◌, ◌++◌, Bytes, ◌>>=◌, leb, if◌then◌else◌, arith,
}
use logd_go.Log.{Property, Log}
use logd_go.Parser.State.{Parser}
use logd_go.Parser.Run.{parse_chunk, new_parser}
use logd_go.Parser.Total.{IsReady}
use logd_go.Parser.Lines.{parse_chunk-line}

-- "ms/iter", "us/iter" and "ns/iter".
pub data TimeUnit : Type 0 where
  milli micro nano : TimeUnit

-- getTimeOp, of the nanoseconds of an operation.
unfoldable pub get_time_op : ℕ → ℕ × TimeUnit
get_time_op ns =
    if leb 1000000 ns
    then (ns / 1000000, TimeUnit.milli)
    else if leb 1000 ns
    then (ns / 1000, TimeUnit.micro)
    else (ns, TimeUnit.nano)

abbrev pub nanoseconds : TimeUnit → ℕ
nanoseconds TimeUnit.milli = 1000000
nanoseconds TimeUnit.micro = 1000
nanoseconds TimeUnit.nano = 1

-- getTimeOp rounds down: the time lies between its value and the next one in the unit that it names, and
-- the value is at least 1 in every unit but the smallest, and below 1000 in every unit but the largest.
get_time_op-bounds :
    (ns : ℕ)
    → ((get_time_op ns).0 * nanoseconds (get_time_op ns).1 ≤ ns)
      × (ns < ((get_time_op ns).0 + 1) * nanoseconds (get_time_op ns).1)
      × (((get_time_op ns).1 ≡ TimeUnit.nano) ⊎ (1 ≤ (get_time_op ns).0))
      × (((get_time_op ns).1 ≡ TimeUnit.milli) ⊎ ((get_time_op ns).0 < 1000))
unfolding get_time_op
get_time_op-bounds ns = ground arith

-- CallOnLog: the sandbox, the error, and the properties that the array of the log then holds.
abbrev pub LogHook {ℓ κ} : Type ℓ → Type κ → Type (ℓ ⊔ κ)
LogHook S E = Log → S → (S × Option E) × List Property

module _ {ℓ κ} {S : Type ℓ} {E : Type κ} where
  -- `b.Errorf`
  unfoldable pub reported : List E → S × Option E → S × List E
  reported es (s, none) = (s, es)
  reported es (s, some e) = (s, es ++ e ∷ [])

  -- The loop over the logs: an error is reported to the benchmark and the loop goes on. The logs are those
  -- of the slice behind the loop.
  unfoldable pub call_all : LogHook S E → List Log → S × List E → List Log × (S × List E)
  unfolding reported
  call_all hook [] s = ([], s)
  call_all hook (l ∷ ls) s =
      let r = hook l s.0 in
      let rest = call_all hook ls (reported s.1 r.0) in (record l { props = r.1 } ∷ rest.0, rest.1)

  -- benchFullPipeline, up to its Flush: every round parses the text again.
  unfoldable pub full_rounds :
      LogHook S E → Bytes → ℕ → Parser → S × List E → Option (Parser × (S × List E))
  unfolding call_all
  full_rounds hook bytes zero p s = some (p, s)
  full_rounds hook bytes (suc n) p s = do
    r ← parse_chunk p bytes []
    full_rounds hook bytes n r.0 (call_all hook r.1 s).1

  -- benchLuaScriptOnly, up to its Flush: every round has the logs that the one before has left.
  unfoldable pub script_rounds : LogHook S E → ℕ → List Log × (S × List E) → List Log × (S × List E)
  unfolding call_all
  script_rounds hook zero s = s
  script_rounds hook (suc n) s = script_rounds hook n (call_all hook s.0 s.1)

  -- The runs of the testing package, each with a Flush at its end.
  unfoldable pub full_runs :
      LogHook S E → (S → S) → Bytes → List ℕ → Parser → S × List E → Option (Parser × (S × List E))
  unfolding full_rounds
  full_runs hook flush bytes [] p s = some (p, s)
  full_runs hook flush bytes (n ∷ ns) p s = do
    r ← full_rounds hook bytes n p s
    full_runs hook flush bytes ns r.0 (flush r.1.0, r.1.1)

  unfoldable pub script_runs :
      LogHook S E → (S → S) → List ℕ → List Log × (S × List E) → List Log × (S × List E)
  unfolding script_rounds
  script_runs hook flush [] s = s
  script_runs hook flush (n ∷ ns) s =
      let r = script_rounds hook n s in script_runs hook flush ns (r.0, (flush r.1.0, r.1.1))

  -- runFullBench on the text that it has read: the logs that it counts with, and the sandbox.
  unfoldable pub run_full_bench :
      LogHook S E → (S → S) → List ℕ → Bytes → S → Option (List Log × (S × List E))
  unfolding full_runs
  run_full_bench hook flush ns bytes s = do
    r ← full_runs hook flush bytes ns new_parser (s, [])
    q ← parse_chunk r.0 bytes []
    some (q.1, r.1)

  -- runLuaBench on the text that it has read.
  unfoldable pub run_lua_bench :
      LogHook S E → (S → S) → List ℕ → Bytes → S → Option (List Log × (S × List E))
  unfolding script_runs
  run_lua_bench hook flush ns bytes s = do
    q ← parse_chunk new_parser bytes []
    some (script_runs hook flush ns (q.1, (s, [])))

module _ {ℓ κ} {S : Type ℓ} {E : Type κ} (hook : LogHook S E) (flush : S → S)
    (keeps : (l : Log) (s : S) → (hook l s).1 ≡ l.props) where
  call_all-logs : (ls : List Log) (s : S × List E) → (call_all hook ls s).0 ≡ ls
  unfolding call_all
  call_all-logs [] s = refl
  call_all-logs (l ∷ ls) s =
      ap (λ x. record l { props = x } ∷ (call_all hook ls (reported s.1 (hook l s.0).0)).0)
        (keeps l s.0)
      ∙ ap (◌∷◌ l) (call_all-logs ls (reported s.1 (hook l s.0).0))

  module _ (a : Bytes) (logs : List Log)
      (e : parse_chunk new_parser (a ++ (b'\n' ∷ [])) [] ≡ some (new_parser, logs)) where
    full_rounds-script :
        (n : ℕ) (s : S × List E)
        → full_rounds hook (a ++ (b'\n' ∷ [])) n new_parser s
          ≡ some (new_parser, (script_rounds hook n (logs, s)).1)
    unfolding full_rounds script_rounds
    full_rounds-script zero s = refl
    full_rounds-script (suc n) s = rw e (
        full_rounds-script n (call_all hook logs s).1
        ∙ ap (λ x. some (new_parser, (script_rounds hook n (x, (call_all hook logs s).1)).1))
            (sym (call_all-logs logs s)))

    script_rounds-logs : (n : ℕ) (s : S × List E) → (script_rounds hook n (logs, s)).0 ≡ logs
    unfolding script_rounds
    script_rounds-logs zero s = refl
    script_rounds-logs (suc n) s =
        ap (λ x. (script_rounds hook n (x, (call_all hook logs s).1)).0) (call_all-logs logs s)
        ∙ script_rounds-logs n (call_all hook logs s).1

    full_runs-script :
        (ns : List ℕ) (s : S × List E)
        → full_runs hook flush (a ++ (b'\n' ∷ [])) ns new_parser s
          ≡ some (new_parser, (script_runs hook flush ns (logs, s)).1)
    unfolding full_runs script_runs
    full_runs-script [] s = refl
    full_runs-script (n ∷ ns) s =
        let r = script_rounds hook n (logs, s) in
        rw (full_rounds-script n s) (
          full_runs-script ns (flush r.1.0, r.1.1)
          ∙ ap (λ x. some (new_parser, (script_runs hook flush ns (x, (flush r.1.0, r.1.1))).1))
              (sym (script_rounds-logs n s)))

    script_runs-logs :
        (ns : List ℕ) (s : S × List E) → (script_runs hook flush ns (logs, s)).0 ≡ logs
    unfolding script_runs
    script_runs-logs [] s = refl
    script_runs-logs (n ∷ ns) s =
        let r = script_rounds hook n (logs, s) in
        ap (λ x. (script_runs hook flush ns (x, (flush r.1.0, r.1.1))).0) (script_rounds-logs n s)
        ∙ script_runs-logs ns (flush r.1.0, r.1.1)

-- On a text that ends with a line, and with a hook that leaves the properties of every log as they are, the
-- benchmark of the whole pipeline and that of the script alone, with the same numbers of rounds, return, call
-- the hook with the same logs in the same order, leave the same sandbox and the same errors, and count with
-- the same logs.
pub run_full_bench-lua {ℓ κ} :
    {S : Type ℓ} {E : Type κ} (hook : LogHook S E) (flush : S → S) (ns : List ℕ) (a : Bytes) (s : S)
    → ((l : Log) (t : S) → (hook l t).1 ≡ l.props)
    → (r : List Log × (S × List E)) × (run_full_bench hook flush ns (a ++ (b'\n' ∷ [])) s ≡ some r)
      × (run_lua_bench hook flush ns (a ++ (b'\n' ∷ [])) s ≡ some r)
unfolding run_full_bench run_lua_bench
run_full_bench-lua hook flush ns a s keeps =
    let ready : IsReady new_parser = ground arith in
    let (logs, e) = parse_chunk-line new_parser a [] ready in
    let r = script_runs hook flush ns (logs, (s, [])) in
    (
      r,
      rw (full_runs-script hook flush keeps a logs e ns (s, [])) (
          rw e (
            ap (λ x. some (x, r.1)) (sym (script_runs-logs hook flush keeps a logs e ns (s, []))))),
      rw e refl,
    )
