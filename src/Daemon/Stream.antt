-- ===== src/Daemon/Stream.antt =====
-- cmd/logd/main.go: runPipeline over an input that arrives in reads of any size against one call of Parse on the
-- whole input (logging/parse.go).
use logd_go.Base.{
  ◌≡◌, ◌∙◌, refl, sym, ap, Bool, true, Option, none, some, List, [], ◌∷◌, ◌++◌, Bytes, All,
  if◌then◌else◌, append-nil, >>=-eq-some, arith, Option-cases, inl, inr,
}
use logd_go.Utf8.{runes}
use logd_go.Log.{Log}
use logd_go.Parser.State.{Parser}
use logd_go.Parser.Run.{parse_chunk, new_parser, parse}
use logd_go.Parser.Total.{IsReady, parse_chunk_total}
use logd_go.Parser.Batch.{behind, parse_chunk-behind}
use logd_go.Parser.Cut.{IsAscii, regular}
use logd_go.Parser.Cut.Stream.{parse_all, concat, parse_all-concat}
use logd_go.Daemon.Pipeline.{Failure, feed, read_loop, run_pipeline}
use logd_go.Daemon.Input.{exit_after, after_feed-append}

parse_all-behind :
    (pre : List Log) (reads : List Bytes) (p : Parser) (logs : List Log)
    → parse_all reads p (pre ++ logs) ≡ behind pre (parse_all reads p logs)
unfolding parse_all
parse_all-behind pre [] p logs = refl
parse_all-behind pre (c ∷ cs) p logs =
    rw (parse_chunk-behind pre p c logs) (elim (Option-cases (parse_chunk p c logs)) [
      | inl e ↦ rw e refl
      | inr e ↦ rw e.1 (parse_all-behind pre cs e.0.0 e.0.1)
    ])

behind-some :
    (pre : List Log) (o : Option (Parser × List Log)) {q : Parser} {out : List Log}
    → behind pre o ≡ some (q, out)
    → (two : List Log) × (o ≡ some (q, two)) × (out ≡ pre ++ two)
behind-some pre none e = cc
behind-some pre (some (p, logs)) e = (logs, ground arith, ground arith)

parse_all_step :
    (c : Bytes) (cs : List Bytes) (p : Parser) {q : Parser} {logs : List Log}
    → parse_all (c ∷ cs) p [] ≡ some (q, logs)
    → (p' : Parser) × (one : List Log) × (two : List Log) × (parse_chunk p c [] ≡ some (p', one))
      × (parse_all cs p' [] ≡ some (q, two))
      × (logs ≡ one ++ two)
unfolding parse_all
parse_all_step c cs p h =
    let (s, e, f) = >>=-eq-some (parse_chunk p c []) _ h in
    let g = ap (λ x. parse_all cs s.0 x) (append-nil s.1) in
    let (two, k, l) =
      behind-some s.1 (parse_all cs s.0 []) (sym (parse_all-behind s.1 cs s.0 []) ∙ g ∙ f) in
    (s.0, s.1, two, e, k, l)

module _ {ℓ κ} {S : Type ℓ} {E : Type κ} (on_log : Log → S → S × Option (Failure E)) where
  read_loop-parse_all :
      (reads : List Bytes) (end : Failure E) (p : Parser) (s : S) {q : Parser} {logs : List Log}
      → parse_all reads p [] ≡ some (q, logs)
      → read_loop on_log reads end p s ≡ some (exit_after end (feed on_log logs s))
  unfolding read_loop
  read_loop-parse_all [] end p s {q} {logs} h =
      let e : logs ≡ [] = unfold parse_all in ground arith in rw e (unfold feed in refl)
  read_loop-parse_all (c ∷ cs) end p s h =
      let (p', one, two, e, f, g) = parse_all_step c cs p h in
      rw e (
        rw (read_loop-parse_all cs end p' (feed on_log one s).0 f)
          (rw g (after_feed-append on_log end one two s)))

pub run_pipeline-concat {ℓ κ} :
    {S : Type ℓ} {E : Type κ} (protected : Bool)
    (protected_call call : Log → S → S × Option (Failure E)) (a : Bytes) (cs : List Bytes)
    (b : Bytes) (end : Failure E) (s : S)
    → All IsAscii (a ++ concat cs)
    → regular (runes (a ++ concat cs)) (record new_parser { raw = a ++ concat cs }) ≡ true
    → (logs : List Log) × (parse (a ++ (concat cs ++ b)) ≡ some logs)
      × (run_pipeline protected protected_call call (a ∷ (cs ++ b ∷ [])) end s
          ≡ some (exit_after end (feed (if protected then protected_call else call) logs s)))
unfolding run_pipeline parse
run_pipeline-concat protected protected_call call a cs b end s h k =
    let ready : IsReady new_parser = ground arith in
    let (q, logs, e, _, _) = parse_chunk_total new_parser (a ++ (concat cs ++ b)) [] ready in
    (
      logs,
      rw e refl,
      read_loop-parse_all (if protected then protected_call else call) (a ∷ (cs ++ b ∷ [])) end
          new_parser s (parse_all-concat new_parser [] b ready a cs h k ∙ e),
    )
