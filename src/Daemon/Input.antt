-- ===== src/Daemon/Input.antt =====
-- cmd/logd/main.go: runPipeline over an input that arrives line by line against one call of Parse on the
-- whole input (logging/parse.go).
use logd_go.Base.{
  ◌≡◌, ◌∙◌, refl, Bool, Option, none, some, List, [], ◌∷◌, ◌++◌, Bytes, if◌then◌else◌, ◌>>=◌,
  Option-cases, inl, inr, arith,
}
use logd_go.Log.{Log}
use logd_go.Parser.Run.{parse_chunk, new_parser, parse}
use logd_go.Parser.Total.{IsReady, parse_total}
use logd_go.Parser.Lines.{parse_chunk-line}
use logd_go.Parser.Batch.{parse-append}
use logd_go.Daemon.Pipeline.{
  Failure, exit_with, feed, feed_next, after_feed, read_loop, run_pipeline,
}

-- Reads that each end with a line, and a last one; and the text that they make up.
abbrev pub line_reads : List Bytes → Bytes → List Bytes
line_reads [] b = b ∷ []
line_reads (a ∷ rest) b = (a ++ (b'\n' ∷ [])) ∷ line_reads rest b

abbrev pub joined : List Bytes → Bytes → Bytes
joined [] b = b
joined (a ∷ rest) b = a ++ (b'\n' ∷ joined rest b)

parse-chunk : (b : Bytes) → parse b ≡ (parse_chunk new_parser b [] >>= λ r. some r.1)
unfolding parse
parse-chunk b = refl

-- The logs of a line and of what follows it.
parse-line_rest :
    (a rest : Bytes) {one two : List Log}
    → parse_chunk new_parser (a ++ (b'\n' ∷ [])) [] ≡ some (new_parser, one)
    → parse rest ≡ some two
    → parse (a ++ (b'\n' ∷ rest)) ≡ some (one ++ two)
parse-line_rest a rest e f =
    parse-append a rest ∙ rw (parse-chunk (a ++ (b'\n' ∷ []))) (rw e (rw f refl))

-- What is left and sent to `exit` behind the logs of the whole input.
abbrev pub exit_after {ℓ κ} :
    {S : Type ℓ} {E : Type κ} → Failure E → S × Option (Failure E) → S × Option E
exit_after end (s, some e) = (s, exit_with e)
exit_after end (s, none) = (s, exit_with end)

module _ {ℓ κ} {S : Type ℓ} {E : Type κ} (on_log : Log → S → S × Option (Failure E)) where
  -- The logs of one read and those behind it, after the first log `r` was handed over.
  feed_next-append :
      (end : Failure E) (xs ys : List Log) (r : S × Option (Failure E))
      → after_feed
          (feed on_log xs r.0)
          (some (exit_after end (feed on_log ys (feed on_log xs r.0).0)))
        ≡ some (exit_after end (feed on_log (xs ++ ys) r.0))
      → after_feed
          (feed_next r (feed on_log xs r.0))
          (some (exit_after end (feed on_log ys (feed_next r (feed on_log xs r.0)).0)))
        ≡ some (exit_after end (feed_next r (feed on_log (xs ++ ys) r.0)))
  unfolding after_feed feed_next
  feed_next-append end xs ys (t, some e) h = refl
  feed_next-append end xs ys (t, none) h = h

  pub after_feed-append :
      (end : Failure E) (xs ys : List Log) (s : S)
      → after_feed (feed on_log xs s) (some (exit_after end (feed on_log ys (feed on_log xs s).0)))
        ≡ some (exit_after end (feed on_log (xs ++ ys) s))
  unfolding feed after_feed
  after_feed-append end [] ys s = refl
  after_feed-append end (x ∷ xs) ys s =
      feed_next-append end xs ys (on_log x s) (after_feed-append end xs ys (on_log x s).0)

  pub after_feed-nil :
      (end : Failure E) (r : S × Option (Failure E))
      → after_feed r (some (r.0, exit_with end)) ≡ some (exit_after end r)
  unfolding after_feed
  after_feed-nil end (s, some e) = refl
  after_feed-nil end (s, none) = refl

  read_loop-lines :
      (lines : List Bytes) (b : Bytes) (end : Failure E) (s : S)
      → read_loop on_log (line_reads lines b) end new_parser s
        ≡ (parse (joined lines b) >>= λ logs. some (exit_after end (feed on_log logs s)))
  unfolding read_loop
  read_loop-lines [] b end s =
      rw (parse-chunk b) (elim (Option-cases (parse_chunk new_parser b [])) [
        | inl e ↦ rw e refl
        | inr e ↦ rw e.1 (after_feed-nil end (feed on_log e.0.1 s))
      ])
  read_loop-lines (a ∷ rest) b end s =
      let ready : IsReady new_parser = ground arith in
      let (one, e) = parse_chunk-line new_parser a [] ready in
      let (two, f, _) = parse_total (joined rest b) in
      let t = (feed on_log one s).0 in
      let h = read_loop-lines rest b end t in
      rw e
        (rw h (rw f (rw (parse-line_rest a (joined rest b) e f) (after_feed-append end one two s))))

-- runPipeline on an input that arrives in reads that each end with a line, and a last read of any text,
-- returns. It hands the logs that one call of Parse gives for the whole input to the hook of the
-- sandbox's mode, in order, up to the first error of the hook; what it sends to `exit` is that error, or
-- else the one that ended the reads, and nothing where that is the end of the input.
pub run_pipeline-lines {ℓ κ} :
    {S : Type ℓ} {E : Type κ} (protected : Bool)
    (protected_call call : Log → S → S × Option (Failure E)) (lines : List Bytes) (b : Bytes)
    (end : Failure E) (s : S)
    → (logs : List Log) × (parse (joined lines b) ≡ some logs)
      × (run_pipeline protected protected_call call (line_reads lines b) end s
          ≡ some (exit_after end (feed (if protected then protected_call else call) logs s)))
unfolding run_pipeline
run_pipeline-lines protected protected_call call lines b end s =
    let (logs, e, _) = parse_total (joined lines b) in
    (
      logs,
      e,
      read_loop-lines (if protected then protected_call else call) lines b end s ∙ rw e refl,
    )
