-- ===== src/Parser/Append.antt =====
-- Parsing line by line: text behind a newline is parsed as if it were alone.
use logd_go.Base.{
  ℕ, ◌+◌, ◌≡◌, inl, inr, refl, some, List, [], ◌∷◌, Bytes, length, ◌==◌, >>=-eq-some, arith,
  Bool-cases,
}
use logd_go.Utf8.Concat.{shift_runes}
use logd_go.Log.{Log}
use logd_go.Parser.State.{
  State, date_state, time_state, level_state, thread_state, thread_bracket_state,
  thread_no_bracket_state, class_state, call_type_state, verify_call_type_state, key_state,
  multi_key_state, value_state, date, time, level, thread, class, Parser, next_state,
}
use logd_go.Parser.Handlers.{consume_log}
use logd_go.Parser.Run.{next_named, next, end_line, step, scan}
use logd_go.Parser.Embed.{
  embed, Simulates, piece-embed, key-Simulates, multi_key-Simulates, value-Simulates,
  date-Simulates, header-Simulates, bracket-Simulates, thread-Simulates, call_type-Simulates,
  verify-Simulates,
}

module _ (pre post : Bytes) where
  named-Simulates :
      (s : State) (p : Parser) (r : ℕ)
      → Simulates pre post (next_named s p r) (next_named s (embed pre post p) r)
  unfolding next_named
  named-Simulates date_state p r h = date-Simulates pre post p r date h
  named-Simulates time_state p r h = date-Simulates pre post p r time h
  named-Simulates level_state p r h = header-Simulates pre post p r level h
  named-Simulates thread_state p r h = thread-Simulates pre post p r h
  named-Simulates thread_bracket_state p r h = bracket-Simulates pre post p r h
  named-Simulates thread_no_bracket_state p r h = header-Simulates pre post p r thread h
  named-Simulates class_state p r h = header-Simulates pre post p r class h
  named-Simulates call_type_state p r h = call_type-Simulates pre post p r h
  named-Simulates verify_call_type_state p r h = verify-Simulates pre post p r h
  named-Simulates key_state p r h = key-Simulates pre post p r h
  named-Simulates value_state p r h = value-Simulates pre post p r h
  named-Simulates multi_key_state p r h = multi_key-Simulates pre post p r h
  named-Simulates _ p r h = refl

  pub next-Simulates :
      (p : Parser) (r : ℕ) → Simulates pre post (next p r) (next (embed pre post p) r)
  unfolding next
  next-Simulates p r h =
      let q : Parser = record p { state = next_state p.state } in
      ground (arith, named-Simulates p.state p r, named-Simulates (next_state p.state) q r)

  pub step-embed :
      (i r : ℕ) (p : Parser) (logs : List Log) {q : Parser} {out : List Log}
      → step (i, r) p logs ≡ some (q, out)
      → step (length pre + i, r) (embed pre post p) logs ≡ some (embed pre post q, out)
  unfolding step end_line consume_log
  step-embed i r p logs h = elim (Bool-cases (r == b'\n')) [
    | inl e ↦
        let f : length pre + i + 1 ≡ length pre + (i + 1) = omega arith in
        ground (arith, piece-embed pre post p)
    | inr e ↦
        let (p', m, f) = >>=-eq-some (next p r) _ (rw e at h) in
        rw e (rw (next-Simulates p r (λ n. cc)) (rw m (ground arith)))
  ]

  -- The loop, over text that starts behind `pre`.
  pub scan-embed :
      (rs : List (ℕ × ℕ)) (p : Parser) (logs : List Log) {q : Parser} {out : List Log}
      → scan rs p logs ≡ some (q, out)
      → scan (shift_runes (length pre) rs) (embed pre post p) logs ≡ some (embed pre post q, out)
  unfolding scan
  scan-embed [] p logs h = ground arith
  scan-embed ((i, r) ∷ rs) p logs h =
      let (s, m, f) = >>=-eq-some (step (i, r) p logs) _ h in
      rw (step-embed i r p logs m) (scan-embed rs s.0 s.1 f)
