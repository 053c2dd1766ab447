-- ===== src/Parser/Run.antt =====
-- logging/parse.go: the dispatch of `next`, the loop of Parse, and the parser's life cycle.
use logd_go.Base.{
  ℕ, ◌+◌, Bool, true, false, Option, none, some, List, [], ◌∷◌, ◌++◌, Bytes, length, drop, leb,
  ◌==◌, if◌then◌else◌, ◌>>=◌,
}
use logd_go.Utf8.{runes}
use logd_go.Log.{Log, new_log}
use logd_go.Parser.State.{
  State, date_state, time_state, transition_level_state, level_state, transition_thread_state,
  thread_state, thread_bracket_state, thread_no_bracket_state, transition_class_state, class_state,
  transition_call_type_state, call_type_state, verify_call_type_state, key_state, multi_key_state,
  value_state, Field, Parser, next_state,
}
use logd_go.Parser.Handlers.{
  handle_next_date, handle_next_header, handle_next_thread, handle_next_thread_bracket,
  handle_next_call_type, verify_call_type, handle_next_key, handle_next_value,
  handle_next_multi_key, handle_transition, consume_log,
}

-- The named cases of `next`.
unfoldable pub next_named : State → Parser → ℕ → Option Parser
unfolding handle_next_date handle_next_header handle_next_thread handle_next_thread_bracket
    handle_next_call_type verify_call_type handle_next_key handle_next_value handle_next_multi_key
next_named date_state p r = handle_next_date Field.date p r
next_named time_state p r = handle_next_date Field.time p r
next_named level_state p r = handle_next_header Field.level p r
next_named thread_state p r = handle_next_thread p r
next_named thread_bracket_state p r = handle_next_thread_bracket p r
next_named thread_no_bracket_state p r = handle_next_header Field.thread p r
next_named class_state p r = handle_next_header Field.class p r
next_named call_type_state p r = handle_next_call_type p r
next_named verify_call_type_state p r = verify_call_type p r
next_named key_state p r = handle_next_key p r
next_named value_state p r = handle_next_value p r
next_named multi_key_state p r = handle_next_multi_key p r
next_named _ p r = some p

unfoldable pub is_transition : State → Bool
is_transition transition_level_state = true
is_transition transition_thread_state = true
is_transition transition_class_state = true
is_transition transition_call_type_state = true
is_transition _ = false

-- The `default` of `next`. The state behind a transition is a named one, so the recursion ends there.
unfoldable pub next_transition : Parser × Bool → ℕ → Option Parser
unfolding next_named
next_transition (p, again) r = if again then next_named p.state p r else some p

unfoldable pub next : Parser → ℕ → Option Parser
unfolding is_transition next_transition next_named handle_transition next_state
next p r =
    if is_transition p.state
    then next_transition (handle_transition p r) r
    else next_named p.state p r

-- The newline case of the loop of Parse.
unfoldable pub end_line : ℕ → Parser → Option (Parser × Log)
unfolding consume_log
end_line i p = do
  p' ← consume_log p
  some (record p' { start = i + 1; end = i + 1; state = date_state; current = new_log }, p'.current)

-- One round of the loop of Parse, at the rune `r` that begins at byte `i`.
unfoldable pub step : ℕ × ℕ → Parser → List Log → Option (Parser × List Log)
unfolding end_line next
step (i, r) p logs =
    if r == b'\n'
    then (do done ← end_line i p; some (done.0, logs ++ done.1 ∷ []))
    else (do p' ← next p r; some (p', logs))

unfoldable pub scan : List (ℕ × ℕ) → Parser → List Log → Option (Parser × List Log)
unfolding step
scan [] p logs = some (p, logs)
scan (ir ∷ rs) p logs = do s ← step ir p logs; scan rs s.0 s.1

-- `p.raw = p.raw[p.start:]; p.start, p.end = 0, 0`
unfoldable pub keep_rest : Parser → Option Parser
keep_rest p =
    if leb p.start (length p.raw)
    then some (record p { raw = drop p.start p.raw; start = 0; end = 0 })
    else none

-- The method Parse.
unfoldable pub parse_chunk : Parser → Bytes → List Log → Option (Parser × List Log)
parse_chunk p chunk logs = do
  let raw = p.raw ++ chunk
  s ← scan (runes raw) (record p { raw = raw }) logs
  p' ← keep_rest s.0
  some (p', s.1)

-- The zero Parser has an empty `current` and no text.
unfoldable pub reset : Parser → Parser
reset p = record p { state = date_state; start = 0; end = 0 }

abbrev pub new_parser : Parser
new_parser = record { state = date_state; start = 0; end = 0; raw = []; current = new_log }

-- The function Parse.
unfoldable pub parse : Bytes → Option (List Log)
parse raw = do s ← parse_chunk new_parser raw []; some s.1
