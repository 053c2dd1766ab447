-- ===== src/Parser/Total.antt =====
-- Parse returns on every text: the dispatch and the loop keep the invariant of Safety.
use logd_go.Base.{
  ℕ, ◌+◌, ◌-◌, ◌≤◌, ◌<◌, ◌≡◌, ◌≢◌, inl, inr, refl, true, false, Option, none, some, List, [], ◌∷◌,
  ◌++◌, Bytes, length, drop, take, count, ◌==◌, if◌then◌else◌, arith, Bool-cases, append_assoc,
  append-nil, length-append, ◌∙◌,
}
use logd_go.Utf8.{runes}
use logd_go.Utf8.Newlines.{InRange, runes-InRange, newlines, newlines-runes}
use logd_go.Log.{Log, new_log}
use logd_go.Parser.State.{
  State, date_state, time_state, level_state, thread_state, thread_bracket_state,
  thread_no_bracket_state, class_state, call_type_state, verify_call_type_state, key_state,
  multi_key_state, value_state, date, time, level, thread, class, Parser, next_state,
}
use logd_go.Parser.Handlers.{consume_log, remains_message, last_value, set_last_value}
use logd_go.Parser.Run.{
  next_named, is_transition, next, end_line, step, scan, keep_rest, parse_chunk, new_parser, parse,
}
use logd_go.Parser.Safety.{
  has_key, Inv, Good, piece_ok, handle_next_key-Good, handle_next_date-Good,
  handle_next_header-Good, handle_next_thread_bracket-Good, handle_next_value-Good,
  handle_next_multi_key-Good, handle_next_thread-Good, handle_next_call_type-Good,
  verify_call_type-Good,
}

-- Behind a transition stands a named state with no special demand.
transition_lem :
    (s : State)
    → is_transition s ≡ true
    → (is_transition (next_state s) ≡ false)
      × (has_key s ≡ false)
      × (has_key (next_state s) ≡ false)
      × (s ≢ multi_key_state)
      × (next_state s ≢ multi_key_state)
unfolding is_transition next_state
transition_lem s h = ground arith

module _ {i : ℕ} {raw : Bytes} (r : ℕ) where
  next_named-Good :
      (s : State) (p : Parser)
      → Inv i raw p
      → i < length raw
      → p.state ≡ s
      → is_transition s ≡ false
      → Good (i + 1) raw (next_named s p r)
  unfolding next_named
  next_named-Good date_state p v h e t =
      handle_next_date-Good p r v h date (ground arith) (ground arith) (ground arith)
  next_named-Good time_state p v h e t =
      handle_next_date-Good p r v h time (ground arith) (ground arith) (ground arith)
  next_named-Good level_state p v h e t =
      handle_next_header-Good p r v h level (ground arith) (ground arith) (ground arith)
  next_named-Good thread_state p v h e t = handle_next_thread-Good p r v h e
  next_named-Good thread_bracket_state p v h e t = handle_next_thread_bracket-Good p r v h e
  next_named-Good thread_no_bracket_state p v h e t =
      handle_next_header-Good p r v h thread (ground arith) (ground arith) (ground arith)
  next_named-Good class_state p v h e t =
      handle_next_header-Good p r v h class (ground arith) (ground arith) (ground arith)
  next_named-Good call_type_state p v h e t = handle_next_call_type-Good p r v h e
  next_named-Good verify_call_type_state p v h e t = verify_call_type-Good p r v h e
  next_named-Good key_state p v h e t = handle_next_key-Good p r v h (inl e)
  next_named-Good value_state p v h e t =
      handle_next_value-Good p r v h (v.keyed (ground arith)) (ground arith)
  next_named-Good multi_key_state p v h e t = handle_next_multi_key-Good p r v h e
  next_named-Good _ p v h e t = ground arith

  pub next-Good : (p : Parser) → Inv i raw p → i < length raw → Good (i + 1) raw (next p r)
  unfolding next
  next-Good p v h = elim (Bool-cases (is_transition p.state)) [
    | inl t ↦
        let (a, b, c, d, e) = transition_lem p.state t in
        let q : Parser = record p { state = next_state p.state } in
        let w : Inv i raw q = ground arith in
        rw t (ground (arith, next_named-Good (next_state p.state) q w h refl a))
    | inr n ↦ rw n (next_named-Good p.state p v h refl n)
  ]

pub Good-some :
    {i : ℕ} {raw : Bytes} (o : Option Parser)
    → Good i raw o
    → (p : Parser) × (o ≡ some p) × Inv i raw p
Good-some none g = elim g [ ]
Good-some (some p) g = (p, refl, g)

-- A round of the loop at byte `i`: it returns, and adds a log if the rune is a newline.
pub record Round (i r : ℕ) (raw : Bytes) (p : Parser) (logs : List Log) : Type 0 where
  pub after : Parser
  pub added : List Log
  pub returns : step (i, r) p logs ≡ some (after, logs ++ added)
  pub inv : Inv (i + 1) raw after
  pub adds : length added ≡ (if r == b'\n' then 1 else 0)

pub consume_log_ok :
    {i : ℕ} {raw : Bytes} (p : Parser)
    → Inv i raw p
    → i < length raw
    → (l : Log) × (consume_log p ≡ some (record p { current = l }))
unfolding consume_log
consume_log_ok p v h =
    let k = take (p.end - p.start) (drop p.start p.raw) in
    let l =
      if remains_message (last_value p.current.props)
      then record p.current { message = k }
      else record p.current { props = set_last_value p.current.props k } in
    (l, ground (arith, piece_ok p v))

step-Round_newline :
    (i r : ℕ) {raw : Bytes} (p : Parser) (logs : List Log)
    → r == b'\n' ≡ true
    → Inv i raw p
    → i < length raw
    → Round i r raw p logs
unfolding step end_line
step-Round_newline i r p logs e v h =
    let (l, f) = consume_log_ok p v h in
    record {
      after = record p { start = i + 1; end = i + 1; state = date_state; current = new_log };
      added = l ∷ [];
      returns = rw e (rw f);
      inv = ground arith;
      adds = ground arith;
    }

pub step-Round :
    (i r : ℕ) {raw : Bytes} (p : Parser) (logs : List Log)
    → Inv i raw p
    → i < length raw
    → Round i r raw p logs
unfolding step
step-Round i r p logs v h = elim (Bool-cases (r == b'\n')) [
  | inl e ↦ step-Round_newline i r p logs e v h
  | inr e ↦
      let (q, f, w) = Good-some (next p r) (next-Good r p v h) in
      record {
        after = q;
        added = [];
        returns = rw e (rw f (rw append-nil));
        inv = w;
        adds = ground arith;
      }
]

-- The whole loop: it returns, and adds a log for each newline.
pub record Rounds (rs : List (ℕ × ℕ)) (raw : Bytes) (p : Parser) (logs : List Log) : Type 0 where
  pub after : Parser
  pub added : List Log
  pub returns : scan rs p logs ≡ some (after, logs ++ added)
  pub inv : Inv (length raw) raw after
  pub adds : length added ≡ newlines rs

pub scan-Rounds :
    (i : ℕ) (rs : List (ℕ × ℕ)) {raw : Bytes} (p : Parser) (logs : List Log)
    → i ≤ length raw
    → InRange i (length raw) rs
    → Inv i raw p
    → Rounds rs raw p logs
unfolding scan
scan-Rounds i [] p logs h o v = record {
  after = p;
  added = [];
  returns = rw append-nil;
  inv = ground arith;
  adds = refl;
}
scan-Rounds i ((j, r) ∷ rs) p logs h o v =
    let s = step-Round j r p logs (ground arith) o.1 in
    let t = scan-Rounds (j + 1) rs s.after (logs ++ s.added) (omega arith) o.2 s.inv in
    record {
      after = t.after;
      added = s.added ++ t.added;
      returns = rw s.returns (t.returns ∙ rw append_assoc);
      inv = t.inv;
      adds = omega (arith, s.adds, t.adds, length-append s.added t.added);
    }

-- A parser between two calls of Parse that can take any chunk.
pub record IsReady (p : Parser) : Type 0 where
  pub at_start : p.start ≡ 0
  pub at_end : p.end ≡ 0
  pub not_multi : p.state ≢ multi_key_state
  pub keyed : has_key p.state ≡ true → p.current.props ≢ []

pub start-Inv :
    (p : Parser) (chunk : Bytes)
    → IsReady p
    → Inv 0 (p.raw ++ chunk) (record p { raw = p.raw ++ chunk })
start-Inv p chunk g = ground arith

pub keep_rest_ok :
    {raw : Bytes} (p : Parser)
    → Inv (length raw) raw p
    → keep_rest p ≡ some (record p { raw = drop p.start p.raw; start = 0; end = 0 })
unfolding keep_rest
keep_rest_ok p v = ground arith

-- Parse on a parser that is not left behind a colon: it returns, adding one log for each newline of the
-- text kept from before and of the chunk, and leaves a parser that can take any further chunk unless
-- that one is left behind a colon in a value.
pub parse_chunk_total :
    (p : Parser) (chunk : Bytes) (logs : List Log)
    → IsReady p
    → (p' : Parser) × (out : List Log) × (parse_chunk p chunk logs ≡ some (p', logs ++ out))
      × (length out ≡ count b'\n' (p.raw ++ chunk))
      × (p'.state ≢ multi_key_state → IsReady p')
unfolding parse_chunk
parse_chunk_total p chunk logs g =
    let raw = p.raw ++ chunk in
    let t =
      scan-Rounds 0 (runes raw) (record p { raw = raw }) logs (omega arith) (runes-InRange raw)
        (start-Inv p chunk g) in
    (
      record t.after { raw = drop t.after.start t.after.raw; start = 0; end = 0 },
      t.added,
      rw t.returns (rw (keep_rest_ok t.after t.inv)),
      omega (arith, t.adds, newlines-runes raw),
      λ n. record { at_start = refl; at_end = refl; not_multi = n; keyed = t.inv.keyed },
    )

-- The function Parse returns on every text, with exactly one log for each newline.
pub parse_total :
    (raw : Bytes) → (out : List Log) × (parse raw ≡ some out) × (length out ≡ count b'\n' raw)
unfolding parse
parse_total raw =
    let (p, out, e, n, _) = parse_chunk_total new_parser raw [] (ground arith) in (out, rw e, n)

scan_panics :
    (p : Parser) (rest : Bytes) (logs : List Log)
    → p.state ≡ multi_key_state
    → p.end ≡ 0
    → scan (runes (b' ' ∷ rest)) p logs ≡ none
unfolding scan runes
scan_panics p rest logs s e = ground arith

-- A parser that is left behind a colon in a value, and whose text begins with a space: Parse panics.
pub parse_chunk_panics :
    (p : Parser) (chunk rest : Bytes) (logs : List Log)
    → p.state ≡ multi_key_state
    → p.end ≡ 0
    → p.raw ++ chunk ≡ b' ' ∷ rest
    → parse_chunk p chunk logs ≡ none
unfolding parse_chunk
parse_chunk_panics p chunk rest logs s e h =
    rw h (rw (scan_panics (record p { raw = b' ' ∷ rest }) rest logs s e))
