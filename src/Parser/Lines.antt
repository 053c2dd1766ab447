-- ===== src/Parser/Lines.antt =====
-- Parse over complete lines: behind a newline the parser is a new one, so that a text can be parsed a
-- group of lines at a time.
use logd_go.Base.{
  ℕ, ◌+◌, ◌≡◌, inl, inr, refl, some, List, [], ◌∷◌, ◌++◌, Bytes, length, drop, ◌>>=◌, >>=-eq-some,
  arith, Option-cases, append_assoc, append-nil, length-append, ◌∙◌, sym, ap,
}
use logd_go.Utf8.{runes}
use logd_go.Utf8.Newlines.{runes-InRange}
use logd_go.Utf8.Concat.{shift_runes, shift_runes_zero, runes-newline, runes_last}
use logd_go.Log.{Log, new_log}
use logd_go.Parser.State.{date_state, Parser}
use logd_go.Parser.Run.{end_line, step, scan, keep_rest, parse_chunk, new_parser}
use logd_go.Parser.Total.{IsReady, scan-Rounds}
use logd_go.Parser.Embed.{embed, drop-append_add}
use logd_go.Parser.Append.{scan-embed}

pub scan-append :
    (rs ss : List (ℕ × ℕ)) (p : Parser) (logs : List Log)
    → scan (rs ++ ss) p logs ≡ (scan rs p logs >>= λ s. scan ss s.0 s.1)
unfolding scan
scan-append [] ss p logs = refl
scan-append (ir ∷ rs) ss p logs = elim (Option-cases (step ir p logs)) [
  | inl e ↦ rw e
  | inr (s, e) ↦ rw e (scan-append rs ss s.0 s.1)
]

-- The state behind a newline at the end of the text.
abbrev at_line : Bytes → Parser
at_line c = record {
  state = date_state;
  start = length c;
  end = length c;
  raw = c;
  current = new_log;
}

step_newline :
    (n : ℕ) (p : Parser) (logs : List Log) {t : Parser} {out : List Log}
    → step (n, b'\n') p logs ≡ some (t, out)
    → t ≡ record t { state = date_state; start = n + 1; end = n + 1; current = new_log }
unfolding step end_line
step_newline n p logs h = ground arith

scan_one :
    (ir : ℕ × ℕ) (p : Parser) (logs : List Log) {s : Parser × List Log}
    → scan (ir ∷ []) p logs ≡ some s
    → step ir p logs ≡ some s
unfolding scan
scan_one ir p logs h = let (s, m, f) = >>=-eq-some (step ir p logs) _ h in m ∙ f

scan_newline :
    (rs : List (ℕ × ℕ)) (n : ℕ) (p : Parser) (logs : List Log) {t : Parser} {out : List Log}
    → scan (rs ++ ((n, b'\n') ∷ [])) p logs ≡ some (t, out)
    → t ≡ record t { state = date_state; start = n + 1; end = n + 1; current = new_log }
scan_newline rs n p logs h =
    let (s, m, f) =
      >>=-eq-some (scan rs p logs) _ (sym (scan-append rs ((n, b'\n') ∷ []) p logs) ∙ h) in
    step_newline n s.0 s.1 (scan_one (n, b'\n') s.0 s.1 f)

drop-length : (c : Bytes) → drop (length c) c ≡ []
drop-length [] = refl
drop-length (b ∷ c) = drop-length c

-- What Parse does on a chunk that ends its line.
record Line (p : Parser) (x : Bytes) (logs : List Log) : Type 0 where
  added : List Log
  scans :
      scan (runes (x ++ (b'\n' ∷ []))) (record p { raw = x ++ (b'\n' ∷ []) }) logs
      ≡ some (at_line (x ++ (b'\n' ∷ [])), logs ++ added)

line-after :
    (x : Bytes) (t : Parser)
    → t.raw ≡ x ++ (b'\n' ∷ [])
    → t
      ≡ record t { state = date_state; start = length x + 1; end = length x + 1; current = new_log }
    → t ≡ at_line (x ++ (b'\n' ∷ []))
line-after x t e f = ground (arith, length-append x (b'\n' ∷ []))

scan-Line : (p : Parser) (x : Bytes) (logs : List Log) → IsReady p → Line p x logs
scan-Line p x logs g =
    let c = x ++ (b'\n' ∷ []) in
    let t =
      scan-Rounds 0 (runes c) (record p { raw = c }) logs (omega arith) (runes-InRange c)
        (ground arith) in
    let (rs, e) = runes_last x in
    let f = scan_newline rs (length x) (record p { raw = c }) logs (rw e at t.returns) in
    record {
      added = t.added;
      scans =
          t.returns
          ∙ ap (λ (q : Parser). some (q, logs ++ t.added)) (line-after x t.after t.inv.same_raw f);
    }

-- What is left of a text that ends its line is nothing: the parser is a new one.
keep_rest-at_line : (c : Bytes) → keep_rest (at_line c) ≡ some new_parser
unfolding keep_rest
keep_rest-at_line c = ground (arith, drop-length c)

parse_chunk-Line :
    (p : Parser) (a : Bytes) (logs : List Log) (l : Line p (p.raw ++ a) logs)
    → parse_chunk p (a ++ (b'\n' ∷ [])) logs ≡ some (new_parser, logs ++ l.added)
unfolding parse_chunk
parse_chunk-Line p a logs l =
    rw (← append_assoc p.raw a (b'\n' ∷ []))
      (rw l.scans (rw (keep_rest-at_line ((p.raw ++ a) ++ (b'\n' ∷ [])))))

-- Parse on a chunk that ends with a newline leaves a new parser, with no text and no open log, and only
-- adds to the logs.
pub parse_chunk-line :
    (p : Parser) (a : Bytes) (logs : List Log)
    → IsReady p
    → (out : List Log) × (parse_chunk p (a ++ (b'\n' ∷ [])) logs ≡ some (new_parser, logs ++ out))
parse_chunk-line p a logs g =
    let l = scan-Line p (p.raw ++ a) logs g in (l.added, parse_chunk-Line p a logs l)

embed_nil :
    (c b : Bytes) (p : Parser)
    → p.start ≡ 0
    → p.end ≡ 0
    → embed [] b (record p { raw = c }) ≡ record p { raw = c ++ b }
embed_nil c b p h k = ground arith

embed-at_line : (c b : Bytes) → embed [] b (at_line c) ≡ embed c [] (record new_parser { raw = b })
embed-at_line c b = ground (arith, append-nil b)

pub keep_rest-embed : (c : Bytes) (p : Parser) → keep_rest (embed c [] p) ≡ keep_rest p
unfolding keep_rest
keep_rest-embed c p =
    ground (arith, append-nil p.raw, length-append c p.raw, drop-append_add p.start c p.raw)

-- The loop over a line and what follows it, from the loops over each alone.
scan_line-rest :
    (p : Parser) (x b : Bytes) (logs : List Log)
    → IsReady p
    → (out : List Log) (u : Parser) (all : List Log)
    → scan (runes (x ++ (b'\n' ∷ []))) (record p { raw = x ++ (b'\n' ∷ []) }) logs
      ≡ some (at_line (x ++ (b'\n' ∷ [])), out)
    → scan (runes b) (record new_parser { raw = b }) out ≡ some (u, all)
    → scan (runes (x ++ (b'\n' ∷ b))) (record p { raw = x ++ (b'\n' ∷ b) }) logs
      ≡ some (embed (x ++ (b'\n' ∷ [])) [] u, all)
scan_line-rest p x b logs g out u all first second =
    let c = x ++ (b'\n' ∷ []) in
    let one = scan-embed [] b (runes c) (record p { raw = c }) logs first in
    let two = scan-embed c [] (runes b) (record new_parser { raw = b }) out second in
    let one' =
      rw (shift_runes_zero (runes c), embed_nil c b p g.at_start g.at_end, embed-at_line c b) at
        one in
    rw (runes-newline x b) (
      rw (← append_assoc x (b'\n' ∷ []) b) (
        scan-append (runes c) (shift_runes (length c) (runes b)) (record p { raw = c ++ b }) logs
        ∙ rw one' two))

-- Parse on a chunk with a newline in it does what Parse on the part up to the newline and then on the
-- rest does: to cut the input behind a line changes neither the logs nor the parser.
pub parse_chunk-append :
    (p : Parser) (a b : Bytes) (logs : List Log)
    → IsReady p
    → parse_chunk p (a ++ (b'\n' ∷ b)) logs
      ≡ (parse_chunk p (a ++ (b'\n' ∷ [])) logs >>= λ s. parse_chunk s.0 b s.1)
unfolding parse_chunk
parse_chunk-append p a b logs g =
    let x = p.raw ++ a in
    let c = x ++ (b'\n' ∷ []) in
    let l = scan-Line p x logs g in
    let t =
      scan-Rounds 0 (runes b) (record new_parser { raw = b }) (logs ++ l.added) (omega arith)
        (runes-InRange b) (ground arith) in
    rw (parse_chunk-Line p a logs l) (
      rw (← append_assoc p.raw a (b'\n' ∷ b)) (
        rw
          (scan_line-rest p x b logs g (logs ++ l.added) t.after (logs ++ l.added ++ t.added)
            l.scans t.returns)
          (rw t.returns (rw (keep_rest-embed c t.after)))))
