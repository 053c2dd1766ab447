-- ===== src/Parser/Batch.antt =====
-- The function Parse over texts of several lines, and over the text forms of several logs.
use logd_go.Base.{
  ℕ, ◌≡◌, refl, Option, none, some, List, [], ◌∷◌, ◌++◌, Bytes, All, ◌∙◌, append_assoc, append-nil,
  ◌>>=◌, arith, Bool-cases, inl, inr, ◌==◌, Option-cases,
}
use logd_go.Utf8.{runes}
use logd_go.Log.{Log}
use logd_go.Log.Serialize.{string}
use logd_go.Parser.State.{Parser}
use logd_go.Parser.Run.{next, end_line, step, scan, keep_rest, parse_chunk, new_parser, parse}
use logd_go.Parser.Total.{IsReady, parse_chunk_total}
use logd_go.Parser.Lines.{parse_chunk-line, parse_chunk-append}
use logd_go.Parser.RoundTrip.{IsPrintable, read_back, parse-string}

module _ (pre : List Log) where
  -- The same result with more logs in front.
  abbrev pub behind : Option (Parser × List Log) → Option (Parser × List Log)
  behind none = none
  behind (some (p, logs)) = some (p, pre ++ logs)

  step-behind :
      (ir : ℕ × ℕ) (p : Parser) (logs : List Log)
      → step ir p (pre ++ logs) ≡ behind (step ir p logs)
  unfolding step
  step-behind (i, r) p logs = elim (Bool-cases (r == b'\n')) [
    | inl n ↦ rw n (elim (Option-cases (end_line i p)) [
      | inl e ↦ rw e refl
      | inr e ↦ rw e.1 (rw append_assoc refl)
    ])
    | inr n ↦ rw n (elim (Option-cases (next p r)) [ inl e ↦ rw e refl | inr e ↦ rw e.1 refl ])
  ]

  scan-behind :
      (rs : List (ℕ × ℕ)) (p : Parser) (logs : List Log)
      → scan rs p (pre ++ logs) ≡ behind (scan rs p logs)
  unfolding scan
  scan-behind [] p logs = refl
  scan-behind (ir ∷ rs) p logs = rw (step-behind ir p logs) (elim (Option-cases (step ir p logs)) [
    | inl e ↦ rw e refl
    | inr e ↦ rw e.1 (scan-behind rs e.0.0 e.0.1)
  ])

  pub parse_chunk-behind :
      (p : Parser) (chunk : Bytes) (logs : List Log)
      → parse_chunk p chunk (pre ++ logs) ≡ behind (parse_chunk p chunk logs)
  unfolding parse_chunk
  parse_chunk-behind p chunk logs =
      let q = record p { raw = p.raw ++ chunk } in
      rw (scan-behind (runes q.raw) q logs) (elim (Option-cases (scan (runes q.raw) q logs)) [
        | inl e ↦ rw e refl
        | inr e ↦
            rw e.1
              (elim (Option-cases (keep_rest e.0.0)) [ inl f ↦ rw f refl | inr f ↦ rw f.1 refl ])
      ])

-- Parse on a text with a newline in it gives the logs of the part up to the newline, and then those of
-- the rest.
pub parse-append :
    (a b : Bytes)
    → parse (a ++ (b'\n' ∷ b))
      ≡ (parse (a ++ (b'\n' ∷ [])) >>= λ one. parse b >>= λ two. some (one ++ two))
unfolding parse
parse-append a b =
    let ready : IsReady new_parser = ground arith in
    let (one, e) = parse_chunk-line new_parser a [] ready in
    let (q, two, f, _, _) = parse_chunk_total new_parser b [] ready in
    rw (parse_chunk-append new_parser a b [] ready)
      (rw e (rw f (rw (rw append-nil at (parse_chunk-behind one new_parser b [])) (rw f refl))))

-- The text of the logs, each on a line of its own.
abbrev pub lines : List Log → Bytes
lines [] = []
lines (l ∷ ls) = string l ++ (b'\n' ∷ lines ls)

abbrev pub read_all : List Log → List Log
read_all [] = []
read_all (l ∷ ls) = read_back l ∷ read_all ls

parse-nil : parse [] ≡ some []
unfolding parse parse_chunk scan runes keep_rest
parse-nil = refl

-- Parse on the text forms of printable logs, a newline behind each, gives those logs back in order.
pub parse-lines : (ls : List Log) → All IsPrintable ls → parse (lines ls) ≡ some (read_all ls)
parse-lines [] h = parse-nil
parse-lines (l ∷ ls) h =
    parse-append (string l) (lines ls) ∙ rw (parse-string l h.0) (rw (parse-lines ls h.1))
