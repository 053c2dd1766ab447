-- ===== src/Parser/Cut/Scan.antt =====
-- logging/parse.go: the loop of Parse over a text without an odd character keeps what it needs to read the open
-- field again.
use logd_go.Base.{
  ℕ, ◌+◌, ◌≡◌, inl, inr, refl, sym, subst, ap, ◌∙◌, true, false, some, List, [], ◌∷◌, ◌++◌, Bytes,
  length, ◌==◌, arith, append_assoc, append-nil, length-append, Bool-cases,
}
use logd_go.Log.{Log, new_log}
use logd_go.Parser.State.{State, date_state, Parser}
use logd_go.Parser.Run.{next, end_line, step, scan}
use logd_go.Parser.Total.{consume_log_ok}
use logd_go.Parser.Cut.{indexed, odd_in, odd, parser_after, regular, fresh-Kept}
use logd_go.Parser.Cut.Field.{at, Open, at-Inv, next-Stepped}

-- The text behind the field, read to its end.
pub record Scanned (x : Bytes) (rs : List (ℕ × ℕ)) (p : Parser) (logs : List Log) : Type 0 where
  pub pre : Bytes
  pub st : State
  pub cur : Log
  pub w : Bytes
  pub out : List Log
  pub scans : scan rs p logs ≡ some (at pre st cur w [], out)
  pub same : pre ++ w ≡ x
  pub open' : Open st cur w

step-next :
    (i r : ℕ) (p q : Parser) (logs : List Log)
    → (r == b'\n') ≡ false
    → next p r ≡ some q
    → step (i, r) p logs ≡ some (q, logs)
unfolding step
step-next i r p q logs e f = rw e (rw f refl)

step_line :
    (i r : ℕ) (p q : Parser) (l : Log) (logs : List Log)
    → (r == b'\n') ≡ true
    → end_line i p ≡ some (q, l)
    → step (i, r) p logs ≡ some (q, logs ++ l ∷ [])
unfolding step
step_line i r p q l logs e f = rw e (rw f refl)

scan-step :
    (ir : ℕ × ℕ) (rs : List (ℕ × ℕ)) (p : Parser) (logs : List Log) (s : Parser × List Log)
    → step ir p logs ≡ some s
    → scan (ir ∷ rs) p logs ≡ scan rs s.0 s.1
unfolding scan
scan-step ir rs p logs s e = rw e refl

-- The newline: the next field is the date of the next line.
end_line-at :
    (pre : Bytes) (st : State) (cur : Log) (w : Bytes) (r : ℕ) (post : Bytes)
    → Open st cur w
    → (l : Log) × (end_line (length pre + length w) (at pre st cur w (r ∷ post))
        ≡ some (at (pre ++ (w ++ r ∷ [])) date_state new_log [] post, l))
unfolding end_line
end_line-at pre st cur w r post o =
    let p = at pre st cur w (r ∷ post) in
    let (l, e) =
      consume_log_ok p (at-Inv pre st cur w (r ∷ post) o)
        (omega (arith, length-append pre (w ++ (r ∷ post)), length-append w (r ∷ post))) in
    (
      l,
      ground (
        arith,
        e,
        append_assoc w (r ∷ []) post,
        append_assoc pre (w ++ r ∷ []) post,
        length-append w (r ∷ []),
        length-append pre (w ++ r ∷ []),
      ),
    )

pub regular_step :
    (i r : ℕ) (rs : List (ℕ × ℕ)) (p q : Parser)
    → regular ((i, r) ∷ rs) p ≡ true
    → parser_after i r p ≡ some q
    → (odd p r ≡ false) × (regular rs q ≡ true)
unfolding regular
regular_step i r rs p q h e = ground (arith, rw e at h)

pub regular-odd :
    (i r : ℕ) (rs : List (ℕ × ℕ)) (p : Parser) → regular ((i, r) ∷ rs) p ≡ true → odd p r ≡ false
unfolding regular
regular-odd i r rs p h = ground (arith, h)

odd-at :
    (pre : Bytes) (st : State) (cur : Log) (w : Bytes) (r : ℕ) (post : Bytes)
    → odd (at pre st cur w post) r ≡ odd_in st (0 == length w) r
odd-at pre st cur w r post =
    let e : (length pre == length pre + length w) ≡ (0 == length w) = ground arith in
    ap (λ b. odd_in st b r) e

same_text :
    (pre w : Bytes) (r : ℕ) (post : Bytes)
    → (pre ++ (w ++ r ∷ [])) ++ post ≡ pre ++ (w ++ (r ∷ post))
same_text pre w r post =
    append_assoc pre (w ++ r ∷ []) post ∙ ap (◌++◌ pre) (append_assoc w (r ∷ []) post)

Scanned-step :
    (i k r : ℕ) (x y post : Bytes) (p q : Parser) (logs logs' : List Log)
    → step (i, r) p logs ≡ some (q, logs')
    → k ≡ i + 1
    → y ≡ x
    → Scanned y (indexed k post) q logs'
    → Scanned x (indexed i (r ∷ post)) p logs
Scanned-step i k r x y post p q logs logs' e f g t = record {
  pre = t.pre;
  st = t.st;
  cur = t.cur;
  w = t.w;
  out = t.out;
  scans =
      scan-step (i, r) (indexed (i + 1) post) p logs (q, logs') e
      ∙ subst (λ n. scan (indexed n post) q logs' ≡ some (at t.pre t.st t.cur t.w [], t.out)) f
          t.scans;
  same = t.same ∙ g;
  open' = t.open';
}

pub scan-Scanned :
    (pre : Bytes) (st : State) (cur : Log) (w post : Bytes) (logs : List Log)
    → Open st cur w
    → regular (indexed (length pre + length w) post) (at pre st cur w post) ≡ true
    → Scanned
        (pre ++ (w ++ post))
        (indexed (length pre + length w) post)
        (at pre st cur w post)
        logs
scan-Scanned pre st cur w [] logs o h = record {
  pre = pre;
  st = st;
  cur = cur;
  w = w;
  out = logs;
  scans = unfold scan in refl;
  same = ap (◌++◌ pre) (sym (append-nil w));
  open' = o;
}
scan-Scanned pre st cur w (r ∷ post) logs o h =
    let i = length pre + length w in
    let p = at pre st cur w (r ∷ post) in
    elim (Bool-cases (r == b'\n')) [
      | inl a ↦
          let pre' = pre ++ (w ++ r ∷ []) in
          let q = at pre' date_state new_log [] post in
          let (l, e) = end_line-at pre st cur w r post o in
          let after : parser_after i r p ≡ some q = rw a (rw e refl) in
          let index : length pre' + 0 ≡ i + 1 =
            omega (arith, length-append pre (w ++ r ∷ []), length-append w (r ∷ [])) in
          Scanned-step i (length pre' + 0) r (pre ++ (w ++ (r ∷ post))) (pre' ++ post) post p q logs
            (logs ++ l ∷ []) (step_line i r p q l logs a e) index (same_text pre w r post)
            (scan-Scanned pre' date_state new_log [] post (logs ++ l ∷ [])
              (record { kept = fresh-Kept date_state new_log (λ z. cc); keyed = λ z. cc })
              (subst (λ n. regular (indexed n post) q ≡ true) (sym index)
                (regular_step i r (indexed (i + 1) post) p q h after).1))
      | inr a ↦
          let d = regular-odd i r (indexed (i + 1) post) p h in
          let s =
            next-Stepped pre st cur w r post o (λ z. cc)
              (sym (odd-at pre st cur w r (r ∷ post)) ∙ d) in
          let q = at s.pre' s.st' s.cur' s.w' post in
          let after : parser_after i r p ≡ some q = rw a s.steps in
          let index : length s.pre' + length s.w' ≡ i + 1 = omega (
            arith,
            length-append s.pre' s.w',
            ap length s.same,
            length-append (pre ++ w) (r ∷ []),
            length-append pre w,
          ) in
          Scanned-step i (length s.pre' + length s.w') r (pre ++ (w ++ (r ∷ post)))
            (s.pre' ++ (s.w' ++ post)) post p q logs logs (step-next i r p q logs a s.steps) index
            (sym (append_assoc s.pre' s.w' post)
              ∙ ap (λ y. y ++ post) s.same
              ∙ append_assoc (pre ++ w) (r ∷ []) post
              ∙ append_assoc pre w (r ∷ post))
            (scan-Scanned s.pre' s.st' s.cur' s.w' post logs s.open' (
              subst (λ n. regular (indexed n post) q ≡ true) (sym index)
                (regular_step i r (indexed (i + 1) post) p q h after).1))
    ]
