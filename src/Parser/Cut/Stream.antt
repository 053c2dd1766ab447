-- ===== src/Parser/Cut/Stream.antt =====
-- logging/parse.go: a sequence of calls of Parse on the parts of a text.
use logd_go.Base.{
  ℕ, ◌+◌, ◌≡◌, refl, sym, subst, ap, ◌∙◌, true, false, Option, none, some, List, [], ◌∷◌, ◌++◌,
  Bytes, All, length, ◌==◌, arith, append_assoc, append-nil, ◌>>=◌, Bool-cases, inl, inr,
  Option-cases, >>=-eq-some, >>=_assoc, >>=_unit, All-append_left, All-append_left,
}
use logd_go.Utf8.{runes}
use logd_go.Utf8.Newlines.{InRange, runes-InRange}
use logd_go.Utf8.Concat.{shift_runes}
use logd_go.Log.{Log}
use logd_go.Parser.State.{Parser}
use logd_go.Parser.Run.{next, end_line, step, parse_chunk}
use logd_go.Parser.Safety.{Inv}
use logd_go.Parser.Total.{IsReady, start-Inv, step-Round}
use logd_go.Parser.Embed.{embed}
use logd_go.Parser.Append.{step-embed}
use logd_go.Parser.Cut.{IsAscii, odd_in, odd, parser_after, regular, runes-ascii, runes-indexed}
use logd_go.Parser.Cut.Scan.{regular_step}
use logd_go.Parser.Cut.Chunks.{parse_chunk-cut}

-- The calls one after the other.
unfoldable pub parse_all : List Bytes → Parser → List Log → Option (Parser × List Log)
unfolding parse_chunk
parse_all [] p logs = some (p, logs)
parse_all (c ∷ cs) p logs = do s ← parse_chunk p c logs; parse_all cs s.0 s.1

-- The whole text.
abbrev pub concat : List Bytes → Bytes
concat [] = []
concat (c ∷ cs) = c ++ concat cs

parser_after-step :
    (i r : ℕ) (p q : Parser) (out : List Log)
    → step (i, r) p [] ≡ some (q, out)
    → parser_after i r p ≡ some q
unfolding step
parser_after-step i r p q out e = elim (Bool-cases (r == b'\n')) [
  | inl a ↦
      let (d, m, f) = >>=-eq-some (end_line i p) _ (rw a at e) in rw a (rw m (ground (arith, f)))
  | inr a ↦ let (d, m, f) = >>=-eq-some (next p r) _ (rw a at e) in rw a (rw m (ground (arith, f)))
]

regular_next :
    (i r : ℕ) (rs : List (ℕ × ℕ)) (p q : Parser)
    → odd p r ≡ false
    → parser_after i r p ≡ some q
    → regular rs q ≡ true
    → regular ((i, r) ∷ rs) p ≡ true
unfolding regular
regular_next i r rs p q d e h = rw d (rw e h)

regular_stuck :
    (i r : ℕ) (rs : List (ℕ × ℕ)) (p : Parser)
    → parser_after i r p ≡ none
    → regular ((i, r) ∷ rs) p ≡ false
unfolding regular
regular_stuck i r rs p e = rw e (ground arith)

regular-append :
    (rs ss : List (ℕ × ℕ)) (p : Parser) → regular (rs ++ ss) p ≡ true → regular rs p ≡ true
regular-append [] ss p h = unfold regular in refl
regular-append ((i, r) ∷ rs) ss p h = elim (Option-cases (parser_after i r p)) [
  | inl e ↦ let n = regular_stuck i r (rs ++ ss) p e in cc
  | inr (q, e) ↦
      let (d, k) = regular_step i r (rs ++ ss) p q h e in
      regular_next i r rs p q d e (regular-append rs ss q k)
]

odd-embed : (pre post : Bytes) (p : Parser) (r : ℕ) → odd (embed pre post p) r ≡ odd p r
odd-embed pre post p r =
    let e : (length pre + p.start == length pre + p.end) ≡ (p.start == p.end) = ground arith in
    ap (λ b. odd_in p.state b r) e

-- A part of a text without an odd character has none either.
regular-embed :
    (post : Bytes) (i : ℕ) (rs : List (ℕ × ℕ)) {raw : Bytes} (p : Parser)
    → InRange i (length raw) rs
    → Inv i raw p
    → regular rs (embed [] post p) ≡ true
    → regular rs p ≡ true
regular-embed post i [] p o v h = unfold regular in refl
regular-embed post i ((j, r) ∷ rs) {raw} p o v h =
    let s =
      step-Round j r {raw = raw} p []
        (record {
          same_raw = v.same_raw;
          ordered = v.ordered;
          reached = omega (arith, v.reached, o.0);
          multi = v.multi;
          keyed = v.keyed;
        })
        o.1 in
    let e = parser_after-step j r p s.after ([] ++ s.added) s.returns in
    let z : 0 + j ≡ j = omega arith in
    let f =
      parser_after-step j r (embed [] post p) (embed [] post s.after) ([] ++ s.added)
        (rw z at (step-embed [] post j r p [] s.returns)) in
    let (d, k) = regular_step j r rs (embed [] post p) (embed [] post s.after) h f in
    regular_next j r rs p s.after (sym (odd-embed [] post p r) ∙ d) e
      (regular-embed post (j + 1) rs s.after o.2 s.inv k)

IsAscii-part :
    (p : Parser) (a c : Bytes) → All IsAscii (p.raw ++ (a ++ c)) → All IsAscii (p.raw ++ a)
IsAscii-part p a c h =
    All-append_left IsAscii (p.raw ++ a) c (subst (All IsAscii) (sym (append_assoc p.raw a c)) h)

-- The first part of a text without an odd character.
regular-part :
    (p : Parser) (a c : Bytes)
    → IsReady p
    → All IsAscii (p.raw ++ (a ++ c))
    → regular (runes (p.raw ++ (a ++ c))) (record p { raw = p.raw ++ (a ++ c) }) ≡ true
    → regular (runes (p.raw ++ a)) (record p { raw = p.raw ++ a }) ≡ true
regular-part p a c g l k =
    let h = IsAscii-part p a c l in
    let q = record p { raw = p.raw ++ a } in
    let e : runes ((p.raw ++ a) ++ c)
        ≡ runes (p.raw ++ a) ++ shift_runes (length (p.raw ++ a)) (runes c) =
      runes-ascii (p.raw ++ a) c h
      ∙ ap (λ rs. rs ++ shift_runes (length (p.raw ++ a)) (runes c))
          (sym (runes-indexed (p.raw ++ a) h)) in
    let f : record p { raw = p.raw ++ (a ++ c) } ≡ embed [] c q =
      ground (arith, append_assoc p.raw a c) in
    regular-embed c 0 (runes (p.raw ++ a)) {raw = p.raw ++ a} q (runes-InRange (p.raw ++ a))
      (start-Inv p a g)
      (regular-append (runes (p.raw ++ a)) (shift_runes (length (p.raw ++ a)) (runes c))
        (embed [] c q)
        (subst
          (λ x.
            regular (runes (p.raw ++ a) ++ shift_runes (length (p.raw ++ a)) (runes c)) x ≡ true)
          f
          (subst (λ rs. regular rs (record p { raw = p.raw ++ (a ++ c) }) ≡ true)
            (ap runes (sym (append_assoc p.raw a c)) ∙ e) k)))

module _ (p : Parser) (logs : List Log) (b : Bytes) (g : IsReady p) where
  -- The calls on the parts behind the text of `a`.
  parse_all-from :
      (a : Bytes) (cs : List Bytes)
      → All IsAscii (p.raw ++ (a ++ concat cs))
      → regular (runes (p.raw ++ (a ++ concat cs))) (record p { raw = p.raw ++ (a ++ concat cs) })
        ≡ true
      → (parse_chunk p a logs >>= (λ s. parse_all (cs ++ b ∷ []) s.0 s.1))
        ≡ parse_chunk p (a ++ (concat cs ++ b)) logs
  unfolding parse_all
  parse_all-from a [] h k =
      let a' = ap (◌++◌ p.raw) (append-nil a) in
      ap (λ f. parse_chunk p a logs >>= f) (λ i s. >>=_unit (parse_chunk s.0 b s.1) i)
      ∙ sym (
          parse_chunk-cut p a b logs g (subst (All IsAscii) a' h)
            (subst (λ x. regular (runes x) (record p { raw = x }) ≡ true) a' k))
  parse_all-from a (c ∷ cs) h k =
      let a' = ap (◌++◌ p.raw) (sym (append_assoc a c (concat cs))) in
      sym (
        >>=_assoc (parse_chunk p a logs) (λ s. parse_chunk s.0 c s.1)
          (λ s. parse_all (cs ++ b ∷ []) s.0 s.1))
      ∙ ap (λ o. o >>= (λ s. parse_all (cs ++ b ∷ []) s.0 s.1))
          (sym (
            parse_chunk-cut p a c logs g (IsAscii-part p a (c ++ concat cs) h)
              (regular-part p a (c ++ concat cs) g h k)))
      ∙ parse_all-from (a ++ c) cs (subst (All IsAscii) a' h)
          (subst (λ x. regular (runes x) (record p { raw = x }) ≡ true) a' k)
      ∙ ap (λ x. parse_chunk p x logs)
          (append_assoc a c (concat cs ++ b) ∙ ap (◌++◌ a) (sym (append_assoc c (concat cs) b)))

  pub parse_all-concat :
      (a : Bytes) (cs : List Bytes)
      → All IsAscii (p.raw ++ (a ++ concat cs))
      → regular (runes (p.raw ++ (a ++ concat cs))) (record p { raw = p.raw ++ (a ++ concat cs) })
        ≡ true
      → parse_all (a ∷ (cs ++ b ∷ [])) p logs ≡ parse_chunk p (a ++ (concat cs ++ b)) logs
  unfolding parse_all
  parse_all-concat a cs h k = parse_all-from a cs h k
