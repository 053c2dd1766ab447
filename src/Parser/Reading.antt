-- ===== src/Parser/Reading.antt =====
-- How the parser reads a line piece by piece: a token whose bytes keep the state, then the byte that
-- ends it.
use logd_go.Base.{
  ℕ, zero, suc, ◌+◌, ◌-◌, ◌<◌, ◌≡◌, ◌≢◌, inl, inr, some, List, [], ◌∷◌, ◌++◌, Bytes, All, slice,
  slice_ok, length, drop, take-append, ◌==◌, arith, length-append, length-drop, drop-append,
  Bool-cases, ==_iff, ◌∙◌, ap,
}
use logd_go.Utf8.{runes_from, decode_rune}
use logd_go.Log.{Log}
use logd_go.Parser.State.{State, Parser}
use logd_go.Parser.Run.{next, step, scan}

-- A parser over `raw` in the given state.
abbrev pub at : State → ℕ → ℕ → Bytes → Log → Parser
at st start end raw cur = record { state = st; start = start; end = end; raw = raw; current = cur }

-- One byte that is a rune of its own and no newline.
abbrev pub IsText : ℕ → Type 0
IsText c = (c < 0x80) × (c ≢ b'\n')

step_text :
    (i c : ℕ) (p q : Parser) (logs : List Log)
    → c ≢ b'\n'
    → next p c ≡ some q
    → step (i, c) p logs ≡ some (q, logs)
unfolding step
step_text i c p q logs t e = elim (Bool-cases (c == b'\n')) [
  | inl f ↦ absurd (t ((==_iff c b'\n').0 f))
  | inr f ↦ rw f (rw e)
]

decode_text : (c : ℕ) (s : Bytes) → c < 0x80 → decode_rune c s ≡ (c, 1)
unfolding decode_rune
decode_text c s h = ground arith

pub scan_text :
    (i c : ℕ) (s : Bytes) (p q : Parser) (logs : List Log)
    → IsText c
    → next p c ≡ some q
    → scan (runes_from i 0 (c ∷ s)) p logs ≡ scan (runes_from (i + 1) 0 s) q logs
unfolding scan runes_from
scan_text i c s p q logs t e = rw (decode_text c s t.0) (rw (step_text i c p q logs t.1 e))

-- From the first byte of `s` at the state `st`, the parser comes to the first byte of `t` at `st'`, with
-- a new piece to begin there.
pub record Reaches (raw : Bytes) (st : State) (cur : Log) (s : Bytes) (st' : State) (cur' : Log)
    (t : Bytes) : Type 0 where
  pub reach :
      (n : ℕ)
      → drop n raw ≡ s
      → (m : ℕ) × (drop m raw ≡ t)
        × ((logs : List Log)
            → scan (runes_from n 0 s) (at st n n raw cur) logs
              ≡ scan (runes_from m 0 t) (at st' m m raw cur') logs)

pub Reaches-trans :
    {raw s t u : Bytes} {st st' st'' : State} {cur cur' cur'' : Log}
    → Reaches raw st cur s st' cur' t
    → Reaches raw st' cur' t st'' cur'' u
    → Reaches raw st cur s st'' cur'' u
Reaches-trans f g = record {
  reach = λ n e.
      let (m, d, run) = f.reach n e in
      let (k, d', run') = g.reach m d in (k, d', λ logs. run logs ∙ run' logs);
}

-- The byte extends the piece and keeps the state.
abbrev pub Stays : State → ℕ → Type 0
Stays st c =
    IsText c
    × ((start end : ℕ) (raw : Bytes) (cur : Log)
        → next (at st start end raw cur) c ≡ some (at st start (end + 1) raw cur))

scan_token :
    (st : State) (tok rest : Bytes) (start end : ℕ) (raw : Bytes) (cur : Log) (logs : List Log)
    → All (Stays st) tok
    → scan (runes_from end 0 (tok ++ rest)) (at st start end raw cur) logs
      ≡ scan (runes_from (end + length tok) 0 rest) (at st start (end + length tok) raw cur) logs
scan_token st [] rest start end raw cur logs h = let e : end + 0 ≡ end = omega arith in rw e
scan_token st (c ∷ tok) rest start end raw cur logs h =
    let e : end + suc (length tok) ≡ end + 1 + length tok = omega arith in
    rw e (
      scan_text end c (tok ++ rest) (at st start end raw cur) (at st start (end + 1) raw cur) logs
        h.0.0 (h.0.1 start end raw cur)
      ∙ scan_token st tok rest start (end + 1) raw cur logs h.1)

pub drop-add : (n : ℕ) (raw tok s : Bytes) → drop n raw ≡ tok ++ s → drop (n + length tok) raw ≡ s
drop-add zero raw tok s e =
    let z : 0 + length tok ≡ length tok = omega arith in rw (z, e) (drop-append tok s)
drop-add (suc n) [] [] s e = let z : suc n + 0 ≡ suc n = omega arith in rw z e
drop-add (suc n) [] (c ∷ tok) s e = cc
drop-add (suc n) (b ∷ raw) tok s e =
    let z : suc n + length tok ≡ suc (n + length tok) = omega arith in rw z (drop-add n raw tok s e)

-- The piece between the offsets around a token.
pub slice_token :
    (n c : ℕ) (raw tok s : Bytes)
    → drop n raw ≡ tok ++ (c ∷ s)
    → slice raw n (n + length tok) ≡ some tok
slice_token n c raw tok s e =
    let l : length (drop n raw) ≡ length tok + suc (length s) =
      ap length e ∙ length-append tok (c ∷ s) in
    let z : n + length tok - n ≡ length tok = omega arith in
    slice_ok raw n (n + length tok) (omega arith) (omega (arith, length-drop n raw))
    ∙ ap some (rw (z, e) (take-append tok (c ∷ s)))

-- Reading a token from its first byte on changes nothing but the end offset, and maybe the state.
pub record Scans (raw : Bytes) (st : State) (cur : Log) (tok : Bytes) (st' : State) : Type 0 where
  pub scans :
      (n : ℕ) (rest : Bytes) (logs : List Log)
      → scan (runes_from n 0 (tok ++ rest)) (at st n n raw cur) logs
        ≡ scan (runes_from (n + length tok) 0 rest) (at st' n (n + length tok) raw cur) logs

pub Scans-token :
    (raw : Bytes) (st : State) (cur : Log) (tok : Bytes)
    → All (Stays st) tok
    → Scans raw st cur tok st
Scans-token raw st cur tok h = record {
  scans = λ n rest logs. scan_token st tok rest n n raw cur logs h;
}

-- The same behind a transition, which the first byte ends.
pub Scans-first :
    (raw : Bytes) (st st' : State) (cur : Log) (c : ℕ) (tok : Bytes)
    → IsText c
    → ((n : ℕ) → next (at st n n raw cur) c ≡ some (at st' n (n + 1) raw cur))
    → All (Stays st') tok
    → Scans raw st cur (c ∷ tok) st'
Scans-first raw st st' cur c tok x f h = record {
  scans = λ n rest logs.
      let e : n + suc (length tok) ≡ n + 1 + length tok = omega arith in
      rw e (
        scan_text n c (tok ++ rest) (at st n n raw cur) (at st' n (n + 1) raw cur) logs x (f n)
        ∙ scan_token st' tok rest n (n + 1) raw cur logs h);
}

-- A token, and the byte `c` that ends it: the state behind it is given by what `next` does there.
pub read_piece :
    {raw : Bytes} {st st' : State} {cur : Log} {tok : Bytes} (st'' : State) (cur' : Log) (c : ℕ)
    (t : Bytes)
    → Scans raw st cur tok st'
    → IsText c
    → ((n k : ℕ)
        → slice raw n k ≡ some tok
        → next (at st' n k raw cur) c ≡ some (at st'' (k + 1) (k + 1) raw cur'))
    → Reaches raw st cur (tok ++ (c ∷ t)) st'' cur' t
read_piece {raw} {st} {st'} {cur} {tok} st'' cur' c t h x f = record {
  reach = λ n e.
      let k = n + length tok in
      (
        k + 1,
        drop-add k raw (c ∷ []) t (drop-add n raw tok (c ∷ t) e),
        λ logs.
            h.scans n (c ∷ t) logs
            ∙ scan_text k c t (at st' n k raw cur) (at st'' (k + 1) (k + 1) raw cur') logs x
                (f n k (slice_token n c raw tok t e)),
      );
}

-- A byte that is skipped.
pub read_skip :
    {raw : Bytes} (st st' : State) (cur : Log) (c : ℕ) (t : Bytes)
    → IsText c
    → ((n : ℕ) → next (at st n n raw cur) c ≡ some (at st' (n + 1) (n + 1) raw cur))
    → Reaches raw st cur (c ∷ t) st' cur t
read_skip {raw} st st' cur c t x f = record {
  reach = λ n e. (
    n + 1,
    drop-add n raw (c ∷ []) t e,
    λ logs. scan_text n c t (at st n n raw cur) (at st' (n + 1) (n + 1) raw cur) logs x (f n),
  );
}
