-- ===== src/Utf8/Concat.antt =====
-- `range` over two texts joined behind a newline: the runes of the first, then those of the second at
-- shifted indices. This holds of invalid UTF-8 too, since no rune runs across a newline.
use logd_go.Base.{
  ℕ, zero, suc, ◌+◌, ◌-◌, ◌≡◌, refl, List, [], ◌∷◌, ◌++◌, Bytes, length, length-append, arith, ap,
  ◌∙◌,
}
use logd_go.Utf8.{decode_rune, runes_from, runes}
use logd_go.Utf8.Newlines.{Covers, decode_rune-Decodes}

-- All the indices moved up by `k`.
abbrev pub shift_runes : ℕ → List (ℕ × ℕ) → List (ℕ × ℕ)
shift_runes k [] = []
shift_runes k ((i, r) ∷ rs) = (k + i, r) ∷ shift_runes k rs

pub shift-runes_from :
    (k i skip : ℕ) (s : Bytes) → runes_from (k + i) skip s ≡ shift_runes k (runes_from i skip s)
unfolding runes_from
shift-runes_from k i zero [] = refl
shift-runes_from k i (suc skip) [] = refl
shift-runes_from k i (suc skip) (b ∷ bs) =
    let e : k + i + 1 ≡ k + (i + 1) = omega arith in rw e (shift-runes_from k (i + 1) skip bs)
shift-runes_from k i zero (b ∷ bs) =
    let e : k + i + 1 ≡ k + (i + 1) = omega arith in
    rw e (
      ap (◌∷◌ (k + i, (decode_rune b bs).0))
        (shift-runes_from k (i + 1) ((decode_rune b bs).1 - 1) bs))

-- What stands behind a newline does not matter to the rune before it.
decode_rune-newline :
    (b : ℕ) (x y : Bytes) → decode_rune b (x ++ (b'\n' ∷ y)) ≡ decode_rune b (x ++ (b'\n' ∷ []))
unfolding decode_rune
decode_rune-newline b [] y = ground arith
decode_rune-newline b (b1 ∷ []) y = ground arith
decode_rune-newline b (b1 ∷ b2 ∷ []) y = ground arith
decode_rune-newline b (b1 ∷ b2 ∷ b3 ∷ x) y = refl

runes_from-newline :
    (i skip : ℕ) (x y : Bytes)
    → Covers skip (x ++ (b'\n' ∷ []))
    → runes_from i skip (x ++ (b'\n' ∷ y))
      ≡ runes_from i skip (x ++ (b'\n' ∷ [])) ++ runes_from (i + length x + 1) 0 y
unfolding runes_from
runes_from-newline i zero [] y c =
    let e : i + 0 + 1 ≡ i + 1 = omega arith in rw e (unfold decode_rune in refl)
runes_from-newline i (suc skip) [] y c = absurd (c.0 refl)
runes_from-newline i (suc skip) (b ∷ x) y c =
    let e : i + suc (length x) + 1 ≡ i + 1 + length x + 1 = omega arith in
    rw e (runes_from-newline (i + 1) skip x y c.1)
runes_from-newline i zero (b ∷ x) y c =
    let e : i + suc (length x) + 1 ≡ i + 1 + length x + 1 = omega arith in
    let d = decode_rune-Decodes b (x ++ (b'\n' ∷ [])) in
    rw (e, decode_rune-newline b x y)
      (ap (◌∷◌ (i, (decode_rune b (x ++ (b'\n' ∷ []))).0))
        (runes_from-newline (i + 1) ((decode_rune b (x ++ (b'\n' ∷ []))).1 - 1) x y d.0))

pub runes-newline :
    (x y : Bytes)
    → runes (x ++ (b'\n' ∷ y))
      ≡ runes (x ++ (b'\n' ∷ [])) ++ shift_runes (length (x ++ (b'\n' ∷ []))) (runes y)
unfolding runes
runes-newline x y =
    let e : 0 + length x + 1 ≡ length (x ++ (b'\n' ∷ [])) + 0 =
      omega (arith, length-append x (b'\n' ∷ [])) in
    runes_from-newline 0 0 x y tt
    ∙ rw e (
        ap (◌++◌ (runes_from 0 0 (x ++ (b'\n' ∷ []))))
          (shift-runes_from (length (x ++ (b'\n' ∷ []))) 0 0 y))

runes_from_last :
    (i skip : ℕ) (x : Bytes)
    → Covers skip (x ++ (b'\n' ∷ []))
    → (rs : List (ℕ × ℕ)) × (runes_from i skip (x ++ (b'\n' ∷ []))
        ≡ rs ++ ((i + length x, b'\n') ∷ []))
unfolding runes_from
runes_from_last i zero [] c =
    let e : i + 0 ≡ i = omega arith in ([], rw e (unfold decode_rune in refl))
runes_from_last i (suc skip) [] c = absurd (c.0 refl)
runes_from_last i (suc skip) (b ∷ x) c =
    let (rs, h) = runes_from_last (i + 1) skip x c.1 in
    let e : i + suc (length x) ≡ i + 1 + length x = omega arith in (rs, rw e h)
runes_from_last i zero (b ∷ x) c =
    let e : i + suc (length x) ≡ i + 1 + length x = omega arith in
    let d = decode_rune b (x ++ (b'\n' ∷ [])) in
    let (rs, h) =
      runes_from_last (i + 1) (d.1 - 1) x (decode_rune-Decodes b (x ++ (b'\n' ∷ []))).0 in
    ((i, d.0) ∷ rs, rw e (ap (◌∷◌ (i, d.0)) h))

-- The last rune of a line is its newline.
pub runes_last :
    (x : Bytes) → (rs : List (ℕ × ℕ)) × (runes (x ++ (b'\n' ∷ [])) ≡ rs ++ ((length x, b'\n') ∷ []))
unfolding runes
runes_last x = let e : 0 + length x ≡ length x = omega arith in rw e at (runes_from_last 0 0 x tt)

pub shift_runes_zero : (rs : List (ℕ × ℕ)) → shift_runes 0 rs ≡ rs
shift_runes_zero [] = refl
shift_runes_zero ((i, r) ∷ rs) =
    let e : 0 + i ≡ i = omega arith in rw e (ap (◌∷◌ (i, r)) (shift_runes_zero rs))
