-- ===== src/Utf8/Newlines.antt =====
-- The indices of `range` over a string grow and stay below its length, and a newline byte is always a
-- rune of its own, also in invalid UTF-8.
use logd_go.Base.{
  ℕ, zero, suc, ◌+◌, ◌-◌, ◌≤◌, ◌<◌, ◌≡◌, ◌≢◌, refl, List, [], ◌∷◌, Bytes, length, count, arith,
  ◌==◌, if◌then◌else◌,
}
use logd_go.Utf8.{decode_two, decode_three, decode_four, decode_rune, runes_from, runes}

-- Every index is below `n`, and above the one before.
abbrev pub InRange : ℕ → ℕ → List (ℕ × ℕ) → Type 0
InRange lo n [] = Unit
InRange lo n ((i, r) ∷ rs) = (lo ≤ i) × (i < n) × InRange (i + 1) n rs

InRange-weaken : (lo lo' n : ℕ) (rs : List (ℕ × ℕ)) → lo' ≤ lo → InRange lo n rs → InRange lo' n rs
InRange-weaken lo lo' n [] h v = v
InRange-weaken lo lo' n ((i, r) ∷ rs) h v = (omega arith, v.1, v.2)

runes_from-InRange :
    (i skip n : ℕ) (s : Bytes) → i + length s ≡ n → InRange i n (runes_from i skip s)
unfolding runes_from
runes_from-InRange i zero n [] h = tt
runes_from-InRange i (suc skip) n [] h = tt
runes_from-InRange i (suc skip) n (b ∷ bs) h =
    InRange-weaken (i + 1) i n (runes_from (i + 1) skip bs) (omega arith)
      (runes_from-InRange (i + 1) skip n bs (omega arith))
runes_from-InRange i zero n (b ∷ bs) h = (
  omega arith,
  omega arith,
  runes_from-InRange (i + 1) ((decode_rune b bs).1 - 1) n bs (omega arith),
)

pub runes-InRange : (s : Bytes) → InRange 0 (length s) (runes s)
unfolding runes
runes-InRange s = runes_from-InRange 0 0 (length s) s (omega arith)

-- How many of the runes are newlines.
abbrev pub newlines : List (ℕ × ℕ) → ℕ
newlines [] = 0
newlines ((i, r) ∷ rs) = (if r == b'\n' then 1 else 0) + newlines rs

-- None of the first `k` bytes is a newline.
abbrev pub Covers : ℕ → Bytes → Type 0
Covers zero bs = Unit
Covers (suc k) [] = Unit
Covers (suc k) (b ∷ bs) = (b ≢ b'\n') × Covers k bs

abbrev pub is_newline : ℕ → ℕ
is_newline c = if c == b'\n' then 1 else 0

abbrev pub Decodes : ℕ → Bytes → ℕ × ℕ → Type 0
Decodes b bs d = Covers (d.1 - 1) bs × (is_newline d.0 ≡ is_newline b)

decode_two-Decodes : (b : ℕ) (bs : Bytes) → 0xc2 ≤ b → b ≤ 0xdf → Decodes b bs (decode_two b bs)
unfolding decode_two
decode_two-Decodes b [] h k = ground arith
decode_two-Decodes b (b1 ∷ bs) h k = ground arith

decode_three-Decodes : (b : ℕ) (bs : Bytes) → 0xe0 ≤ b → b ≤ 0xef → Decodes b bs (decode_three b bs)
unfolding decode_three
decode_three-Decodes b [] h k = ground arith
decode_three-Decodes b (b1 ∷ []) h k = ground arith
decode_three-Decodes b (b1 ∷ b2 ∷ bs) h k = ground arith

decode_four-Decodes : (b : ℕ) (bs : Bytes) → 0xf0 ≤ b → b ≤ 0xf4 → Decodes b bs (decode_four b bs)
unfolding decode_four
decode_four-Decodes b [] h k = ground arith
decode_four-Decodes b (b1 ∷ []) h k = ground arith
decode_four-Decodes b (b1 ∷ b2 ∷ []) h k = ground arith
decode_four-Decodes b (b1 ∷ b2 ∷ b3 ∷ bs) h k = ground arith

pub decode_rune-Decodes : (b : ℕ) (bs : Bytes) → Decodes b bs (decode_rune b bs)
unfolding decode_rune
decode_rune-Decodes b bs =
    ground (arith, decode_two-Decodes b bs, decode_three-Decodes b bs, decode_four-Decodes b bs)

newlines-runes_from :
    (i skip : ℕ) (s : Bytes) → Covers skip s → newlines (runes_from i skip s) ≡ count b'\n' s
unfolding runes_from
newlines-runes_from i zero [] c = refl
newlines-runes_from i (suc skip) [] c = refl
newlines-runes_from i (suc skip) (b ∷ bs) c =
    ground (arith, newlines-runes_from (i + 1) skip bs c.1)
newlines-runes_from i zero (b ∷ bs) c =
    let d = decode_rune-Decodes b bs in
    omega (arith, d.1, newlines-runes_from (i + 1) ((decode_rune b bs).1 - 1) bs d.0)

-- `range` meets as many newline runes as the text has newline bytes.
pub newlines-runes : (s : Bytes) → newlines (runes s) ≡ count b'\n' s
unfolding runes
newlines-runes s = newlines-runes_from 0 0 s tt
