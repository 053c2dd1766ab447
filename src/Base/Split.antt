-- ===== src/Base/Split.antt =====
-- `strings.Split(s, sep)` for a separator of one byte.
use Prim.Native.Nat.{ℕ, ◌+◌}
use mathlib.Core.Path.{◌≡◌, sym, ◌∙◌, ap}
use mathlib.Core.List.{List, [], ◌∷◌, ◌++◌, append_assoc, append-nil}
use mathlib.Core.Logic.{inl, inr}
use native.Mathlib.Omega.{arith}
use logd_go.Base.Lists.{length}
use logd_go.Base.Tests.{◌==◌, ==_iff, if◌then◌else◌, Bool-cases}
use logd_go.Base.Text.{Bytes}

-- How often a byte occurs.
abbrev pub count : ℕ → Bytes → ℕ
count sep [] = 0
count sep (c ∷ s) = count sep s + (if c == sep then 1 else 0)

split_from : ℕ → Bytes → Bytes → List Bytes
split_from sep piece [] = piece ∷ []
split_from sep piece (c ∷ cs) =
    let found = piece ∷ split_from sep [] cs in
    let more = split_from sep (piece ++ c ∷ []) cs in if c == sep then found else more

unfoldable pub split : ℕ → Bytes → List Bytes
unfolding split_from
split sep s = split_from sep [] s

length-split_from : (sep : ℕ) (piece s : Bytes) → length (split_from sep piece s) ≡ 1 + count sep s
unfolding split_from
length-split_from sep piece [] = omega arith
length-split_from sep piece (c ∷ cs) =
    ground (arith, length-split_from sep [] cs, length-split_from sep (piece ++ c ∷ []) cs)

-- There is one part more than there are separators.
pub length-split : (sep : ℕ) (s : Bytes) → length (split sep s) ≡ 1 + count sep s
unfolding split
length-split sep s = length-split_from sep [] s

split_from_none :
    (sep : ℕ) (piece s : Bytes) → count sep s ≡ 0 → split_from sep piece s ≡ (piece ++ s) ∷ []
unfolding split_from
split_from_none sep piece [] h = rw append-nil
split_from_none sep piece (c ∷ cs) h =
    ground (arith, split_from_none sep (piece ++ c ∷ []) cs, append_assoc piece (c ∷ []) cs)

split_from_one :
    (sep : ℕ) (piece s : Bytes)
    → count sep s ≡ 1
    → (d : Bytes) × (t : Bytes) × (split_from sep piece s ≡ d ∷ t ∷ [])
      × (piece ++ s ≡ d ++ (sep ∷ t))
unfolding split_from
split_from_one sep piece [] h = absurd (omega arith)
split_from_one sep piece (c ∷ cs) h = elim (Bool-cases (c == sep)) [
  | inl found ↦ (
    piece,
    cs,
    ground (arith, split_from_none sep [] cs),
    ap (λ x. piece ++ (x ∷ cs)) ((==_iff c sep).0 found),
  )
  | inr more ↦
      let (d, t, e, f) = split_from_one sep (piece ++ c ∷ []) cs (ground arith) in
      (d, t, rw more e, sym (append_assoc piece (c ∷ []) cs) ∙ f)
]

-- A text with one separator is split into the parts before and behind it.
pub split_one :
    (sep : ℕ) (s : Bytes)
    → count sep s ≡ 1
    → (d : Bytes) × (t : Bytes) × (split sep s ≡ d ∷ t ∷ []) × (s ≡ d ++ (sep ∷ t))
unfolding split
split_one sep s h = split_from_one sep [] s h
