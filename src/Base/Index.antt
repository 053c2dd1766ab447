-- ===== src/Base/Index.antt =====
-- Slices of Go by index, and the signed numbers of its type int.
use Prim.Native.Nat.{ℕ, zero, suc, ◌+◌, ◌<◌}
use mathlib.Core.Path.{◌≡◌, refl}
use mathlib.Core.Bool.{Bool, true, false, ◌&&◌}
use mathlib.Core.Option.{Option, none, some}
use mathlib.Core.List.{List, [], ◌∷◌}
use native.Mathlib.Omega.{arith}
use logd_go.Base.Tests.{ltb, ◌==◌, if◌then◌else◌}
use logd_go.Base.Lists.{length}

pub data ℤ : Type 0 where
  pos : ℕ → ℤ
  negsuc : ℕ → ℤ

-- `n - 1`, which wraps around at the least number of 64 bits.
abbrev pub pred_int : ℤ → ℤ
pred_int (ℤ.pos zero) = ℤ.negsuc 0
pred_int (ℤ.pos (suc n)) = ℤ.pos n
pred_int (ℤ.negsuc n) = if n == 9223372036854775807 then ℤ.pos n else ℤ.negsuc (n + 1)

-- `a < b`
abbrev pub ltb_int : ℤ → ℤ → Bool
ltb_int (ℤ.pos a) (ℤ.pos b) = ltb a b
ltb_int (ℤ.pos a) (ℤ.negsuc b) = false
ltb_int (ℤ.negsuc a) (ℤ.pos b) = true
ltb_int (ℤ.negsuc a) (ℤ.negsuc b) = ltb b a

-- The rounds of `for i := 0; i < n; i++`.
abbrev pub rounds : ℤ → ℕ
rounds (ℤ.pos n) = n
rounds (ℤ.negsuc n) = 0

module _ {ℓ} {A : Type ℓ} where
  abbrev pub get_elem? : List A → ℕ → Option A
  get_elem? [] i = none
  get_elem? (x ∷ xs) zero = some x
  get_elem? (x ∷ xs) (suc i) = get_elem? xs i

  -- The list with another element at the index.
  abbrev pub update : List A → ℕ → A → List A
  update [] i y = []
  update (x ∷ xs) zero y = y ∷ xs
  update (x ∷ xs) (suc i) y = x ∷ update xs i y

  pub length-update : (xs : List A) (i : ℕ) (y : A) → length (update xs i y) ≡ length xs
  length-update [] i y = refl
  length-update (x ∷ xs) zero y = refl
  length-update (x ∷ xs) (suc i) y = omega (arith, length-update xs i y)

  pub get_elem?-update :
      (xs : List A) (i j : ℕ) (y : A)
      → get_elem? (update xs i y) j
        ≡ (if i == j && ltb i (length xs) then some y else get_elem? xs j)
  get_elem?-update [] i j y = ground arith
  get_elem?-update (x ∷ xs) zero zero y = ground arith
  get_elem?-update (x ∷ xs) zero (suc j) y = ground arith
  get_elem?-update (x ∷ xs) (suc i) zero y = ground arith
  get_elem?-update (x ∷ xs) (suc i) (suc j) y = ground (arith, get_elem?-update xs i j y)

  pub get_elem?-bound : (xs : List A) (i : ℕ) {x : A} → get_elem? xs i ≡ some x → i < length xs
  get_elem?-bound [] i e = cc
  get_elem?-bound (x ∷ xs) zero e = omega arith
  get_elem?-bound (x ∷ xs) (suc i) e = omega (arith, get_elem?-bound xs i e)

  pub get_elem?-some : (xs : List A) (i : ℕ) → i < length xs → (x : A) × (get_elem? xs i ≡ some x)
  get_elem?-some [] i h = absurd (omega arith)
  get_elem?-some (x ∷ xs) zero h = (x, refl)
  get_elem?-some (x ∷ xs) (suc i) h = get_elem?-some xs i (omega arith)
