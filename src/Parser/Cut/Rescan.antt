-- ===== src/Parser/Cut/Rescan.antt =====
-- logging/parse.go: what Parse keeps is read again as it was read before.
use logd_go.Base.{
  ℕ, ◌+◌, ◌≡◌, ◌≢◌, ◌⊎◌, inl, inr, refl, sym, subst, ap, ◌∙◌, true, some, List, [], ◌∷◌, ◌++◌,
  Bytes, arith,
}
use logd_go.Utf8.Newlines.{InRange}
use logd_go.Utf8.Concat.{shift_runes}
use logd_go.Log.{Log}
use logd_go.Parser.State.{State, value_state, multi_key_state, Parser}
use logd_go.Parser.Handlers.{handle_next_value, handle_next_multi_key}
use logd_go.Parser.Run.{next, step, scan}
use logd_go.Parser.Cut.{indexed, field_at, field_start, Kept, origin-id, opens_value}

multi_cases : (st : State) → (st ≡ multi_key_state) ⊎ (st ≢ multi_key_state)
multi_cases multi_key_state = inl refl
multi_cases _ = inr (λ e. cc)

-- Behind a colon a value is read as at its beginning, but for its first character.
step_opening :
    (c : ℕ) (cur : Log) (raw : Bytes) (logs : List Log)
    → opens_value (c ∷ []) ≡ true
    → step (0, c) (field_start multi_key_state cur raw) logs
      ≡ step (0, c) (field_start value_state cur raw) logs
unfolding step next handle_next_value handle_next_multi_key
step_opening c cur raw logs h = ground arith

scan_first :
    (ir : ℕ × ℕ) (rs : List (ℕ × ℕ)) (p q : Parser) (logs : List Log)
    → step ir p logs ≡ step ir q logs
    → scan (ir ∷ rs) p logs ≡ scan (ir ∷ rs) q logs
unfolding scan
scan_first ir rs p q logs e = rw e refl

rescan_multi :
    (cur : Log) (w post : Bytes) (logs : List Log)
    → Kept multi_key_state cur w
    → scan (indexed 0 w) (field_start multi_key_state cur (w ++ post)) logs
      ≡ some (field_at multi_key_state cur w post, logs)
rescan_multi cur [] post logs k = absurd (k.begun refl refl)
rescan_multi cur (c ∷ w) post logs k =
    scan_first (0, c) (indexed 1 w) _ _ logs
      (step_opening c cur (c ∷ (w ++ post)) logs (k.opens refl))
    ∙ k.rescans post logs

-- The field read again, from the state in which Parse left it.
pub rescan :
    (st : State) (cur : Log) (w post : Bytes) (logs : List Log)
    → Kept st cur w
    → scan (indexed 0 w) (field_start st cur (w ++ post)) logs ≡ some (field_at st cur w post, logs)
rescan st cur w post logs k = elim (multi_cases st) [
  | inl e ↦
      subst
        (λ s.
          Kept s cur w
          → scan (indexed 0 w) (field_start s cur (w ++ post)) logs
            ≡ some (field_at s cur w post, logs))
        (sym e) (rescan_multi cur w post logs) k
  | inr n ↦
      subst
        (λ s.
          scan (indexed 0 w) (field_start s cur (w ++ post)) logs
          ≡ some (field_at st cur w post, logs))
        (origin-id st n) (k.rescans post logs)
]

pub InRange-shift :
    (k lo n : ℕ) (rs : List (ℕ × ℕ)) → InRange lo n rs → InRange (k + lo) (k + n) (shift_runes k rs)
InRange-shift k lo n [] h = tt
InRange-shift k lo n ((i, r) ∷ rs) h =
    let e : k + (i + 1) ≡ k + i + 1 = omega arith in
    (
      omega arith,
      omega arith,
      subst (λ m. InRange m (k + n) (shift_runes k rs)) e (InRange-shift k (i + 1) n rs h.2),
    )

pub shift-shift_runes :
    (j k : ℕ) (rs : List (ℕ × ℕ)) → shift_runes j (shift_runes k rs) ≡ shift_runes (j + k) rs
shift-shift_runes j k [] = refl
shift-shift_runes j k ((i, r) ∷ rs) =
    let e : j + (k + i) ≡ j + k + i = omega arith in
    rw e (ap (◌∷◌ (j + k + i, r)) (shift-shift_runes j k rs))
