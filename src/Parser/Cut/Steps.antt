-- ===== src/Parser/Cut/Steps.antt =====
-- logging/parse.go: what `next` makes of the open field.
use logd_go.Base.{
  ℕ, ◌≡◌, ◌≢◌, inl, inr, refl, sym, subst, ◌∙◌, true, false, ◌||◌, some, ◌∷◌, Bytes, length, ◌==◌,
  arith, Bool-cases,
}
use logd_go.Log.{Log}
use logd_go.Parser.State.{
  State, date_state, time_state, level_state, thread_state, thread_bracket_state,
  thread_no_bracket_state, class_state, verify_call_type_state, key_state, multi_key_state,
  value_state, call_type_state, Parser, Field, next_state,
}
use logd_go.Parser.Handlers.{handle_transition, shift}
use logd_go.Parser.Run.{next, next_named, is_transition}
use logd_go.Parser.Cut.{odd_in, holds_nothing, field_at, Kept, fresh-Kept}
use logd_go.Parser.Cut.Header.{After, header-After, date-After, thread-After, bracket-After}
use logd_go.Parser.Cut.Body.{call_type-After, key-After, value-After, multi_key-After, verify-After}

transition_nothing : (st : State) → is_transition st ≡ true → holds_nothing st ≡ true
unfolding is_transition
transition_nothing st t = ground arith

transition_next :
    (st : State)
    → is_transition st ≡ true
    → (is_transition (next_state st) ≡ false) × (next_state st ≢ multi_key_state)
unfolding is_transition next_state
transition_next st t = ground arith

transition_not_multi : (st : State) → is_transition st ≡ true → st ≢ multi_key_state
unfolding is_transition
transition_not_multi st t = ground arith

transition-odd :
    (st : State) (r : ℕ) → is_transition st ≡ true → odd_in (next_state st) true r ≡ false
unfolding is_transition next_state
transition-odd st r t = ground arith

next-separator :
    (p : Parser) (r : ℕ)
    → is_transition p.state ≡ true
    → r == b'\t' || r == b' ' ≡ true
    → next p r ≡ some (shift p)
unfolding next handle_transition
next-separator p r t a = rw t (rw a refl)

next-passed :
    (p : Parser) (r : ℕ)
    → is_transition p.state ≡ true
    → r == b'\t' || r == b' ' ≡ false
    → next p r ≡ next_named (next_state p.state) (record p { state = next_state p.state }) r
unfolding next handle_transition
next-passed p r t a = rw t (rw a refl)

next-named :
    (p : Parser) (r : ℕ) → is_transition p.state ≡ false → next p r ≡ next_named p.state p r
unfolding next
next-named p r t = rw t refl

module _ (cur : Log) (w : Bytes) (r : ℕ) (post : Bytes) where
  -- A named state.
  named-After :
      (st : State) (q : Parser)
      → is_transition st ≡ false
      → Kept st cur w
      → r ≢ b'\n'
      → odd_in st (0 == length w) r ≡ false
      → next_named st (field_at st cur w (r ∷ post)) r ≡ some q
      → After cur w r post q
  unfolding next_named next
  named-After date_state q t k n o e =
      date-After cur w r post Field.date date_state q k n o (λ c. cc) refl refl (λ p s. rw s refl) e
  named-After time_state q t k n o e =
      date-After cur w r post Field.time time_state q k n o (λ c. cc) refl refl (λ p s. rw s refl) e
  named-After level_state q t k n o e =
      header-After cur w r post Field.level level_state q k n o (λ c. cc) refl refl
        (λ p s. rw s refl) e
  named-After thread_no_bracket_state q t k n o e =
      header-After cur w r post Field.thread thread_no_bracket_state q k n o (λ c. cc) refl refl
        (λ p s. rw s refl) e
  named-After class_state q t k n o e =
      header-After cur w r post Field.class class_state q k n o (λ c. cc) refl refl
        (λ p s. rw s refl) e
  named-After thread_state q t k n o e = thread-After cur w r post q k n e
  named-After thread_bracket_state q t k n o e = bracket-After cur w r post q k n e
  named-After call_type_state q t k n o e = call_type-After cur w r post q k n e
  named-After verify_call_type_state q t k n o e = verify-After cur w r post q k n o e
  named-After key_state q t k n o e =
      key-After cur w r post key_state q k n o refl refl (λ p s b. rw s refl) e
  named-After value_state q t k n o e = value-After cur w r post q k n o e
  named-After multi_key_state q t k n o e = multi_key-After cur w r post q k n e
  named-After _ q t k n o e = cc

  -- A state without text of its own: the character is a separator, or the next state takes it.
  transition-After :
      (st : State) (q : Parser)
      → is_transition st ≡ true
      → Kept st cur w
      → r ≢ b'\n'
      → next (field_at st cur w (r ∷ post)) r ≡ some q
      → After cur w r post q
  transition-After st q t k n e =
      let z = k.nothing (transition_nothing st t) in
      let l : length w ≡ 0 = rw z refl in
      let p = field_at st cur w (r ∷ post) in
      elim (Bool-cases (r == b'\t' || r == b' ')) [
        | inl a ↦
            let f : some (shift p) ≡ some q = sym (next-separator p r t a) ∙ e in
            inr (ground (arith, f, l, transition_not_multi st t))
        | inr a ↦
            named-After (next_state st) q (transition_next st t).0
              (subst (Kept (next_state st) cur) (sym z)
                (fresh-Kept (next_state st) cur (transition_next st t).1))
              n (rw l (transition-odd st r t)) (sym (next-passed p r t a) ∙ e)
      ]

  pub next-After :
      (st : State) (q : Parser)
      → Kept st cur w
      → r ≢ b'\n'
      → odd_in st (0 == length w) r ≡ false
      → next (field_at st cur w (r ∷ post)) r ≡ some q
      → After cur w r post q
  next-After st q k n o e = elim (Bool-cases (is_transition st)) [
    | inl t ↦ transition-After st q t k n e
    | inr t ↦ named-After st q t k n o (sym (next-named (field_at st cur w (r ∷ post)) r t) ∙ e)
  ]
