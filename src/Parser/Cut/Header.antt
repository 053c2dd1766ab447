-- ===== src/Parser/Cut/Header.antt =====
-- logging/parse.go: what the handlers of the header make of the open field.
use logd_go.Base.{
  ℕ, ◌+◌, ◌≡◌, ◌≢◌, ◌⊎◌, inl, inr, refl, sym, subst, ◌∙◌, false, not, ◌&&◌, ◌||◌, some, [], ◌∷◌,
  ◌++◌, Bytes, length, ◌==◌, arith, Bool-cases,
}
use logd_go.Log.{Log}
use logd_go.Parser.State.{
  State, thread_state, thread_bracket_state, thread_no_bracket_state, multi_key_state, Parser,
  Field, next_state,
}
use logd_go.Parser.Handlers.{
  handle_next_date, handle_next_header, handle_next_thread, handle_next_thread_bracket,
  is_date_rune, store_field,
}
use logd_go.Parser.Run.{next}
use logd_go.Parser.Cut.{is_value, holds_nothing, field_at, Kept, fresh-Kept, grown-Kept}

module _ (cur : Log) (w : Bytes) (r : ℕ) (post : Bytes) where
  abbrev pub grown : State → Parser
  grown st = record {
    state = st;
    start = 0;
    end = length w + 1;
    raw = w ++ (r ∷ post);
    current = cur;
  }

  -- The field goes on, or another one begins behind the character.
  abbrev pub After : Parser → Type 0
  After q =
      ((st : State) × (q ≡ grown st) × Kept st cur (w ++ r ∷ []))
      ⊎ ((q.start ≡ length w + 1)
          × (q.end ≡ length w + 1)
          × (q.raw ≡ w ++ (r ∷ post))
          × (q.state ≢ multi_key_state))

  store_field-After :
      (f : Field) (st : State) (q : Parser)
      → next_state st ≢ multi_key_state
      → store_field f (field_at st cur w (r ∷ post)) ≡ some q
      → After q
  unfolding store_field
  store_field-After f st q n e = inr (ground arith)

  pub header-After :
      (f : Field) (st : State) (q : Parser)
      → Kept st cur w
      → r ≢ b'\n'
      → (r == b'[') && not (0 == length w) ≡ false
      → next_state st ≢ multi_key_state
      → is_value st ≡ false
      → holds_nothing st ≡ false
      → ((p : Parser) → p.state ≡ st → next p r ≡ handle_next_header f p r)
      → handle_next_header f (field_at st cur w (r ∷ post)) r ≡ some q
      → After q
  unfolding handle_next_header
  header-After f st q k n o m v h g e = elim (Bool-cases (r == b'[')) [
    | inl a ↦ inr (ground arith)
    | inr a ↦ elim (Bool-cases (r == b'\t' || r == b' ' || r == b']')) [
      | inl b ↦ store_field-After f st q m (rw b at (rw a at e))
      | inr b ↦ inl (
        st,
        ground arith,
        grown-Kept st st cur w r k n refl
            (λ post'. g (field_at st cur w (r ∷ post')) refl ∙ rw a (rw b refl)) (λ c. cc) h,
      )
    ]
  ]

  pub date-After :
      (f : Field) (st : State) (q : Parser)
      → Kept st cur w
      → r ≢ b'\n'
      → (r == b'[') && not (0 == length w) ≡ false
      → next_state st ≢ multi_key_state
      → is_value st ≡ false
      → holds_nothing st ≡ false
      → ((p : Parser) → p.state ≡ st → next p r ≡ handle_next_date f p r)
      → handle_next_date f (field_at st cur w (r ∷ post)) r ≡ some q
      → After q
  unfolding handle_next_date
  date-After f st q k n o m v h g e = elim (Bool-cases (r == b'[')) [
    | inl a ↦ inr (ground arith)
    | inr a ↦ elim (Bool-cases (is_date_rune r)) [
      | inl b ↦ inl (
        st,
        ground arith,
        grown-Kept st st cur w r k n refl
            (λ post'. g (field_at st cur w (r ∷ post')) refl ∙ rw a (rw b refl)) (λ c. cc) h,
      )
      | inr b ↦ store_field-After f st q m (rw b at (rw a at e))
    ]
  ]

  pub bracket-After :
      (q : Parser)
      → Kept thread_bracket_state cur w
      → r ≢ b'\n'
      → handle_next_thread_bracket (field_at thread_bracket_state cur w (r ∷ post)) r ≡ some q
      → After q
  unfolding handle_next_thread_bracket next
  bracket-After q k n e = elim (Bool-cases (r == b']' || r == b'\t')) [
    | inl a ↦ inr (ground arith)
    | inr a ↦ inl (
      thread_bracket_state,
      ground arith,
      grown-Kept thread_bracket_state thread_bracket_state cur w r k n refl (λ post'. rw a refl)
          (λ c. cc) refl,
    )
  ]

  thread_no_bracket :
      (p : Parser)
      → (r == b'[') ≡ false
      → handle_next_thread p r
        ≡ handle_next_header Field.thread (record p { state = thread_no_bracket_state }) r
  unfolding handle_next_thread
  thread_no_bracket p a = rw a refl

  next-thread_no_bracket :
      (p : Parser)
      → p.state ≡ thread_no_bracket_state
      → next p r ≡ handle_next_header Field.thread p r
  unfolding next
  next-thread_no_bracket p s = rw s refl

  pub thread-After :
      (q : Parser)
      → Kept thread_state cur w
      → r ≢ b'\n'
      → handle_next_thread (field_at thread_state cur w (r ∷ post)) r ≡ some q
      → After q
  unfolding handle_next_thread next
  thread-After q k n e =
      let z = k.nothing refl in
      elim (Bool-cases (r == b'[')) [
        | inl a ↦ inr (ground (arith, z))
        | inr a ↦
            header-After Field.thread thread_no_bracket_state q
              (subst (Kept thread_no_bracket_state cur) (sym z)
                (fresh-Kept thread_no_bracket_state cur (λ c. cc)))
              n (rw a refl) (λ c. cc) refl refl next-thread_no_bracket
              (sym (thread_no_bracket (field_at thread_state cur w (r ∷ post)) a) ∙ e)
      ]
