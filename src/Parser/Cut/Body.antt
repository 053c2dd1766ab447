-- ===== src/Parser/Cut/Body.antt =====
-- logging/parse.go: what the handlers of keys and values make of the open field.
use logd_go.Base.{
  codes, ℕ, ◌+◌, ◌≡◌, ◌≢◌, inl, inr, refl, sym, ap, ◌∙◌, true, false, not, ◌&&◌, some, List, [],
  ◌∷◌, ◌++◌, Bytes, length, ◌==◌, arith, Bool-cases, ◌>>=◌, >>=-eq-some,
}
use logd_go.Log.{Property, Log}
use logd_go.Parser.State.{
  State, verify_call_type_state, multi_key_state, value_state, call_type_state, Parser,
}
use logd_go.Parser.Handlers.{
  handle_next_call_type, verify_call_type, handle_next_key, handle_next_value,
  handle_next_multi_key, consume_in, consume_current, promote_first, push_key,
}
use logd_go.Parser.Run.{next}
use logd_go.Parser.Cut.{is_value, opens_value, holds_nothing, field_at, Kept, grown-Kept}
use logd_go.Parser.Cut.Header.{After}

-- consumeCurrent changes the log only.
consume_in-stays :
    (ps : List Property) (p q : Parser)
    → consume_in ps p ≡ some q
    → (q.start ≡ p.start) × (q.end ≡ p.end) × (q.raw ≡ p.raw) × (q.state ≡ p.state)
unfolding consume_in
consume_in-stays [] p q e = ground arith
consume_in-stays (x ∷ xs) p q e = ground arith

comma-moves :
    (p q : Parser) (r : ℕ)
    → (r == b',') ≡ true
    → handle_next_value p r ≡ some q
    → (q.start ≡ p.end + 1) × (q.end ≡ p.end + 1) × (q.raw ≡ p.raw) × (q.state ≢ multi_key_state)
unfolding handle_next_value consume_current
comma-moves p q r a e =
    let (p', m, f) = >>=-eq-some (consume_current p) _ (rw a at e) in
    ground (arith, f, consume_in-stays p.current.props p p' m)

opens_value-added :
    (w : Bytes) (r : ℕ)
    → opens_value w ≡ true
    → r == b' ' && (0 == length w) ≡ false
    → (r == b':') ≡ false
    → (r == b',') ≡ false
    → r ≢ b'\n'
    → opens_value (w ++ r ∷ []) ≡ true
opens_value-added [] r o d b a n = ground arith
opens_value-added (c ∷ w) r o d b a n = o

opens_value-grown : (w : Bytes) (r : ℕ) → w ≢ [] → opens_value (w ++ r ∷ []) ≡ opens_value w
opens_value-grown [] r n = absurd (n refl)
opens_value-grown (c ∷ w) r n = refl

module _ (cur : Log) (w : Bytes) (r : ℕ) (post : Bytes) where
  pub call_type-After :
      (q : Parser)
      → Kept call_type_state cur w
      → r ≢ b'\n'
      → handle_next_call_type (field_at call_type_state cur w (r ∷ post)) r ≡ some q
      → After cur w r post q
  unfolding handle_next_call_type consume_current next
  call_type-After q k n e = elim (Bool-cases (r == b':')) [
    | inl a ↦
        let (p', m, f) =
          >>=-eq-some
            (consume_current (record (field_at call_type_state cur w (r ∷ post)) {
              current = push_key (codes "callType") cur;
            }))
            _ (rw a at e) in
        inr (ground (arith, f, consume_in-stays _ _ p' m))
    | inr a ↦ inl (
      call_type_state,
      ground arith,
      grown-Kept call_type_state call_type_state cur w r k n refl (λ post'. rw a refl) (λ c. cc)
          refl,
    )
  ]

  pub key-After :
      (st : State) (q : Parser)
      → Kept st cur w
      → r ≢ b'\n'
      → (r == b' ') && not (0 == length w) ≡ false
      → is_value st ≡ false
      → holds_nothing st ≡ false
      → ((p : Parser) → p.state ≡ st → (r == b':') ≡ false → next p r ≡ handle_next_key p r)
      → handle_next_key (field_at st cur w (r ∷ post)) r ≡ some q
      → After cur w r post q
  unfolding handle_next_key
  key-After st q k n o v h g e = elim (Bool-cases (r == b' ')) [
    | inl a ↦ inr (ground arith)
    | inr a ↦ elim (Bool-cases (r == b':')) [
      | inl b ↦ inr (ground arith)
      | inr b ↦ inl (
        st,
        ground arith,
        grown-Kept st st cur w r k n refl
            (λ post'. g (field_at st cur w (r ∷ post')) refl b ∙ rw a (rw b refl)) (λ c. cc) h,
      )
    ]
  ]

  pub value-After :
      (q : Parser)
      → Kept value_state cur w
      → r ≢ b'\n'
      → (r == b':') && (0 == length w) ≡ false
      → handle_next_value (field_at value_state cur w (r ∷ post)) r ≡ some q
      → After cur w r post q
  unfolding handle_next_value next
  value-After q k n o e = elim (Bool-cases (r == b',')) [
    | inl a ↦ inr (comma-moves (field_at value_state cur w (r ∷ post)) q r a e)
    | inr a ↦ elim (Bool-cases (r == b':')) [
      | inl b ↦ inl (
        multi_key_state,
        ground arith,
        grown-Kept value_state multi_key_state cur w r k n refl (λ post'. rw a (rw b refl))
            (λ c. opens_value-grown w r (λ z. ground (arith, o, b, ap length z)) ∙ k.opens refl)
            refl,
      )
      | inr b ↦ elim (Bool-cases (r == b' ' && (0 == length w))) [
        | inl d ↦ inr (ground arith)
        | inr d ↦ inl (
          value_state,
          ground arith,
          grown-Kept value_state value_state cur w r k n refl (λ post'. rw a (rw b (ground arith)))
              (λ c. opens_value-added w r (k.opens refl) d b a n) refl,
        )
      ]
    ]
  ]

  pub multi_key-After :
      (q : Parser)
      → Kept multi_key_state cur w
      → r ≢ b'\n'
      → handle_next_multi_key (field_at multi_key_state cur w (r ∷ post)) r ≡ some q
      → After cur w r post q
  unfolding handle_next_multi_key next
  multi_key-After q k n e = elim (Bool-cases (r == b' ')) [
    | inl a ↦ inr (ground arith)
    | inr a ↦ inl (
      value_state,
      ground arith,
      grown-Kept multi_key_state value_state cur w r k n refl (λ post'. rw a refl)
          (λ c. opens_value-grown w r (k.begun refl) ∙ k.opens refl) refl,
    )
  ]

  verify_comma :
      (p : Parser)
      → (r == b',') ≡ true
      → verify_call_type p r ≡ (
          promote_first p.current.props
          >>= (λ ps. handle_next_value (record p { current = record p.current { props = ps } }) r))
  unfolding verify_call_type
  verify_comma p a = rw a refl

  verify_other : (p : Parser) → (r == b',') ≡ false → verify_call_type p r ≡ handle_next_key p r
  unfolding verify_call_type
  verify_other p a = rw a refl

  next-verify :
      (p : Parser)
      → (r == b',') ≡ false
      → p.state ≡ verify_call_type_state
      → next p r ≡ handle_next_key p r
  unfolding next verify_call_type
  next-verify p a s = rw s (rw a refl)

  pub verify-After :
      (q : Parser)
      → Kept verify_call_type_state cur w
      → r ≢ b'\n'
      → (r == b' ') && not (0 == length w) ≡ false
      → verify_call_type (field_at verify_call_type_state cur w (r ∷ post)) r ≡ some q
      → After cur w r post q
  verify-After q k n o e =
      let p = field_at verify_call_type_state cur w (r ∷ post) in
      elim (Bool-cases (r == b',')) [
        | inl a ↦
            let (ps, m, f) = >>=-eq-some (promote_first cur.props) _ (sym (verify_comma p a) ∙ e) in
            inr (comma-moves (record p { current = record cur { props = ps } }) q r a f)
        | inr a ↦
            key-After verify_call_type_state q k n o refl refl (λ p' s b. next-verify p' a s)
              (sym (verify_other p a) ∙ e)
      ]
