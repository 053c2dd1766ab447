-- ===== src/Parser/Safety.antt =====
-- The parser does not panic: the offsets stay ordered and inside the text, and the states that touch
-- the last property have one.
use logd_go.Base.{
  ℕ, ◌+◌, ◌-◌, ◌≤◌, ◌<◌, ◌≡◌, ◌≢◌, ◌⊎◌, inr, refl, Bool, true, false, Option, none, some, List, [],
  ◌∷◌, ◌++◌, Bytes, slice_ok, length, drop, take, codes, arith,
}
use logd_go.Log.{Property}
use logd_go.Parser.State.{
  State, thread_state, thread_bracket_state, call_type_state, verify_call_type_state, key_state,
  multi_key_state, value_state, Field, Parser, piece, next_state,
}
use logd_go.Parser.Handlers.{
  handle_next_date, handle_next_header, handle_next_thread, handle_next_thread_bracket,
  handle_next_call_type, verify_call_type, handle_next_key, handle_next_value,
  handle_next_multi_key, promote_first, store_field, consume_in, consume_current, set_last,
  set_last_value,
}

-- The states that follow a key in the properties.
abbrev pub has_key : State → Bool
has_key verify_call_type_state = true
has_key key_state = true
has_key multi_key_state = true
has_key value_state = true
has_key _ = false

-- Between two rounds of the loop, when the bytes before `i` have been read.
pub record Inv (i : ℕ) (raw : Bytes) (p : Parser) : Type 0 where
  pub same_raw : p.raw ≡ raw
  pub ordered : p.start ≤ p.end
  pub reached : p.end ≤ i
  pub multi : p.state ≡ multi_key_state → p.start < p.end
  pub keyed : has_key p.state ≡ true → p.current.props ≢ []

-- The call returns, and the parser that it leaves is well formed.
abbrev pub Good : ℕ → Bytes → Option Parser → Type 0
Good i raw none = ⊥
Good i raw (some p) = Inv i raw p

pub piece_ok :
    {i : ℕ} {raw : Bytes} (p : Parser)
    → Inv i raw p
    → i ≤ length raw
    → piece p ≡ some (take (p.end - p.start) (drop p.start p.raw))
piece_ok p v h = slice_ok p.raw p.start p.end v.ordered (ground arith)

concat-ne-nil : (ps : List Property) (q : Property) → ps ++ q ∷ [] ≢ []
concat-ne-nil [] q = λ e. cc
concat-ne-nil (p ∷ ps) q = λ e. cc

set_last_value-ne-nil : (ps : List Property) (v : Bytes) → ps ≢ [] → set_last_value ps v ≢ []
unfolding set_last_value
set_last_value-ne-nil [] v h = h
set_last_value-ne-nil (p ∷ []) v h = λ e. cc
set_last_value-ne-nil (p ∷ q ∷ ps) v h = λ e. cc

module _ {i : ℕ} {raw : Bytes} (p : Parser) (r : ℕ) (v : Inv i raw p) (h : i < length raw) where
  store_field-Good :
      (f : Field) → has_key (next_state p.state) ≡ false → Good (i + 1) raw (store_field f p)
  unfolding store_field
  store_field-Good f k = ground (arith, piece_ok p v)

  pub handle_next_key-Good :
      (p.state ≡ key_state) ⊎ (p.state ≡ verify_call_type_state)
      → Good (i + 1) raw (handle_next_key p r)
  unfolding handle_next_key
  handle_next_key-Good s = ground (arith, piece_ok p v, concat-ne-nil p.current.props)

  pub handle_next_date-Good :
      (f : Field)
      → has_key (next_state p.state) ≡ false
      → p.state ≢ multi_key_state
      → has_key p.state ≡ false
      → Good (i + 1) raw (handle_next_date f p r)
  unfolding handle_next_date
  handle_next_date-Good f k m n = ground (arith, store_field-Good f k)

  pub handle_next_header-Good :
      (f : Field)
      → has_key (next_state p.state) ≡ false
      → p.state ≢ multi_key_state
      → has_key p.state ≡ false
      → Good (i + 1) raw (handle_next_header f p r)
  unfolding handle_next_header
  handle_next_header-Good f k m n = ground (arith, store_field-Good f k)

  pub handle_next_thread_bracket-Good :
      p.state ≡ thread_bracket_state → Good (i + 1) raw (handle_next_thread_bracket p r)
  unfolding handle_next_thread_bracket
  handle_next_thread_bracket-Good s = ground (arith, piece_ok p v)

  consume_in_ok :
      (ps : List Property)
      → p.current.props ≡ ps
      → ps ≢ []
      → consume_in ps p
        ≡ some (record p {
          current = record p.current {
            props = set_last_value ps (take (p.end - p.start) (drop p.start p.raw));
          };
        })
  unfolding consume_in
  consume_in_ok [] e n = absurd (n refl)
  consume_in_ok (q ∷ qs) e n = ground (arith, piece_ok p v)

  pub handle_next_value-Good :
      p.current.props ≢ [] → has_key p.state ≡ true → Good (i + 1) raw (handle_next_value p r)
  unfolding handle_next_value consume_current
  handle_next_value-Good n s = ground (
    arith,
    consume_in_ok p.current.props refl n,
    set_last_value-ne-nil p.current.props (take (p.end - p.start) (drop p.start p.raw)) n,
  )

module _ {i : ℕ} {raw : Bytes} (p : Parser) (r : ℕ) (v : Inv i raw p) (h : i < length raw) where
  set_last_ok :
      (ps : List Property) (q : Property)
      → ps ≢ []
      → (qs : List Property) × (set_last ps q ≡ some qs) × (qs ≢ [])
  unfolding set_last
  set_last_ok [] q n = absurd (n refl)
  set_last_ok (a ∷ []) q n = (q ∷ [], refl, λ e. cc)
  set_last_ok (a ∷ b ∷ ps) q n =
      let (qs, e, m) = set_last_ok (b ∷ ps) q (λ e. cc) in (a ∷ qs, rw e, λ e. cc)

  promote_first_ok :
      (ps : List Property)
      → ps ≢ []
      → (qs : List Property) × (promote_first ps ≡ some qs) × (qs ≢ [])
  unfolding promote_first
  promote_first_ok [] n = absurd (n refl)
  promote_first_ok (a ∷ ps) n = (record a { key = a.value } ∷ ps, refl, λ e. cc)

  pub handle_next_multi_key-Good :
      p.state ≡ multi_key_state → Good (i + 1) raw (handle_next_multi_key p r)
  unfolding handle_next_multi_key
  handle_next_multi_key-Good s =
      let k = take (p.end - 1 - p.start) (drop p.start p.raw) in
      let (qs, e, m) =
        set_last_ok p.current.props (record { key = k; value = [] }) (v.keyed (ground arith)) in
      ground (arith, slice_ok p.raw p.start (p.end - 1))

  pub handle_next_thread-Good : p.state ≡ thread_state → Good (i + 1) raw (handle_next_thread p r)
  unfolding handle_next_thread handle_next_header store_field
  handle_next_thread-Good s = ground (arith, piece_ok p v)

  pub handle_next_call_type-Good :
      p.state ≡ call_type_state → Good (i + 1) raw (handle_next_call_type p r)
  unfolding handle_next_call_type
  handle_next_call_type-Good s =
      let k : Property = record { key = codes "callType"; value = [] } in
      let q : Parser = record p {
        current = record p.current { props = p.current.props ++ k ∷ [] };
      } in
      let w : Inv i raw q = ground arith in
      let n = concat-ne-nil p.current.props k in
      ground (
        arith,
        consume_in_ok q r w h q.current.props refl n,
        set_last_value-ne-nil q.current.props (take (p.end - p.start) (drop p.start p.raw)) n,
      )

  pub verify_call_type-Good :
      p.state ≡ verify_call_type_state → Good (i + 1) raw (verify_call_type p r)
  unfolding verify_call_type
  verify_call_type-Good s =
      let (qs, e, n) = promote_first_ok p.current.props (v.keyed (ground arith)) in
      let q : Parser = record p { current = record p.current { props = qs } } in
      let w : Inv i raw q = ground arith in
      ground (arith, handle_next_value-Good q r w h n, handle_next_key-Good p r v h (inr s))
