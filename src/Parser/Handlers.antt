-- ===== src/Parser/Handlers.antt =====
-- logging/parse.go: the handlers, one for each state or kind of state.
use logd_go.Base.{
  ℕ, ◌+◌, ◌-◌, Bool, true, false, ◌||◌, ◌&&◌, Option, none, some, List, [], ◌∷◌, ◌++◌, Bytes, codes,
  slice, leb, ◌==◌, if◌then◌else◌, ◌>>=◌,
}
use logd_go.Log.{Property, Log}
use logd_go.Parser.State.{
  thread_bracket_state, thread_no_bracket_state, transition_class_state, key_state, multi_key_state,
  value_state, Field, Parser, piece, put_field, next_state,
}

-- `p.end++; p.start = p.end`
abbrev pub restart : Parser → Parser
restart p = record p { end = p.end + 1; start = p.end + 1 }

abbrev pub extend : Parser → Parser
extend p = record p { end = p.end + 1 }

abbrev pub shift : Parser → Parser
shift p = record p { start = p.start + 1; end = p.end + 1 }

-- `log.props = append(log.props, Property{key: key})`
abbrev pub push_key : Bytes → Log → Log
push_key k l = record l { props = l.props ++ record { key = k; value = [] } ∷ [] }

unfoldable pub handle_next_key : Parser → ℕ → Option Parser
handle_next_key p r =
    if r == b' '
    then some (if p.start == p.end then shift p else p)
    else if r == b':'
    then (do
      k ← piece p
      some (restart (record p { current = push_key k p.current; state = value_state })))
    else some (extend p)

-- `log.props[len(log.props)-1] = p`, which panics if there is none.
unfoldable pub set_last : List Property → Property → Option (List Property)
set_last [] p = none
set_last (q ∷ []) p = some (p ∷ [])
set_last (q ∷ q' ∷ qs) p = do rest ← set_last (q' ∷ qs) p; some (q ∷ rest)

-- `p.raw[p.start : p.end-1]`, with a negative bound at `p.end` 0.
abbrev pub piece_but_last : Parser → Option Bytes
piece_but_last p = if p.end == 0 then none else slice p.raw p.start (p.end - 1)

unfoldable pub handle_next_multi_key : Parser → ℕ → Option Parser
unfolding set_last
handle_next_multi_key p r =
    if r == b' '
    then (do
      k ← piece_but_last p
      ps ← set_last p.current.props (record { key = k; value = [] })
      some (record (restart p) { current = record p.current { props = ps }; state = value_state }))
    else some (extend (record p { state = value_state }))

-- `log.props[len(log.props)-1].value = v` where there is a property.
unfoldable pub set_last_value : List Property → Bytes → List Property
set_last_value [] v = []
set_last_value (q ∷ []) v = record q { value = v } ∷ []
set_last_value (q ∷ q' ∷ qs) v = q ∷ set_last_value (q' ∷ qs) v

unfoldable pub last_value : List Property → Option Bytes
last_value [] = none
last_value (q ∷ []) = some q.value
last_value (q ∷ q' ∷ qs) = last_value (q' ∷ qs)

unfoldable pub consume_in : List Property → Parser → Option Parser
unfolding set_last_value
consume_in [] p = some p
consume_in ps p = do
  v ← piece p
  some (record p { current = record p.current { props = set_last_value ps v } })

unfoldable pub consume_current : Parser → Option Parser
unfolding consume_in
consume_current p = consume_in p.current.props p

-- The test of consumeLog: is what remains the message?
unfoldable pub remains_message : Option Bytes → Bool
remains_message none = true
remains_message (some []) = false
remains_message (some (c ∷ cs)) = true

unfoldable pub consume_log : Parser → Option Parser
unfolding set_last_value last_value remains_message
consume_log p = do
  v ← piece p
  some (record p {
    current =
        if remains_message (last_value p.current.props)
        then record p.current { message = v }
        else record p.current { props = set_last_value p.current.props v };
  })

unfoldable pub handle_next_value : Parser → ℕ → Option Parser
unfolding consume_current
handle_next_value p r =
    if r == b','
    then (do p' ← consume_current p; some (restart (record p' { state = key_state })))
    else if r == b':'
    then some (extend (record p { state = multi_key_state }))
    else if r == b' '
    then some (extend (if p.start == p.end then record p { start = p.start + 1 } else p))
    else some (extend p)

-- The flag asks for the recursive call of `next`.
unfoldable pub handle_transition : Parser → ℕ → Parser × Bool
handle_transition p r =
    if r == b'\t' || r == b' '
    then (shift p, false)
    else (record p { state = next_state p.state }, true)

abbrev pub is_date_rune : ℕ → Bool
is_date_rune r = leb b'0' r && leb r b'9' || r == b':' || r == b',' || r == b'.' || r == b'-'

-- `*prop = p.raw[p.start:p.end]; p.end++; p.start = p.end; p.state++`
unfoldable pub store_field : Field → Parser → Option Parser
unfolding put_field next_state
store_field f p = do
  v ← piece p
  some (restart (record p { current = put_field f v p.current; state = next_state p.state }))

unfoldable pub handle_next_date : Field → Parser → ℕ → Option Parser
unfolding store_field
handle_next_date f p r =
    if r == b'['
    then some (shift p)
    else if is_date_rune r
    then some (extend p)
    else store_field f p

unfoldable pub handle_next_header : Field → Parser → ℕ → Option Parser
unfolding store_field
handle_next_header f p r =
    if r == b'['
    then some (shift p)
    else if r == b'\t' || r == b' ' || r == b']'
    then store_field f p
    else some (extend p)

unfoldable pub handle_next_thread_bracket : Parser → ℕ → Option Parser
handle_next_thread_bracket p r =
    if r == b']' || r == b'\t'
    then (do
      v ← piece p
      some (
          restart (record p {
            current = record p.current { thread = v };
            state = transition_class_state;
          })))
    else some (extend p)

unfoldable pub handle_next_thread : Parser → ℕ → Option Parser
unfolding handle_next_header
handle_next_thread p r =
    if r == b'['
    then some (shift (record p { state = thread_bracket_state }))
    else handle_next_header Field.thread (record p { state = thread_no_bracket_state }) r

unfoldable pub handle_next_call_type : Parser → ℕ → Option Parser
unfolding consume_current next_state
handle_next_call_type p r =
    if r == b':'
    then (do
      p' ← consume_current (record p { current = push_key (codes "callType") p.current })
      some (restart (record p' { state = next_state p'.state })))
    else some (extend p)

-- `log.props[0].key = log.props[0].value`
unfoldable pub promote_first : List Property → Option (List Property)
promote_first [] = none
promote_first (q ∷ qs) = some (record q { key = q.value } ∷ qs)

unfoldable pub verify_call_type : Parser → ℕ → Option Parser
unfolding promote_first handle_next_value handle_next_key
verify_call_type p r =
    if r == b','
    then (do
      ps ← promote_first p.current.props
      handle_next_value (record p { current = record p.current { props = ps } }) r)
    else handle_next_key p r
