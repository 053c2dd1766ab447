-- ===== src/Parser/Embed.antt =====
-- The parser does not see where its text lies: what it does on a text it also does with more text
-- before and behind, at shifted offsets.
use logd_go.Base.{
  ℕ, zero, suc, ◌+◌, ◌-◌, ◌≤◌, ◌≡◌, ◌≢◌, ◌⊎◌, inl, inr, refl, Option, none, some, List, [], ◌∷◌,
  ◌++◌, Bytes, slice, length, drop, take, leb, codes, arith, Bool-cases, Option-cases,
  length-append, length-drop, ◌&&◌, ap,
}
use logd_go.Log.{Property}
use logd_go.Parser.State.{Field, Parser, piece}
use logd_go.Parser.Handlers.{
  handle_next_date, handle_next_header, handle_next_thread, handle_next_thread_bracket,
  handle_next_call_type, verify_call_type, handle_next_key, handle_next_value,
  handle_next_multi_key, store_field, consume_in, consume_current, promote_first,
}

pub take-append_le : (n : ℕ) (xs ys : Bytes) → n ≤ length xs → take n (xs ++ ys) ≡ take n xs
take-append_le zero xs ys h = refl
take-append_le (suc n) [] ys h = absurd (omega arith)
take-append_le (suc n) (x ∷ xs) ys h = ap (◌∷◌ x) (take-append_le n xs ys (omega arith))

pub drop-append_le : (n : ℕ) (xs ys : Bytes) → n ≤ length xs → drop n (xs ++ ys) ≡ drop n xs ++ ys
drop-append_le zero xs ys h = refl
drop-append_le (suc n) [] ys h = absurd (omega arith)
drop-append_le (suc n) (x ∷ xs) ys h = drop-append_le n xs ys (omega arith)

pub drop-append_add : (n : ℕ) (xs ys : Bytes) → drop (length xs + n) (xs ++ ys) ≡ drop n ys
drop-append_add n [] ys = let e : 0 + n ≡ n = omega arith in rw e
drop-append_add n (x ∷ xs) ys =
    let e : suc (length xs) + n ≡ suc (length xs + n) = omega arith in
    rw e (drop-append_add n xs ys)

-- A slice that does not panic is found in the longer text too.
slice_embed :
    (pre s post : Bytes) (i j : ℕ)
    → slice s i j ≢ none
    → slice (pre ++ (s ++ post)) (length pre + i) (length pre + j) ≡ slice s i j
unfolding slice
slice_embed pre s post i j h = elim (Bool-cases (leb i j && leb j (length s))) [
  | inl e ↦ rw e (
      ground (
        arith,
        drop-append_add i pre (s ++ post),
        drop-append_le i s post,
        take-append_le (j - i) (drop i s) post,
        length-append pre (s ++ post),
        length-append s post,
        length-drop i s,
      ))
  | inr e ↦ absurd (h (rw e))
]

module _ (pre post : Bytes) where
  abbrev pub embed : Parser → Parser
  embed p = record {
    state = p.state;
    start = length pre + p.start;
    end = length pre + p.end;
    raw = pre ++ (p.raw ++ post);
    current = p.current;
  }

  abbrev pub carried : Option Parser → Option Parser
  carried none = none
  carried (some p) = some (embed p)

  -- The second call does what the first one does, if that returns.
  abbrev pub Simulates : Option Parser → Option Parser → Type 0
  Simulates o o' = o ≢ none → o' ≡ carried o

  pub piece-embed : (p : Parser) → piece p ≢ none → piece (embed p) ≡ piece p
  piece-embed p h = slice_embed pre p.raw post p.start p.end h

  consume_in-Simulates :
      (ps : List Property) (p : Parser) → Simulates (consume_in ps p) (consume_in ps (embed p))
  unfolding consume_in
  consume_in-Simulates [] p h = refl
  consume_in-Simulates (q ∷ qs) p h = ground (arith, piece-embed p)

  module _ (p : Parser) (r : ℕ) where
    pub key-Simulates : Simulates (handle_next_key p r) (handle_next_key (embed p) r)
    unfolding handle_next_key
    key-Simulates h = ground (arith, piece-embed p)

    pub multi_key-Simulates :
        Simulates (handle_next_multi_key p r) (handle_next_multi_key (embed p) r)
    unfolding handle_next_multi_key
    multi_key-Simulates h =
        let e : length pre + p.end - 1 ≡ length pre + (p.end - 1) ⊎ (p.end ≡ 0) = ground arith in
        ground (arith, slice_embed pre p.raw post p.start (p.end - 1))

    pub value-Simulates : Simulates (handle_next_value p r) (handle_next_value (embed p) r)
    unfolding handle_next_value consume_current
    value-Simulates h = ground (arith, consume_in-Simulates p.current.props p)

    field-Simulates : (f : Field) → Simulates (store_field f p) (store_field f (embed p))
    unfolding store_field
    field-Simulates f h = ground (arith, piece-embed p)

    pub date-Simulates :
        (f : Field) → Simulates (handle_next_date f p r) (handle_next_date f (embed p) r)
    unfolding handle_next_date
    date-Simulates f h = ground (arith, field-Simulates f)

    pub header-Simulates :
        (f : Field) → Simulates (handle_next_header f p r) (handle_next_header f (embed p) r)
    unfolding handle_next_header
    header-Simulates f h = ground (arith, field-Simulates f)

    pub bracket-Simulates :
        Simulates (handle_next_thread_bracket p r) (handle_next_thread_bracket (embed p) r)
    unfolding handle_next_thread_bracket
    bracket-Simulates h = ground (arith, piece-embed p)

    pub thread-Simulates : Simulates (handle_next_thread p r) (handle_next_thread (embed p) r)
    unfolding handle_next_thread handle_next_header store_field
    thread-Simulates h = ground (arith, piece-embed p)

    pub call_type-Simulates :
        Simulates (handle_next_call_type p r) (handle_next_call_type (embed p) r)
    unfolding handle_next_call_type
    call_type-Simulates h =
        let k : Property = record { key = codes "callType"; value = [] } in
        let q : Parser = record p {
          current = record p.current { props = p.current.props ++ k ∷ [] };
        } in
        ground (arith, consume_in-Simulates q.current.props q)

    pub verify-Simulates : Simulates (verify_call_type p r) (verify_call_type (embed p) r)
    unfolding verify_call_type
    verify-Simulates h = elim (Option-cases (promote_first p.current.props)) [
      | inl e ↦ ground (arith, key-Simulates)
      | inr (ps, e) ↦
          let q : Parser = record p { current = record p.current { props = ps } } in
          ground (arith, key-Simulates, consume_in-Simulates q.current.props q)
    ]
