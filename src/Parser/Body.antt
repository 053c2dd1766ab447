-- ===== src/Parser/Body.antt =====
-- How the parser reads the properties of a line. The first key is first taken for a call type, until
-- the comma behind its value shows that it is a key.
use logd_go.Base.{
  ℕ, suc, ◌+◌, ◌<◌, ◌≡◌, ◌≢◌, refl, Bool, true, false, some, List, [], ◌∷◌, ◌++◌, Bytes, All, slice,
  ◌==◌, if◌then◌else◌, arith, length, codes, ◌∙◌, ap,
}
use logd_go.Utf8.{runes_from}
use logd_go.Log.{Property, Log}
use logd_go.Parser.State.{
  State, Parser, transition_call_type_state, call_type_state, verify_call_type_state, key_state,
  multi_key_state, value_state,
}
use logd_go.Parser.Handlers.{set_last_value, last_value, consume_in}
use logd_go.Parser.Run.{next, scan}
use logd_go.Parser.Header.{All-map}
use logd_go.Parser.Reading.{
  at, IsText, Reaches, Reaches-trans, Stays, Scans, Scans-token, Scans-first, scan_text, read_piece,
  read_skip,
}

-- The bytes of a key that is not the first, and of the first value: a space there would be lost.
abbrev pub IsKeyByte : ℕ → Type 0
IsKeyByte c = IsText c × (c ≢ b':') × (c ≢ b' ') × (c ≢ b',')

-- The bytes of the first key.
abbrev pub IsFirstKeyByte : ℕ → Type 0
IsFirstKeyByte c = IsText c × (c ≢ b':')

-- The first key: it begins with no white space.
abbrev pub IsFirstKey : Bytes → Type 0
IsFirstKey [] = ⊥
IsFirstKey (c ∷ s) = IsFirstKeyByte c × (c ≢ b' ') × (c ≢ b'\t') × All IsFirstKeyByte s

-- The rest of a value; the flag says that the byte before was a colon, as in `multiKeyState`.
abbrev pub IsValueRest : Bool → Bytes → Type 0
IsValueRest multi [] = multi ≡ false
IsValueRest true (c ∷ s) = IsText c × (c ≢ b' ') × IsValueRest false s
IsValueRest false (c ∷ s) = IsText c × (c ≢ b',') × IsValueRest (c == b':') s

-- A value: no leading space, no comma but behind a colon, no colon at the end or before a space.
abbrev pub IsValue : Bytes → Type 0
IsValue [] = Unit
IsValue (c ∷ s) = (c ≢ b' ') × IsValueRest false (c ∷ s)

first_key-Stays : (c : ℕ) → IsFirstKeyByte c → Stays call_type_state c
unfolding next
first_key-Stays c h = (ground arith, λ start end raw cur. ground arith)

key-Stays : (c : ℕ) → IsKeyByte c → Stays key_state c
unfolding next
key-Stays c h = (ground arith, λ start end raw cur. ground arith)

first_value-Stays : (c : ℕ) → IsKeyByte c → Stays verify_call_type_state c
unfolding next
first_value-Stays c h = (ground arith, λ start end raw cur. ground arith)

abbrev value_state_of : Bool → State
value_state_of multi = if multi then multi_key_state else value_state

next_value_plain :
    (c start end : ℕ) (raw : Bytes) (cur : Log)
    → c ≢ b','
    → (c ≡ b' ' → start < end)
    → next (at value_state start end raw cur) c
      ≡ some (at (value_state_of (c == b':')) start (end + 1) raw cur)
unfolding next
next_value_plain c start end raw cur h k = ground arith

next_multi_plain :
    (c start end : ℕ) (raw : Bytes) (cur : Log)
    → c ≢ b' '
    → next (at multi_key_state start end raw cur) c ≡ some (at value_state start (end + 1) raw cur)
unfolding next
next_multi_plain c start end raw cur h = ground arith

scan_value :
    (multi : Bool) (v rest : Bytes) (start end : ℕ) (raw : Bytes) (cur : Log) (logs : List Log)
    → start < end
    → IsValueRest multi v
    → scan (runes_from end 0 (v ++ rest)) (at (value_state_of multi) start end raw cur) logs
      ≡ scan
          (runes_from (end + length v) 0 rest)
          (at value_state start (end + length v) raw cur)
          logs
scan_value multi [] rest start end raw cur logs h k =
    let e : end + 0 ≡ end = omega arith in rw (e, k)
scan_value true (c ∷ v) rest start end raw cur logs h k =
    let e : end + suc (length v) ≡ end + 1 + length v = omega arith in
    rw e (
      scan_text end c (v ++ rest) (at multi_key_state start end raw cur)
        (at value_state start (end + 1) raw cur) logs k.0 (next_multi_plain c start end raw cur k.1)
      ∙ scan_value false v rest start (end + 1) raw cur logs (omega arith) k.2)
scan_value false (c ∷ v) rest start end raw cur logs h k =
    let e : end + suc (length v) ≡ end + 1 + length v = omega arith in
    rw e (
      scan_text end c (v ++ rest) (at value_state start end raw cur)
        (at (value_state_of (c == b':')) start (end + 1) raw cur) logs k.0
        (next_value_plain c start end raw cur k.1 (λ _. h))
      ∙ scan_value (c == b':') v rest start (end + 1) raw cur logs (omega arith) k.2)

pub Scans-value :
    (raw : Bytes) (cur : Log) (v : Bytes) → IsValue v → Scans raw value_state cur v value_state
Scans-value raw cur [] h = Scans-token raw value_state cur [] tt
Scans-value raw cur (c ∷ v) h = record {
  scans = λ n rest logs.
      let e : n + suc (length v) ≡ n + 1 + length v = omega arith in
      rw e (
        scan_text n c (v ++ rest) (at value_state n n raw cur)
          (at (value_state_of (c == b':')) n (n + 1) raw cur) logs h.1.0
          (next_value_plain c n n raw cur h.1.1 (λ s. absurd (h.0 s)))
        ∙ scan_value (c == b':') v rest n (n + 1) raw cur logs (omega arith) h.1.2);
}

abbrev pub prop : Bytes → Bytes → Property
prop k v = record { key = k; value = v }

pub set_last_value-concat :
    (ps : List Property) (k v w : Bytes)
    → set_last_value (ps ++ prop k v ∷ []) w ≡ ps ++ prop k w ∷ []
unfolding set_last_value
set_last_value-concat [] k v w = refl
set_last_value-concat (p ∷ []) k v w = refl
set_last_value-concat (p ∷ q ∷ ps) k v w = ap (◌∷◌ p) (set_last_value-concat (q ∷ ps) k v w)

pub last_value-concat :
    (ps : List Property) (k v : Bytes) → last_value (ps ++ prop k v ∷ []) ≡ some v
unfolding last_value
last_value-concat [] k v = refl
last_value-concat (p ∷ []) k v = refl
last_value-concat (p ∷ q ∷ ps) k v = last_value-concat (q ∷ ps) k v

-- Behind a value and its comma.
consume_in-concat :
    (ps : List Property) (k w : Bytes) (p : Parser)
    → slice p.raw p.start p.end ≡ some w
    → consume_in (ps ++ prop k [] ∷ []) p
      ≡ some (record p { current = record p.current { props = ps ++ prop k w ∷ [] } })
unfolding consume_in
consume_in-concat [] k w p e = rw e
consume_in-concat (q ∷ ps) k w p e = ground (arith, set_last_value-concat (q ∷ ps) k [] w)

module _ (raw : Bytes) (cur : Log) where
  abbrev pub with_props : List Property → Log
  with_props ps = record cur { props = ps }

  -- The first key, up to its value.
  pub read_first_key :
      (k t : Bytes)
      → IsFirstKey k
      → Reaches raw transition_call_type_state
          (with_props [])
          (k ++ (b':' ∷ b' ' ∷ t))
          verify_call_type_state
          (with_props (prop (codes "callType") k ∷ []))
          t
  unfolding next
  read_first_key [] t h = absurd h
  read_first_key (c ∷ k) t h =
      Reaches-trans
        (read_piece verify_call_type_state (with_props (prop (codes "callType") (c ∷ k) ∷ [])) b':'
          (b' ' ∷ t)
          (Scans-first raw transition_call_type_state call_type_state (with_props []) c k h.0.0
            (λ n. ground arith) (All-map k first_key-Stays h.3))
          (omega arith) (λ n k e. ground arith))
        (read_skip verify_call_type_state verify_call_type_state
          (with_props (prop (codes "callType") (c ∷ k) ∷ [])) b' ' t (omega arith)
          (λ n. ground arith))

  -- The first value and its comma: the call type turns out to be a key.
  pub read_first_value :
      (k v t : Bytes)
      → All IsKeyByte v
      → Reaches raw verify_call_type_state
          (with_props (prop (codes "callType") k ∷ []))
          (v ++ (b',' ∷ t))
          key_state
          (with_props (prop k v ∷ []))
          t
  unfolding next
  read_first_value k v t h =
      read_piece key_state (with_props (prop k v ∷ [])) b',' t
        (Scans-token raw verify_call_type_state (with_props (prop (codes "callType") k ∷ [])) v
          (All-map v first_value-Stays h))
        (omega arith) (λ n k e. ground arith)

  -- Each further key.
  pub read_key :
      (ps : List Property) (k t : Bytes)
      → All IsKeyByte k
      → Reaches raw key_state
          (with_props ps)
          (b' ' ∷ (k ++ (b':' ∷ b' ' ∷ t)))
          value_state
          (with_props (ps ++ prop k [] ∷ []))
          t
  unfolding next
  read_key ps k t h =
      Reaches-trans
        (read_skip key_state key_state (with_props ps) b' ' (k ++ (b':' ∷ b' ' ∷ t)) (omega arith)
          (λ n. ground arith))
        (Reaches-trans
          (read_piece value_state (with_props (ps ++ prop k [] ∷ [])) b':' (b' ' ∷ t)
            (Scans-token raw key_state (with_props ps) k (All-map k key-Stays h)) (omega arith)
            (λ n k e. ground arith))
          (read_skip value_state value_state (with_props (ps ++ prop k [] ∷ [])) b' ' t
            (omega arith) (λ n. ground arith)))

  -- Its value and the comma behind it.
  pub read_value :
      (ps : List Property) (k v t : Bytes)
      → IsValue v
      → Reaches raw value_state
          (with_props (ps ++ prop k [] ∷ []))
          (v ++ (b',' ∷ t))
          key_state
          (with_props (ps ++ prop k v ∷ []))
          t
  unfolding next
  read_value ps k v t h =
      read_piece key_state (with_props (ps ++ prop k v ∷ [])) b',' t
        (Scans-value raw (with_props (ps ++ prop k [] ∷ [])) v h) (omega arith)
        (λ n j e. ground (
          arith,
          consume_in-concat ps k v (at value_state n j raw (with_props (ps ++ prop k [] ∷ []))) e,
        ))
