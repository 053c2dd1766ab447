-- ===== src/Log/Rendered.antt =====
-- The text form of a log with nothing to escape, as one list of bytes.
use logd_go.Base.{
  ℕ, ◌+◌, ◌<◌, ◌≡◌, ◌≢◌, refl, List, [], ◌∷◌, ◌++◌, Bytes, All, codes, is_empty, if◌then◌else◌,
  arith, append_assoc, append-nil, ◌∙◌, sym, ap, Bool-cases, inl, inr,
}
use logd_go.Utf8.{runes, runes_from, decode_rune}
use logd_go.Log.{Property, Log, key_message}
use logd_go.Log.Serialize.{
  escaped, escape_runes, append_prop, append_props, append_message, serialize_in, or_dash, write_to,
  string,
}

-- A byte that `escape` writes as it is.
abbrev pub IsUnescaped : ℕ → Type 0
IsUnescaped c =
    (c < 0x80)
    × (c ≢ 0x08)
    × (c ≢ 0x0c)
    × (c ≢ b'\n')
    × (c ≢ b'\r')
    × (c ≢ b'\t')
    × (c ≢ b'"')
    × (c ≢ b'\\')

abbrev pub IsUnescapedProp : Property → Type 0
IsUnescapedProp p = All IsUnescaped p.key × All IsUnescaped p.value

escaped_plain :
    (c : ℕ) (s : Bytes) → IsUnescaped c → (decode_rune c s ≡ (c, 1)) × (escaped c ≡ c ∷ [])
unfolding escaped decode_rune
escaped_plain c s h = (ground arith, ground arith)

escape_runes_from-plain :
    (i : ℕ) (buf s : Bytes) → All IsUnescaped s → escape_runes buf (runes_from i 0 s) ≡ buf ++ s
unfolding escape_runes runes_from
escape_runes_from-plain i buf [] h = sym (append-nil buf)
escape_runes_from-plain i buf (c ∷ s) h =
    let (d, e) = escaped_plain c s h.0 in
    rw (d, e) (escape_runes_from-plain (i + 1) (buf ++ c ∷ []) s h.1 ∙ append_assoc buf (c ∷ []) s)

escape_runes-plain : (buf s : Bytes) → All IsUnescaped s → escape_runes buf (runes s) ≡ buf ++ s
unfolding runes
escape_runes-plain buf s h = escape_runes_from-plain 0 buf s h

append_prop-plain :
    (ks vs : Bytes) (p : Property) (buf : Bytes)
    → IsUnescapedProp p
    → append_prop ks vs p buf ≡ buf ++ (ks ++ (p.key ++ (vs ++ p.value)))
unfolding append_prop
append_prop-plain ks vs p buf h =
    rw (escape_runes-plain (buf ++ ks) p.key h.0)
      (rw (escape_runes-plain (((buf ++ ks) ++ p.key) ++ vs) p.value h.1) (simp append_assoc))

-- Properties behind the first one, and what follows them.
abbrev pub items : List Property → Bytes → Bytes
items [] rest = rest
items (p ∷ ps) rest = b',' ∷ b' ' ∷ (p.key ++ (b':' ∷ b' ' ∷ (p.value ++ items ps rest)))

-- All the properties of a line.
abbrev pub body : List Property → Bytes → Bytes
body [] rest = rest
body (p ∷ ps) rest = p.key ++ (b':' ∷ b' ' ∷ (p.value ++ items ps rest))

-- The properties that the text form shows: the message is written as one.
abbrev pub printed_props : Log → List Property
printed_props l =
    if is_empty l.message
    then l.props
    else l.props ++ (record { key = key_message; value = l.message } ∷ [])

append_props-items :
    (ps : List Property) (buf rest : Bytes)
    → All IsUnescapedProp ps
    → append_props (codes ", ") (codes ": ") ps buf ++ rest ≡ buf ++ items ps rest
unfolding append_props
append_props-items [] buf rest h = refl
append_props-items (p ∷ ps) buf rest h =
    rw (append_prop-plain (codes ", ") (codes ": ") p buf h.0) (
      append_props-items ps (buf ++ (codes ", " ++ (p.key ++ (codes ": " ++ p.value)))) rest h.1
      ∙ simp append_assoc)

-- One property more is written behind the others.
append_props-concat :
    (ps : List Property) (p : Property) (buf : Bytes)
    → append_prop (codes ", ") (codes ": ") p (append_props (codes ", ") (codes ": ") ps buf)
      ≡ append_props (codes ", ") (codes ": ") (ps ++ p ∷ []) buf
unfolding append_props
append_props-concat [] p buf = refl
append_props-concat (q ∷ ps) p buf =
    append_props-concat ps p (append_prop (codes ", ") (codes ": ") q buf)

-- The properties behind the first one, with the message.
abbrev with_message : Log → List Property → List Property
with_message l ps =
    if is_empty l.message then ps else ps ++ (record { key = key_message; value = l.message } ∷ [])

append_message-props :
    (l : Log) (ps : List Property) (buf : Bytes)
    → append_message l (codes ", ") (codes ": ") (append_props (codes ", ") (codes ": ") ps buf)
      ≡ append_props (codes ", ") (codes ": ") (with_message l ps) buf
unfolding append_message
append_message-props l ps buf = elim (Bool-cases (is_empty l.message)) [
  | inl e ↦ rw e
  | inr e ↦ rw e (append_props-concat ps (record { key = key_message; value = l.message }) buf)
]

pub printed-with_message :
    (l : Log) (p : Property) (ps : List Property)
    → l.props ≡ p ∷ ps
    → printed_props l ≡ p ∷ with_message l ps
printed-with_message l p ps e = ground arith

serialize_in-body :
    (l : Log) (p : Property) (ps : List Property) (buf rest : Bytes)
    → All IsUnescapedProp (p ∷ with_message l ps)
    → serialize_in (p ∷ ps) l (b'\t' ∷ []) (codes ", ") (codes ": ") buf ++ rest
      ≡ buf ++ (b'\t' ∷ body (p ∷ with_message l ps) rest)
unfolding serialize_in
serialize_in-body l p ps buf rest h =
    rw (append_message-props l ps (append_prop (b'\t' ∷ []) (codes ": ") p buf)) (
      rw (append_prop-plain (b'\t' ∷ []) (codes ": ") p buf h.0) (
        append_props-items (with_message l ps) (buf ++ (b'\t' ∷ (p.key ++ (codes ": " ++ p.value))))
          rest h.1
        ∙ simp append_assoc))

-- The line of a log that has a property and nothing to escape.
abbrev pub line : Log → Bytes → Bytes
line l rest =
    l.date
    ++ (b' '
        ∷ (l.time
            ++ (b'\t'
                ∷ (l.level
                    ++ (b'\t'
                        ∷ b'['
                        ∷ (or_dash l.thread
                            ++ (b']'
                                ∷ b'\t'
                                ∷ (or_dash l.class ++ (b'\t' ∷ body (printed_props l) rest)))))))))

abbrev header : Log → Bytes
header l =
    let b0 = [] ++ l.date ++ (b' ' ∷ []) ++ l.time ++ (b'\t' ∷ []) in
    let b1 = b0 ++ l.level ++ (b'\t' ∷ []) ++ (b'[' ∷ []) in
    let b2 = b1 ++ or_dash l.thread ++ (b']' ∷ []) ++ (b'\t' ∷ []) in b2 ++ or_dash l.class

pub string-line :
    (l : Log) (p : Property) (ps : List Property) (rest : Bytes)
    → l.props ≡ p ∷ ps
    → All IsUnescapedProp (printed_props l)
    → string l ++ rest ≡ line l rest
unfolding string write_to
string-line l p ps rest e h =
    let q = printed-with_message l p ps e in
    ap (λ x. serialize_in x l (b'\t' ∷ []) (codes ", ") (codes ": ") (header l) ++ rest) e
    ∙ serialize_in-body l p ps (header l) rest (rw q at h)
    ∙ ap (λ x. header l ++ (b'\t' ∷ body x rest)) (sym q)
    ∙ simp append_assoc
