-- ===== src/Log/Serialize.antt =====
-- The serialisation of logging/logging.go: the text form that the parser reads, and JSON. A buffer is
-- the list of the bytes written so far, and each writer returns the longer one.
use logd_go.Base.{ℕ, List, [], ◌∷◌, ◌++◌, Bytes, codes, is_empty, ◌==◌, if◌then◌else◌}
use logd_go.Utf8.{runes, encode_rune}
use logd_go.Log.{Property, Log, key_message}

abbrev backslashed : ℕ → Bytes
backslashed c = b'\\' ∷ c ∷ []

-- What `escape` writes for one rune.
unfoldable pub escaped : ℕ → Bytes
unfolding encode_rune
escaped r =
    if r == 0x08
    then backslashed b'b'
    else if r == 0x0c
    then backslashed b'f'
    else if r == b'\n'
    then backslashed b'n'
    else if r == b'\r'
    then backslashed b'r'
    else if r == b'\t'
    then backslashed b't'
    else if r == b'"'
    then backslashed b'"'
    else if r == b'\\'
    then backslashed b'\\'
    else encode_rune r

abbrev pub escape : Bytes → ℕ → Bytes
escape buf r = buf ++ escaped r

-- `for _, r := range s { escape(buf, r) }`
unfoldable pub escape_runes : Bytes → List (ℕ × ℕ) → Bytes
escape_runes buf [] = buf
escape_runes buf ((i, r) ∷ rs) = escape_runes (escape buf r) rs

unfoldable pub append_prop : Bytes → Bytes → Property → Bytes → Bytes
append_prop key_sep value_sep p buf =
    escape_runes (escape_runes (buf ++ key_sep) (runes p.key) ++ value_sep) (runes p.value)

-- The loop over `l.props[1:]`.
unfoldable pub append_props : Bytes → Bytes → List Property → Bytes → Bytes
append_props key_sep value_sep [] buf = buf
append_props key_sep value_sep (p ∷ ps) buf =
    append_props key_sep value_sep ps (append_prop key_sep value_sep p buf)

-- The code behind the label `msg`.
unfoldable pub append_message : Log → Bytes → Bytes → Bytes → Bytes
append_message l key_sep value_sep buf =
    if is_empty l.message
    then buf
    else append_prop key_sep value_sep (record { key = key_message; value = l.message }) buf

unfoldable pub serialize_in : List Property → Log → Bytes → Bytes → Bytes → Bytes → Bytes
serialize_in [] l header_sep key_sep value_sep buf = append_message l header_sep value_sep buf
serialize_in (p ∷ ps) l header_sep key_sep value_sep buf =
    append_message l key_sep value_sep
      (append_props key_sep value_sep ps (append_prop header_sep value_sep p buf))

-- `l.serialize(buf, headerSep, keySep, valueSep)`
abbrev pub serialize : Log → Bytes → Bytes → Bytes → Bytes → Bytes
serialize l buf header_sep key_sep value_sep =
    serialize_in l.props l header_sep key_sep value_sep buf

unfoldable pub write_json_to : Log → Bytes → Bytes
write_json_to l buf =
    let b0 = buf ++ codes "{\"timestamp\": \"" in
    let b1 = b0 ++ l.date ++ (b' ' ∷ []) ++ l.time in
    let b2 = b1 ++ codes "\", \"level\": \"" ++ l.level in
    let b3 = b2 ++ codes "\", \"thread\": \"" ++ l.thread in
    let b4 = b3 ++ codes "\", \"class\": \"" ++ l.class in
    serialize l b4 (codes "\", \"") (codes "\", \"") (codes "\": \"") ++ codes "\"}"

-- The text, or a dash for an empty one.
abbrev pub or_dash : Bytes → Bytes
or_dash s = if is_empty s then b'-' ∷ [] else s

unfoldable pub write_to : Log → Bytes → Bytes
write_to l buf =
    let b0 = buf ++ l.date ++ (b' ' ∷ []) ++ l.time ++ (b'\t' ∷ []) in
    let b1 = b0 ++ l.level ++ (b'\t' ∷ []) ++ (b'[' ∷ []) in
    let b2 = b1 ++ or_dash l.thread ++ (b']' ∷ []) ++ (b'\t' ∷ []) in
    let b3 = b2 ++ or_dash l.class in serialize l b3 (b'\t' ∷ []) (codes ", ") (codes ": ")

unfoldable pub string : Log → Bytes
string l = write_to l []

unfoldable pub json : Log → Bytes
json l = write_json_to l []

-- Reader and JSONReader: the bytes that the reader delivers.
unfoldable pub reader : Log → Bytes
reader l = write_to l []

unfoldable pub json_reader : Log → Bytes
json_reader l = write_json_to l []
