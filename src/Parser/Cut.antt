-- ===== src/Parser/Cut.antt =====
-- logging/parse.go: where a text can be cut between two calls of Parse. Parse keeps the text of the open
-- field and its state, and reads that text again from its start.
use logd_go.Base.{
  ℕ, zero, suc, ◌+◌, ◌<◌, ◌≡◌, ◌≢◌, ◌⊎◌, inl, inr, refl, sym, ap, ◌∙◌, Bool, true, false, not, ◌&&◌,
  ◌||◌, Option, none, some, List, [], ◌∷◌, ◌++◌, Bytes, All, length, ◌==◌, if◌then◌else◌, arith,
  append_assoc, append-nil, length-append, Bool-cases, ◌>>=◌,
}
use logd_go.Utf8.{runes, runes_from, decode_rune}
use logd_go.Utf8.Concat.{shift_runes, shift-runes_from}
use logd_go.Log.{Log}
use logd_go.Parser.State.{
  State, date_state, time_state, level_state, thread_state, thread_bracket_state,
  thread_no_bracket_state, class_state, verify_call_type_state, key_state, multi_key_state,
  value_state, error_state, transition_level_state, transition_thread_state, transition_class_state,
  transition_call_type_state, call_type_state, Parser,
}
use logd_go.Parser.Run.{next, end_line, step, scan}
use logd_go.Parser.Lines.{scan-append}
pub mod Header
pub mod Body
pub mod Steps
pub mod Field
pub mod Scan
pub mod Rescan
pub mod Chunks
pub mod Stream

-- The bytes of an ASCII text with their indices.
abbrev pub indexed : ℕ → Bytes → List (ℕ × ℕ)
indexed i [] = []
indexed i (c ∷ cs) = (i, c) ∷ indexed (i + 1) cs

abbrev pub IsAscii : ℕ → Type 0
IsAscii c = c < 0x80

runes_from-indexed :
    (i : ℕ) (x b : Bytes)
    → All IsAscii x
    → runes_from i 0 (x ++ b) ≡ indexed i x ++ runes_from (i + length x) 0 b
unfolding runes_from
runes_from-indexed i [] b h = let e : i + 0 ≡ i = omega arith in rw e refl
runes_from-indexed i (c ∷ x) b h =
    let e : i + suc (length x) ≡ i + 1 + length x = omega arith in
    let d : decode_rune c (x ++ b) ≡ (c, 1) = unfold decode_rune in ground arith in
    rw (e, d) (ap (◌∷◌ (i, c)) (runes_from-indexed (i + 1) x b h.1))

-- Text behind ASCII text is read as if it were alone.
pub runes-ascii :
    (x b : Bytes) → All IsAscii x → runes (x ++ b) ≡ indexed 0 x ++ shift_runes (length x) (runes b)
unfolding runes
runes-ascii x b h =
    let e : 0 + length x ≡ length x + 0 = omega arith in
    runes_from-indexed 0 x b h ∙ rw e (ap (◌++◌ (indexed 0 x)) (shift-runes_from (length x) 0 0 b))

pub runes-indexed : (x : Bytes) → All IsAscii x → runes x ≡ indexed 0 x
runes-indexed x h =
    ap runes (sym (append-nil x)) ∙ runes-ascii x [] h ∙ unfold runes in append-nil (indexed 0 x)

-- The state in which the open field began.
abbrev pub origin : State → State
origin multi_key_state = value_state
origin s = s

-- A character on which the offsets fall behind the text or the field begins in another state: a space
-- inside a key, a colon at the beginning of a value, and a bracket inside a field of the header.
abbrev pub odd_in : State → Bool → ℕ → Bool
odd_in key_state empty r = (r == b' ') && not empty
odd_in verify_call_type_state empty r = (r == b' ') && not empty
odd_in value_state empty r = (r == b':') && empty
odd_in date_state empty r = (r == b'[') && not empty
odd_in time_state empty r = (r == b'[') && not empty
odd_in level_state empty r = (r == b'[') && not empty
odd_in thread_no_bracket_state empty r = (r == b'[') && not empty
odd_in class_state empty r = (r == b'[') && not empty
odd_in error_state empty r = true
odd_in _ empty r = false

abbrev pub odd : Parser → ℕ → Bool
odd p r = odd_in p.state (p.start == p.end) r

-- The parser behind one character.
abbrev pub parser_after : ℕ → ℕ → Parser → Option Parser
parser_after i r p = if r == b'\n' then (end_line i p >>= (λ d. some d.0)) else next p r

-- The loop meets no odd character.
unfoldable pub regular : List (ℕ × ℕ) → Parser → Bool
unfolding end_line next
regular [] p = true
regular ((i, r) ∷ rs) p =
    not (odd p r) && elim (parser_after i r p) [ none ↦ false | some q ↦ regular rs q ]

abbrev pub is_value : State → Bool
is_value value_state = true
is_value multi_key_state = true
is_value _ = false

abbrev pub opens_value : Bytes → Bool
opens_value [] = true
opens_value (c ∷ cs) = not (c == b' ' || c == b':' || c == b',' || c == b'\n')

-- The states that have no text of their own.
abbrev pub holds_nothing : State → Bool
holds_nothing transition_level_state = true
holds_nothing transition_thread_state = true
holds_nothing transition_class_state = true
holds_nothing transition_call_type_state = true
holds_nothing thread_state = true
holds_nothing _ = false

-- The parser on an open field at the beginning of its text.
abbrev pub field_at : State → Log → Bytes → Bytes → Parser
field_at st cur w post = record {
  state = st;
  start = 0;
  end = length w;
  raw = w ++ post;
  current = cur;
}

-- A parser with nothing of the field read.
abbrev pub field_start : State → Log → Bytes → Parser
field_start st cur raw = record { state = st; start = 0; end = 0; raw = raw; current = cur }

-- Reading the field from its beginning gives the parser back.
pub record Kept (st : State) (cur : Log) (w : Bytes) : Type 0 where
  pub rescans :
      (post : Bytes) (logs : List Log)
      → scan (indexed 0 w) (field_start (origin st) cur (w ++ post)) logs
        ≡ some (field_at st cur w post, logs)
  pub opens : is_value st ≡ true → opens_value w ≡ true
  pub nothing : holds_nothing st ≡ true → w ≡ []
  pub begun : st ≡ multi_key_state → w ≢ []

indexed-append :
    (i : ℕ) (w : Bytes) (r : ℕ) → indexed i (w ++ r ∷ []) ≡ indexed i w ++ (i + length w, r) ∷ []
indexed-append i [] r = let e : i + 0 ≡ i = omega arith in rw e refl
indexed-append i (c ∷ w) r =
    let e : i + suc (length w) ≡ i + 1 + length w = omega arith in
    rw e (ap (◌∷◌ (i, c)) (indexed-append (i + 1) w r))

pub origin-id : (st : State) → st ≢ multi_key_state → origin st ≡ st
origin-id st n = ground arith

pub fresh-Kept : (st : State) (cur : Log) → st ≢ multi_key_state → Kept st cur []
unfolding scan
fresh-Kept st cur n = record {
  rescans = λ post logs. rw (origin-id st n) refl;
  opens = λ e. refl;
  nothing = λ e. refl;
  begun = λ e. absurd (n e);
}

concat-ne-nil : (w : Bytes) (r : ℕ) → w ++ r ∷ [] ≢ []
concat-ne-nil [] r = λ e. cc
concat-ne-nil (c ∷ w) r = λ e. cc

-- The field grows by a character.
pub grown-Kept :
    (st st' : State) (cur : Log) (w : Bytes) (r : ℕ)
    → Kept st cur w
    → r ≢ b'\n'
    → origin st' ≡ origin st
    → ((post : Bytes)
        → next (field_at st cur w (r ∷ post)) r
          ≡ some (record {
            state = st';
            start = 0;
            end = length w + 1;
            raw = w ++ (r ∷ post);
            current = cur;
          }))
    → (is_value st' ≡ true → opens_value (w ++ r ∷ []) ≡ true)
    → holds_nothing st' ≡ false
    → Kept st' cur (w ++ r ∷ [])
unfolding scan step
grown-Kept st st' cur w r k n o f v h = record {
  rescans = λ post logs.
      let e : (r == b'\n') ≡ false = ground arith in
      let l : length (w ++ r ∷ []) ≡ length w + 1 = length-append w (r ∷ []) in
      rw (o, append_assoc w (r ∷ []) post, indexed-append 0 w r, l)
        (scan-append (indexed 0 w) ((0 + length w, r) ∷ [])
            (field_start (origin st) cur (w ++ (r ∷ post))) logs
          ∙ rw (k.rescans (r ∷ post) logs) (rw e (rw (f post) refl)));
  opens = v;
  nothing = λ e. cc;
  begun = λ e. concat-ne-nil w r;
}
