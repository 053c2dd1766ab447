-- ===== src/Utf8.antt =====
-- UTF-8, as Go's `range` over a string and `bytes.Buffer.WriteRune` use it.
pub mod Newlines
pub mod Concat
use logd_go.Base.{
  ℕ, zero, suc, ◌+◌, ◌-◌, ◌*◌, ◌/◌, ◌%◌, Bool, ◌&&◌, ◌||◌, List, [], ◌∷◌, Bytes, leb, ltb, ◌==◌,
  if◌then◌else◌,
}

abbrev within : ℕ → ℕ → ℕ → Bool
within lo hi c = leb lo c && leb c hi

-- utf8.RuneError
abbrev rune_error : ℕ
rune_error = 0xfffd

abbrev tail_bits : ℕ → ℕ
tail_bits b = b - 0x80

abbrev is_tail : ℕ → Bool
is_tail b = within 0x80 0xbf b

-- The second byte's range depends on the first: overlong forms and surrogates are errors.
second_of_three : ℕ → ℕ → Bool
second_of_three b0 b1 =
    if b0 == 0xe0
    then within 0xa0 0xbf b1
    else if b0 == 0xed
    then within 0x80 0x9f b1
    else is_tail b1

second_of_four : ℕ → ℕ → Bool
second_of_four b0 b1 =
    if b0 == 0xf0
    then within 0x90 0xbf b1
    else if b0 == 0xf4
    then within 0x80 0x8f b1
    else is_tail b1

decode_two : ℕ → Bytes → ℕ × ℕ
decode_two b0 (b1 ∷ rest) =
    if is_tail b1 then ((b0 - 0xc0) * 64 + tail_bits b1, 2) else (rune_error, 1)
decode_two b0 _ = (rune_error, 1)

decode_three : ℕ → Bytes → ℕ × ℕ
unfolding second_of_three
decode_three b0 (b1 ∷ b2 ∷ rest) =
    if second_of_three b0 b1 && is_tail b2
    then ((b0 - 0xe0) * 4096 + tail_bits b1 * 64 + tail_bits b2, 3)
    else (rune_error, 1)
decode_three b0 _ = (rune_error, 1)

decode_four : ℕ → Bytes → ℕ × ℕ
unfolding second_of_four
decode_four b0 (b1 ∷ b2 ∷ b3 ∷ rest) =
    if second_of_four b0 b1 && is_tail b2 && is_tail b3
    then ((b0 - 0xf0) * 262144 + tail_bits b1 * 4096 + tail_bits b2 * 64 + tail_bits b3, 4)
    else (rune_error, 1)
decode_four b0 _ = (rune_error, 1)

-- The rune that a nonempty string `b0 ∷ rest` begins with, and its width in bytes. An invalid
-- sequence is `rune_error`, one byte wide.
unfoldable pub decode_rune : ℕ → Bytes → ℕ × ℕ
unfolding decode_two decode_three decode_four
decode_rune b0 rest =
    if ltb b0 0x80
    then (b0, 1)
    else if within 0xc2 0xdf b0
    then decode_two b0 rest
    else if within 0xe0 0xef b0
    then decode_three b0 rest
    else if within 0xf0 0xf4 b0
    then decode_four b0 rest
    else (rune_error, 1)

-- The pairs of `for i, r := range s` from byte `i` on, `skip` bytes being part of the last rune.
unfoldable pub runes_from : ℕ → ℕ → Bytes → List (ℕ × ℕ)
runes_from i skip [] = []
runes_from i (suc skip) (b ∷ bs) = runes_from (i + 1) skip bs
runes_from i zero (b ∷ bs) =
    (i, (decode_rune b bs).0) ∷ runes_from (i + 1) ((decode_rune b bs).1 - 1) bs

unfoldable pub runes : Bytes → List (ℕ × ℕ)
unfolding runes_from decode_rune
runes s = runes_from 0 0 s

-- `WriteRune`: the bytes of a rune.
unfoldable pub encode_rune : ℕ → Bytes
encode_rune r =
    if ltb r 0x80
    then r ∷ []
    else if ltb r 0x800
    then (0xc0 + r / 64) ∷ (0x80 + r % 64) ∷ []
    else if within 0xd800 0xdfff r || ltb 0x10ffff r
    then 0xef ∷ 0xbf ∷ 0xbd ∷ []
    else if ltb r 0x10000
    then (0xe0 + r / 4096) ∷ (0x80 + r / 64 % 64) ∷ (0x80 + r % 64) ∷ []
    else (0xf0 + r / 262144) ∷ (0x80 + r / 4096 % 64) ∷ (0x80 + r / 64 % 64) ∷ (0x80 + r % 64) ∷ []
