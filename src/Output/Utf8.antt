-- ===== src/Output/Utf8.antt =====
-- src/cli/output.c: `is_valid_utf8_sequence` and `is_valid_utf8`. `ptr` with `remaining` bytes is the
-- list of those bytes; the pointers are not NULL here. A length in `out_len` is `some`, and the
-- return of `false` is `none`.
pub mod Encoding
pub mod Sequence
pub mod Valid
use salt.Base.{
  ℕ, zero, suc, Bool, true, false, ◌&&◌, ◌||◌, not, Option, none, some, [], ◌∷◌, ◌==◌, ltb, leb,
  if◌then◌else◌, Bytes, length, drop,
}

-- `b2 < 0x80U || b2 > 0xBFU`
abbrev pub outside : ℕ → ℕ → ℕ → Bool
outside lo hi b = ltb b lo || ltb hi b

unfoldable pub two_bytes : Bytes → Option ℕ
two_bytes [] = none
two_bytes (b2 ∷ rest) = if outside 0x80 0xBF b2 then none else some 2

unfoldable pub three_bytes : ℕ → Bytes → Option ℕ
three_bytes b [] = none
three_bytes b (b2 ∷ []) = none
three_bytes b (b2 ∷ b3 ∷ rest) =
    if ltb b2 0x80 || ltb b3 0x80 || ltb 0xBF b2 || ltb 0xBF b3
    then none
    else if b == 0xE0 && outside 0xA0 0xBF b2
    then none
    else if b == 0xED && outside 0x80 0x9F b2
    then none
    else if not (b == 0xE0) && not (b == 0xED) && outside 0x80 0xBF b2
    then none
    else some 3

unfoldable pub four_bytes : ℕ → Bytes → Option ℕ
four_bytes b [] = none
four_bytes b (b2 ∷ []) = none
four_bytes b (b2 ∷ b3 ∷ []) = none
four_bytes b (b2 ∷ b3 ∷ b4 ∷ rest) =
    if ltb b2 0x80 || ltb b3 0x80 || ltb b4 0x80 || ltb 0xBF b2 || ltb 0xBF b3 || ltb 0xBF b4
    then none
    else if b == 0xF0 && outside 0x90 0xBF b2
    then none
    else if b == 0xF4 && outside 0x80 0x8F b2
    then none
    else if leb 0xF1 b && leb b 0xF3 && outside 0x80 0xBF b2
    then none
    else some 4

unfoldable pub is_valid_utf8_sequence : Bytes → Option ℕ
is_valid_utf8_sequence [] = none
is_valid_utf8_sequence (b ∷ rest) =
    if leb b 0x7F
    then some 1
    else if leb 0xC2 b && leb b 0xDF
    then two_bytes rest
    else if leb 0xE0 b && leb b 0xEF
    then three_bytes b rest
    else if leb 0xF0 b && leb b 0xF4
    then four_bytes b rest
    else none

-- `while (i < len)`, on the bytes from `i`; a round reads at least one byte, so `len` rounds do.
unfoldable pub utf8_loop : ℕ → Bytes → Bool
utf8_loop fuel [] = true
utf8_loop zero (b ∷ rest) = false
utf8_loop (suc fuel) (b ∷ rest) = elim (is_valid_utf8_sequence (b ∷ rest)) [
  | none ↦ false
  | some seq_len ↦ utf8_loop fuel (drop seq_len (b ∷ rest))
]

unfoldable pub is_valid_utf8 : Bytes → Bool
unfolding utf8_loop is_valid_utf8_sequence two_bytes three_bytes four_bytes
is_valid_utf8 str = utf8_loop (length str) str
