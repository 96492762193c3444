-- ===== src/Output/Json/Encoded.antt =====
-- src/cli/output.c, `write_json_string`: the encoding of what it writes.
use salt.Base.{
  ℕ, ◌≤◌, ◌<◌, ◌≡◌, true, refl, arith, inl, inr, false, ◌||◌, [], ◌∷◌, ◌++◌, ◌==◌, ltb, lt_or_le,
  Bytes,
}
use salt.Output.Json.{hex_digit, unicode_escape}
use salt.Output.Json.Escaped.{escape_byte, escape_all}
use salt.Output.Utf8.Encoding.{encode, Utf8, nil, cons}

abbrev IsAscii : Bytes → Type 0
IsAscii [] = Unit
IsAscii (c ∷ cs) = (c < 0x80) × IsAscii cs

abbrev IsHigh : Bytes → Type 0
IsHigh [] = Unit
IsHigh (c ∷ cs) = (0x80 ≤ c) × IsHigh cs

encode-ascii : (c : ℕ) → c < 0x80 → encode c ≡ c ∷ []
unfolding encode
encode-ascii c h = let small : ltb c 0x80 ≡ true = ground arith in rw small refl

encode-IsHigh : (c : ℕ) → 0x80 ≤ c → IsHigh (encode c)
unfolding encode
encode-IsHigh c h = ground arith

-- ASCII characters in front of a text in UTF-8.
IsAscii-Utf8 : (xs rest : Bytes) → IsAscii xs → Utf8 rest → Utf8 (xs ++ rest)
IsAscii-Utf8 [] rest h u = u
IsAscii-Utf8 (x ∷ xs) rest h u =
    cons x (inl (omega arith)) (rw (encode-ascii x h.0) refl) (IsAscii-Utf8 xs rest h.1 u)

escape_byte-IsAscii : (c : ℕ) → c < 0x80 → IsAscii (escape_byte c)
unfolding escape_byte unicode_escape hex_digit
escape_byte-IsAscii c h = ground arith

escape_byte-high : (c : ℕ) → 0x80 ≤ c → escape_byte c ≡ c ∷ []
unfolding escape_byte
escape_byte-high c h =
    let own : (c == 34 || c == 92) ≡ false = ground arith in
    let newline : (c == 10) ≡ false = ground arith in
    let return : (c == 13) ≡ false = ground arith in
    let tab : (c == 9) ≡ false = ground arith in
    let control : ltb c 0x20 ≡ false = ground arith in rw (own, newline, return, tab, control) refl

escape_all-high : (xs rest : Bytes) → IsHigh xs → escape_all (xs ++ rest) ≡ xs ++ escape_all rest
unfolding escape_all
escape_all-high [] rest h = refl
escape_all-high (x ∷ xs) rest h = rw (escape_byte-high x h.0, escape_all-high xs rest h.1) refl

-- The escapes keep UTF-8.
pub escape_all-Utf8 : (value : Bytes) → Utf8 value → Utf8 (escape_all value)
unfolding escape_all
escape_all-Utf8 value nil = nil
escape_all-Utf8 value (cons {rest = rest} c scalar e u) = elim (lt_or_le c 0x80) [
  | inl ascii ↦
      rw (e, encode-ascii c ascii)
        (IsAscii-Utf8 (escape_byte c) (escape_all rest) (escape_byte-IsAscii c ascii)
          (escape_all-Utf8 rest u))
  | inr high ↦
      rw (e, escape_all-high (encode c) rest (encode-IsHigh c high))
        (cons c scalar refl (escape_all-Utf8 rest u))
]
