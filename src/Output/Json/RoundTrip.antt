-- ===== src/Output/Json/RoundTrip.antt =====
-- src/cli/output.c against RFC 8259 and against src/cli/parse.c.
use salt.Base.{
  ℕ, ◌/◌, ◌%◌, ◌≤◌, ◌<◌, ◌≡◌, ◌⊎◌, inl, inr, refl, false, ◌||◌, [], ◌∷◌, ◌++◌, append_assoc, arith,
  ◌==◌, ltb, Bool-cases, Bytes, length,
}
use salt.Output.Json.{hex_digit, unicode_escape, write_json_string}
use salt.Output.Json.Escaped.{escape_byte, escape_all, quoted, write_json_string-Emits}
use salt.Output.Json.Grammar.{IsHex, Chars, nil, plain, short, unicode}
use salt.Output.Json.Encoded.{escape_all-Utf8}
use salt.Output.Utf8.Encoding.{encode, Utf8}
use salt.Output.Writer.{Sink}
use salt.Output.Writer.Emits.{Healthy}
use salt.Parse.Token.{accept, json_parse_string_token}
use salt.Parse.Token.Complete.{json_parse_string_token-Body}
use salt.Parse.Token.Grammar.{Escapes, newline, carriage_return, tab, itself, Body, escape}
use salt.Parse.Token.Grammar
use salt.Status.{salt_ok}

hex_digit-IsHex : (d : ℕ) → d < 16 → IsHex (hex_digit d) d
hex_digit-IsHex d h = ground arith

unicode_escape-Chars :
    (c : ℕ) (text value : Bytes)
    → c < 0x20
    → Chars text value
    → Chars (unicode_escape c ++ text) (c ∷ value)
unicode_escape-Chars c text value h t =
    unicode {d0 = 0} {d1 = 0} {d2 = c / 16} {d3 = c % 16} {value = value} {all = c ∷ value} refl
      refl (inl (omega arith)) (inl (omega arith)) (hex_digit-IsHex (c / 16) (omega arith))
      (hex_digit-IsHex (c % 16) (omega arith)) (inl (omega arith)) (unfold encode in ground arith) t

escape_byte-Chars :
    (c : ℕ) (text value : Bytes) → Chars text value → Chars (escape_byte c ++ text) (c ∷ value)
unfolding escape_byte
escape_byte-Chars c text value t = elim (Bool-cases (c == 34 || c == 92)) [
  | inl own ↦ rw own (short refl (inl (refl, ground arith)) t)
  | inr a ↦ rw a (elim (Bool-cases (c == 10)) [
    | inl lf ↦ rw lf (short refl (inr (inr (inr (inl (refl, ground arith))))) t)
    | inr b ↦ rw b (elim (Bool-cases (c == 13)) [
      | inl cr ↦ rw cr (short refl (inr (inr (inr (inr (inl (refl, ground arith)))))) t)
      | inr d ↦ rw d (elim (Bool-cases (c == 9)) [
        | inl ht ↦ rw ht (short refl (inr (inr (inr (inr (inr (refl, ground arith)))))) t)
        | inr e ↦ rw e (elim (Bool-cases (ltb c 0x20)) [
          | inl control ↦ rw control (unicode_escape-Chars c text value (ground arith) t)
          | inr printable ↦ rw printable (plain (ground arith) (ground arith) (ground arith) t)
        ])
      ])
    ])
  ])
]

-- What `write_json_string` puts between its quotes is a string of RFC 8259 that denotes its argument.
pub escape_all-Chars : (value : Bytes) → Chars (escape_all value) value
unfolding escape_all
escape_all-Chars [] = nil
escape_all-Chars (c ∷ cs) = escape_byte-Chars c (escape_all cs) cs (escape_all-Chars cs)

-- No control byte but those that the strict parser has an escape for.
abbrev pub IsReadable : Bytes → Type 0
IsReadable [] = Unit
IsReadable (c ∷ cs) = ((0x20 ≤ c) ⊎ ((c ≡ 10) ⊎ ((c ≡ 13) ⊎ (c ≡ 9)))) × IsReadable cs

escape_byte-Body :
    (c : ℕ) (text value : Bytes)
    → (0x20 ≤ c) ⊎ ((c ≡ 10) ⊎ ((c ≡ 13) ⊎ (c ≡ 9)))
    → Body text value
    → Body (escape_byte c ++ text) (c ∷ value)
unfolding escape_byte
escape_byte-Body c text value r t = elim (Bool-cases (c == 34 || c == 92)) [
  | inl own ↦ rw own (escape refl (itself (ground arith) refl) t)
  | inr a ↦ rw a (elim (Bool-cases (c == 10)) [
    | inl lf ↦ rw lf (escape refl (newline refl (ground arith)) t)
    | inr b ↦ rw b (elim (Bool-cases (c == 13)) [
      | inl cr ↦ rw cr (escape refl (carriage_return refl (ground arith)) t)
      | inr d ↦ rw d (elim (Bool-cases (c == 9)) [
        | inl ht ↦ rw ht (escape refl (tab refl (ground arith)) t)
        | inr e ↦
            let printable : ltb c 0x20 ≡ false = ground arith in
            rw e (rw printable (Grammar.plain (ground arith) (ground arith) (ground arith) t))
      ])
    ])
  ])
]

escape_all-Body : (value : Bytes) → IsReadable value → Body (escape_all value) value
unfolding escape_all
escape_all-Body [] r = Grammar.nil
escape_all-Body (c ∷ cs) r = escape_byte-Body c (escape_all cs) cs r.0 (escape_all-Body cs r.1)

-- The strict parser reads back what `write_json_string` writes, for a string without control bytes
-- other than tab, newline and carriage return, on any array that has room for the string and its NUL.
pub json_parse_string_token-quoted :
    (n : ℕ) (value gap : Bytes) (x : ℕ) (rest back : Bytes)
    → IsReadable value
    → length gap ≡ length value
    → length value < n
    → json_parse_string_token n (quoted value ++ rest) (gap ++ x ∷ back)
      ≡ accept rest (value ++ 0 ∷ back)
unfolding quoted
json_parse_string_token-quoted n value gap x rest back r same fits =
    rw (append_assoc (escape_all value) (34 ∷ []) rest)
      (json_parse_string_token-Body n gap x rest back (escape_all-Body value r) same fits)

-- On a stream that does not fail and for a string in UTF-8, `write_json_string` returns `SALT_OK` and
-- writes a quoted string of RFC 8259 that denotes its argument: between the quotes stand the characters
-- and escapes of section 7, and they too are UTF-8.
pub write_json_string-Chars :
    (value : Bytes) (s : Sink)
    → Utf8 value
    → Healthy s.stream
    → (text : Bytes) × Chars text value
      × Utf8 text
      × ((write_json_string value s).0 ≡ salt_ok)
      × ((write_json_string value s).1.stream.written ≡ s.stream.written ++ 34 ∷ (text ++ 34 ∷ []))
unfolding quoted
write_json_string-Chars value s u h = elim (write_json_string-Emits value s) [
  | inl x ↦
      (escape_all value, escape_all-Chars value, escape_all-Utf8 value u, x.returns, x.written)
  | inr x ↦ absurd (x.was_not_healthy h)
]

-- On a stream that does not fail, what `write_json_string` writes for a string without control bytes
-- other than tab, newline and carriage return is a token that `json_parse_string_token` accepts on any
-- array with room for the string and its NUL, and the array then holds the string.
pub write_json_string-json_parse_string_token :
    (n : ℕ) (value gap : Bytes) (x : ℕ) (rest back : Bytes) (s : Sink)
    → Healthy s.stream
    → IsReadable value
    → length gap ≡ length value
    → length value < n
    → (line : Bytes) × ((write_json_string value s).1.stream.written ≡ s.stream.written ++ line)
      × (json_parse_string_token n (line ++ rest) (gap ++ x ∷ back)
          ≡ accept rest (value ++ 0 ∷ back))
write_json_string-json_parse_string_token n value gap x rest back s h r same fits =
    elim (write_json_string-Emits value s) [
      | inl e ↦ (
        quoted value,
        e.written,
        json_parse_string_token-quoted n value gap x rest back r same fits,
      )
      | inr e ↦ absurd (e.was_not_healthy h)
    ]
