-- ===== src/Output/Json/Grammar.antt =====
-- RFC 8259, section 7: the characters of a string and what they denote, in UTF-8. The reference for
-- what src/cli/output.c writes.
use salt.Base.{ℕ, ◌+◌, ◌-◌, ◌*◌, ◌≤◌, ◌≡◌, ◌≢◌, ◌⊎◌, [], ◌∷◌, ◌++◌, Bytes}
use salt.Output.Utf8.Encoding.{IsScalar, encode}

-- A hexadecimal digit and its value.
abbrev pub IsHex : ℕ → ℕ → Type 0
IsHex h d =
    ((b'0' ≤ h) × (h ≤ b'9') × (d ≡ h - b'0'))
    ⊎ (((b'a' ≤ h) × (h ≤ b'f') × (d ≡ h - b'a' + 10))
        ⊎ ((b'A' ≤ h) × (h ≤ b'F') × (d ≡ h - b'A' + 10)))

-- An escape of one character.
abbrev pub IsShort : ℕ → ℕ → Type 0
IsShort e v =
    ((e ≡ v) × ((e ≡ 34) ⊎ ((e ≡ 92) ⊎ (e ≡ b'/'))))
    ⊎ (((e ≡ b'b') × (v ≡ 8))
        ⊎ (((e ≡ b'f') × (v ≡ 12))
            ⊎ (((e ≡ b'n') × (v ≡ 10)) ⊎ (((e ≡ b'r') × (v ≡ 13)) ⊎ ((e ≡ b't') × (v ≡ 9))))))

-- `Chars text value`: the text between the quotes, and the string that it denotes.
pub data Chars : Bytes → Bytes → Type 0 where
  nil : Chars [] []
  plain :
      {c : ℕ} {text value : Bytes}
      → 0x20 ≤ c
      → c ≢ 34
      → c ≢ 92
      → Chars text value
      → Chars (c ∷ text) (c ∷ value)
  short :
      {b e v : ℕ} {text value : Bytes}
      → b ≡ 92
      → IsShort e v
      → Chars text value
      → Chars (b ∷ e ∷ text) (v ∷ value)
  unicode :
      {b u h0 h1 h2 h3 d0 d1 d2 d3 : ℕ} {text value all : Bytes}
      → b ≡ 92
      → u ≡ b'u'
      → IsHex h0 d0
      → IsHex h1 d1
      → IsHex h2 d2
      → IsHex h3 d3
      → IsScalar (d0 * 4096 + d1 * 256 + d2 * 16 + d3)
      → all ≡ encode (d0 * 4096 + d1 * 256 + d2 * 16 + d3) ++ value
      → Chars text value
      → Chars (b ∷ u ∷ h0 ∷ h1 ∷ h2 ∷ h3 ∷ text) all
