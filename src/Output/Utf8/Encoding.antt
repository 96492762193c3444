-- ===== src/Output/Utf8/Encoding.antt =====
-- RFC 3629: Unicode scalar values and their encoding, the reference for the validator of
-- src/cli/output.c.
use salt.Base.{ℕ, ◌+◌, ◌/◌, ◌%◌, ◌≤◌, ◌<◌, ◌≡◌, ◌⊎◌, [], ◌∷◌, ◌++◌, ltb, if◌then◌else◌, Bytes}

-- Code points without the surrogates U+D800..U+DFFF.
abbrev pub IsScalar : ℕ → Type 0
IsScalar c = (c < 0xD800) ⊎ ((0xE000 ≤ c) × (c ≤ 0x10FFFF))

abbrev pub trail : ℕ → ℕ
trail c = 0x80 + c % 64

unfoldable pub encode : ℕ → Bytes
encode c =
    if ltb c 0x80
    then c ∷ []
    else if ltb c 0x800
    then (0xC0 + c / 64) ∷ trail c ∷ []
    else if ltb c 0x10000
    then (0xE0 + c / 4096) ∷ trail (c / 64) ∷ trail c ∷ []
    else (0xF0 + c / 262144) ∷ trail (c / 4096) ∷ trail (c / 64) ∷ trail c ∷ []

-- The encodings of scalar values, one behind the other.
pub data Utf8 : Bytes → Type 0 where
  nil : Utf8 []
  cons : {s rest : Bytes} (c : ℕ) → IsScalar c → s ≡ encode c ++ rest → Utf8 rest → Utf8 s
