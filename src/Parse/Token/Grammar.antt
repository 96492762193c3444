-- ===== src/Parse/Token/Grammar.antt =====
-- The string tokens that the key parser is to accept, as a grammar.
use salt.Base.{ℕ, ◌≤◌, ◌≢◌, ◌≡◌, [], ◌∷◌, ◌⊎◌, Bytes}

-- An escape and the byte that it stands for.
pub data Escapes (e v : ℕ) : Type 0 where
  newline : e ≡ b'n' → v ≡ 10 → Escapes e v
  carriage_return : e ≡ b'r' → v ≡ 13 → Escapes e v
  tab : e ≡ b't' → v ≡ 9 → Escapes e v
  itself : (e ≡ 34) ⊎ ((e ≡ 92) ⊎ (e ≡ b'/')) → v ≡ e → Escapes e v

-- `Body text value`: the text between the quotes of a token, and the string that it denotes.
pub data Body : Bytes → Bytes → Type 0 where
  nil : Body [] []
  plain :
      {c : ℕ} {text value : Bytes}
      → 0x20 ≤ c
      → c ≢ 34
      → c ≢ 92
      → Body text value
      → Body (c ∷ text) (c ∷ value)
  escape :
      {b e v : ℕ} {text value : Bytes}
      → b ≡ 92
      → Escapes e v
      → Body text value
      → Body (b ∷ e ∷ text) (v ∷ value)
