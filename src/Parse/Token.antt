-- ===== src/Parse/Token.antt =====
-- src/cli/parse.c: `ESCAPE_TABLE`, `escape_lookup` and `json_parse_string_token`. The cursor is the
-- list of the bytes up to the terminating NUL, so it is at `'\0'` when it is empty. A write outside
-- of the array `out` is a fault, `none`.
pub mod Complete
pub mod Grammar
pub mod Outcome
pub mod Verdict
use salt.Base.{
  ℕ, ◌+◌, Bool, true, false, Option, none, some, List, [], ◌∷◌, ◌==◌, ltb, leb, if◌then◌else◌,
  Bytes, store,
}
use salt.Parse.Whitespace.{◌>>=◌}

abbrev pub escape_table : List (ℕ × ℕ)
escape_table = (b'n', 10) ∷ (b'r', 13) ∷ (b't', 9) ∷ (34, 34) ∷ (92, 92) ∷ (b'/', b'/') ∷ []

pub lookup_in : List (ℕ × ℕ) → ℕ → Option ℕ
lookup_in [] escape_char = none
lookup_in ((key, value) ∷ table) escape_char =
    if key == escape_char then some value else lookup_in table escape_char

unfoldable pub escape_lookup : ℕ → Option ℕ
unfolding lookup_in
escape_lookup = lookup_in escape_table

-- What `json_parse_string_token` returns, with the cursor and the array that it leaves.
pub record Token : Type 0 where
  pub accepted : Bool
  pub cursor : Bytes
  pub out : Bytes

abbrev pub reject : Bytes → Bytes → Option Token
reject cursor out = some (record { accepted = false; cursor = cursor; out = out })

abbrev pub accept : Bytes → Bytes → Option Token
accept cursor out = some (record { accepted = true; cursor = cursor; out = out })

module _ (out_size : ℕ) where
  -- `if (i + 1U >= out_size) return false; out[i++] = v; ++(*cursor)`
  abbrev pub put : Bytes → ℕ → Bytes → ℕ → (ℕ → Bytes → Option Token) → Option Token
  put cursor i out v next =
      if leb out_size (i + 1) then reject cursor out else do out' ← store out i v; next (i + 1) out'

  -- The branch of an escape, behind its backslash.
  abbrev pub escaped : ℕ → Bytes → ℕ → Bytes → (ℕ → Bytes → Option Token) → Option Token
  escaped e cs i out next =
      if leb out_size (i + 1) then reject (e ∷ cs) out else elim (escape_lookup e) [
        | none ↦ reject (e ∷ cs) out
        | some v ↦ do out' ← store out i v; next (i + 1) out'
      ]

  -- What follows the loop, at the closing quote.
  abbrev pub close : Bytes → ℕ → Bytes → Option Token
  close cs i out =
      if leb out_size i then reject (34 ∷ cs) out else do out' ← store out i 0; accept cs out'

  -- One round at the byte `c`.
  abbrev pub round :
      ℕ → Bytes → ℕ → Bytes → Option Token → (ℕ → Bytes → Option Token) → Option Token
  round c cs i out escape next =
      if c == 34
      then close cs i out
      else if c == 92
      then escape
      else if ltb c 0x20
      then reject (c ∷ cs) out
      else put (c ∷ cs) i out c next

  unfoldable pub scan : Bytes → ℕ → Bytes → Option Token
  scan [] i out = reject [] out
  scan (c ∷ []) i out = round c [] i out (reject [] out) (λ i' out'. scan [] i' out')
  scan (c ∷ e ∷ cs) i out =
      round c (e ∷ cs) i out (escaped e cs i out (λ i' out'. scan cs i' out'))
        (λ i' out'. scan (e ∷ cs) i' out')

  -- The pointers are not NULL here; `out_size` is what the caller says the array has.
  unfoldable pub json_parse_string_token : Bytes → Bytes → Option Token
  json_parse_string_token [] out = reject [] out
  json_parse_string_token (c ∷ cs) out =
      if out_size == 0
      then reject (c ∷ cs) out
      else if c == 34
      then scan cs 0 out
      else reject (c ∷ cs) out
