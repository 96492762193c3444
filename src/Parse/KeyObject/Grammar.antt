-- ===== src/Parse/KeyObject/Grammar.antt =====
-- The key objects that the strict parser is to accept, as a grammar over the tokens of
-- Parse/Token/Grammar: `key` exactly once, `key_id` at most once, and no other member.
use salt.Base.{ℕ, ◌<◌, ◌≡◌, Option, none, some, [], ◌∷◌, ◌++◌, Bytes, length}
use salt.Parse.KeyObject.{key_name, key_id_name}
use salt.Parse.Token.Grammar.{Body}
use salt.Parse.Whitespace.{skip_ws}

-- The values of the members that have been read.
pub record Seen : Type 0 where
  pub key : Option Bytes
  pub key_id : Option Bytes

abbrev pub nothing : Seen
nothing = record { key = none; key_id = none }

-- What a member adds; `ks` and `is` are the sizes of the arrays for the two values.
pub data Adds (ks is : ℕ) (seen : Seen) (name value : Bytes) (seen' : Seen) : Type 0 where
  adds_key :
      name ≡ key_name
      → seen.key ≡ none
      → length value < ks
      → seen' ≡ record seen { key = some value }
      → Adds ks is seen name value seen'
  adds_key_id :
      name ≡ key_id_name
      → seen.key_id ≡ none
      → length value < is
      → seen' ≡ record seen { key_id = some value }
      → Adds ks is seen name value seen'

-- A member at the front of `text`: a name, a colon and a value, with whitespace anywhere between.
pub record Member (ks is : ℕ) (seen : Seen) (text : Bytes) (seen' : Seen) (rest : Bytes)
    : Type 0 where
  pub name_text : Bytes
  pub name : Bytes
  pub behind_name : Bytes
  pub behind_colon : Bytes
  pub value_text : Bytes
  pub value : Bytes
  pub behind_value : Bytes
  pub at_name : skip_ws text ≡ 34 ∷ (name_text ++ 34 ∷ behind_name)
  pub name_body : Body name_text name
  pub at_colon : skip_ws behind_name ≡ b':' ∷ behind_colon
  pub at_value : skip_ws behind_colon ≡ 34 ∷ (value_text ++ 34 ∷ behind_value)
  pub value_body : Body value_text value
  pub adds : Adds ks is seen name value seen'
  pub rest_is : rest ≡ skip_ws behind_value

-- The members from `text` to the closing brace, with nothing but whitespace behind it.
pub data Members (ks is : ℕ) (all : Seen) : Seen → Bytes → Type 0 where
  more :
      {seen seen' : Seen} {text rest : Bytes}
      → Member ks is seen text seen' (b',' ∷ rest)
      → Members ks is all seen' rest
      → Members ks is all seen text
  last :
      {seen : Seen} {text rest : Bytes}
      → Member ks is seen text all (b'}' ∷ rest)
      → skip_ws rest ≡ []
      → Members ks is all seen text

-- A whole key object, with the values of its members.
pub record KeyObject (ks is : ℕ) (text : Bytes) (all : Seen) : Type 0 where
  pub inner : Bytes
  pub at_brace : skip_ws text ≡ b'{' ∷ inner
  pub members : Members ks is all nothing (skip_ws inner)
