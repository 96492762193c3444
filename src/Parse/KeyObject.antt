-- ===== src/Parse/KeyObject.antt =====
-- src/cli/parse.c: `struct json_key_fields` and the parser of a strict JSON key object. An array is
-- the list of its bytes with the size that the caller gives; the code treats a NULL array and one of
-- size 0 alike, and so does the model. `none` is a fault: a read or a write outside of an array, or a
-- loop that does not end within its fuel.
pub mod Grammar
pub mod Finish
pub mod Member
pub mod Loop
pub mod Outcome
use salt.Base.{
  ℕ, zero, suc, ◌+◌, ◌≡◌, Bool, true, false, Option, none, some, List, [], ◌∷◌, ◌==◌, if◌then◌else◌,
  Bytes, length, get_elem?, store, cstr, strcmp_eq,
}
use salt.Parse.Message.{
  Message, invalid_parser_arguments, invalid_key_object, missing_key, bad_key_id, duplicate_key,
  duplicate_key_id, empty_key_field, unsupported_field, message_text,
}
use salt.Parse.Token.{Token, json_parse_string_token}
use salt.Parse.Whitespace.{skip_ws, salt_cli_trim_whitespace_inplace, ◌>>=◌}
use salt.Status.{Status, salt_ok, salt_err_input, is_ok, ErrorBuffer, set_error, codes}

pub record JsonKeyFields : Type 0 where
  pub key_b64 : Bytes
  pub key_b64_size : ℕ
  pub key_id : Bytes
  pub key_id_size : ℕ
  pub key_set : Bool
  pub key_id_set : Bool

-- What the functions of the parser share: the cursor, the fields and the caller's outputs.
pub record Parser : Type 0 where
  pub cursor : Bytes
  pub fields : JsonKeyFields
  pub has_key_id : Bool
  pub error : ErrorBuffer

abbrev pub Run : Type 0
Run = Option (Status × Parser)

-- `cli_set_error(error, error_size, …); return SALT_ERR_INPUT`
abbrev pub fail : Message → Parser → Run
fail m p = some (salt_err_input, record p { error = set_error (message_text m) p.error })

-- `if (f(…) != SALT_OK) return SALT_ERR_INPUT;` and what follows.
infixl 5 ◌and_then◌
abbrev pub ◌and_then◌ : Run → (Parser → Run) → Run
m and_then next = elim m [
  | none ↦ none
  | some (rc, p) ↦ if is_ok rc then next p else some (salt_err_input, p)
]

abbrev pub field_size : ℕ
field_size = 32

abbrev pub key_name : Bytes
key_name = b'k' ∷ b'e' ∷ b'y' ∷ []

abbrev pub key_id_name : Bytes
key_id_name = b'k' ∷ b'e' ∷ b'y' ∷ b'_' ∷ b'i' ∷ b'd' ∷ []

unfoldable pub json_parse_key_field : Parser → Run
json_parse_key_field p = do
  token ← json_parse_string_token p.fields.key_b64_size p.cursor p.fields.key_b64
  let fields = record p.fields { key_b64 = token.out }
  let p' = record p { cursor = token.cursor; fields = fields }
  if token.accepted then some (salt_ok, p') else fail missing_key p'

unfoldable pub json_parse_key_id_field : Parser → Run
json_parse_key_id_field p = if p.fields.key_id_size == 0 then fail bad_key_id p else do
  token ← json_parse_string_token p.fields.key_id_size p.cursor p.fields.key_id
  let fields = record p.fields { key_id = token.out }
  let p' = record p { cursor = token.cursor; fields = fields }
  if token.accepted then some (salt_ok, p') else fail bad_key_id p'

-- The colon behind a field's name, and the whitespace around it.
abbrev pub json_colon : Bytes → Option Bytes
json_colon [] = none
json_colon (c ∷ cs) = if c == b':' then some (skip_ws cs) else none

-- With the name that it leaves in the array `field`.
unfoldable pub json_parse_field_name : Bytes → Parser → Option (Status × Parser × Bytes)
json_parse_field_name field p = do
  token ← json_parse_string_token field_size (skip_ws p.cursor) field
  let behind = skip_ws token.cursor
  let refused = λ (stop : Bytes). record p {
    cursor = stop;
    error = set_error (message_text invalid_key_object) p.error;
  }
  elim token.accepted [
    | true ↦ elim (json_colon behind) [
      | none ↦ some (salt_err_input, refused behind, token.out)
      | some rest ↦ some (salt_ok, record p { cursor = rest }, token.out)
    ]
    | false ↦ some (salt_err_input, refused token.cursor, token.out)
  ]

abbrev pub set_key : Parser → Run
set_key p = some (salt_ok, record p { fields = record p.fields { key_set = true } })

abbrev pub set_key_id : Parser → Run
set_key_id p = some (salt_ok, record p { fields = record p.fields { key_id_set = true } })

unfoldable pub json_parse_known_field : Bytes → Parser → Run
unfolding json_parse_key_field json_parse_key_id_field
json_parse_known_field field p =
    if strcmp_eq (cstr field) key_name
    then (if p.fields.key_set
        then fail duplicate_key p
        else json_parse_key_field p and_then set_key)
    else if strcmp_eq (cstr field) key_id_name
    then (if p.fields.key_id_set
        then fail duplicate_key_id p
        else json_parse_key_id_field p and_then set_key_id)
    else fail (unsupported_field (cstr field)) p

-- `array[0] == '\0'`
abbrev pub first_is_nul : Bytes → Option Bool
first_is_nul array = do c ← get_elem? array 0; some (c == 0)

-- The trimmed key id, and whether there is one.
abbrev pub json_finish_key_id : Parser → Run
json_finish_key_id p =
    if p.fields.key_id_set
    then (do
      key_id ← salt_cli_trim_whitespace_inplace p.fields.key_id p.fields.key_id_size
      no_id ← first_is_nul key_id
      let fields = record p.fields { key_id = key_id }
      let has = if no_id then p.has_key_id else true
      some (salt_ok, record p { fields = fields; has_key_id = has }))
    else some (salt_ok, p)

unfoldable pub json_finish_key_fields : Parser → Run
json_finish_key_fields p =
    if p.fields.key_set
    then (do
      key_b64 ← salt_cli_trim_whitespace_inplace p.fields.key_b64 p.fields.key_b64_size
      empty ← first_is_nul key_b64
      let p' = record p { fields = record p.fields { key_b64 = key_b64 } }
      if empty then fail empty_key_field p' else json_finish_key_id p')
    else fail missing_key p

-- Behind the closing brace.
abbrev pub json_end : Parser → Run
json_end p = elim (skip_ws p.cursor) [
  | [] ↦ json_finish_key_fields (record p { cursor = [] })
  | c ∷ cs ↦ fail invalid_key_object (record p { cursor = c ∷ cs })
]

-- Behind a member: a comma goes round again, a brace leaves the loop.
abbrev pub json_delimiter : (Parser → Run) → Parser → Run
json_delimiter again p = elim (skip_ws p.cursor) [
  | [] ↦ fail invalid_key_object (record p { cursor = [] })
  | c ∷ cs ↦
      if c == b','
      then again (record p { cursor = cs })
      else if c == b'}'
      then json_end (record p { cursor = cs })
      else fail invalid_key_object (record p { cursor = c ∷ cs })
]

-- The loop; `field` is the uninitialised array of each round.
unfoldable pub json_fields : ℕ → Bytes → Parser → Run
json_fields zero field p = none
json_fields (suc fuel) field p = elim (json_parse_field_name field p) [
  | none ↦ none
  | some (rc, p', name) ↦
      if is_ok rc
      then json_parse_known_field name p' and_then json_delimiter (λ q. json_fields fuel field q)
      else some (salt_err_input, p')
]

-- The key object behind the argument checks: `p.cursor` is `json`.
unfoldable pub json_object : Bytes → Parser → Run
json_object field p = elim (skip_ws p.cursor) [
  | [] ↦ fail invalid_key_object (record p { cursor = [] })
  | c ∷ cs ↦
      if c == b'{'
      then elim (skip_ws cs) [
        | [] ↦ json_fields 1 field (record p { cursor = [] })
        | d ∷ ds ↦
            if d == b'}'
            then fail missing_key (record p { cursor = d ∷ ds })
            else json_fields (suc (length (d ∷ ds))) field (record p { cursor = d ∷ ds })
      ]
      else fail invalid_key_object (record p { cursor = c ∷ cs })
]

-- `key_id[0] = '\0'`, where there is room for it.
abbrev pub clear_key_id : JsonKeyFields → Option JsonKeyFields
clear_key_id f =
    if f.key_id_size == 0
    then some f
    else do key_id ← store f.key_id 0 0; some (record f { key_id = key_id })

abbrev pub fresh_fields : Bytes → ℕ → Bytes → ℕ → JsonKeyFields
fresh_fields key_b64 key_b64_size key_id key_id_size = record {
  key_b64 = key_b64;
  key_b64_size = key_b64_size;
  key_id = key_id;
  key_id_size = key_id_size;
  key_set = false;
  key_id_set = false;
}

-- `json` is `none` where it is NULL; the pointer `has_key_id` is not.
unfoldable pub salt_cli_parse_key_json_object_strict :
    Bytes → Option Bytes → Bytes → ℕ → Bytes → ℕ → Bool → ErrorBuffer → Run
unfolding json_object json_fields json_finish_key_fields
salt_cli_parse_key_json_object_strict field json key_b64 key_b64_size key_id key_id_size has e =
    let f = fresh_fields key_b64 key_b64_size key_id key_id_size in
    elim json [
      | none ↦
          fail invalid_parser_arguments
            (record { cursor = []; fields = f; has_key_id = has; error = e })
      | some s ↦
          if key_b64_size == 0
          then fail invalid_parser_arguments
              (record { cursor = s; fields = f; has_key_id = has; error = e })
          else do
            fields ← clear_key_id f
            json_object field
                (record { cursor = s; fields = fields; has_key_id = false; error = e })
    ]
