-- ===== src/Parse/KeyInput.antt =====
-- src/cli/parse.c: `salt_cli_parse_key_input` and its helpers, over the parsers of src/cli/parse.c
-- for a JSON object; and `enum salt_cli_key_format` of src/cli/internal.h.
pub mod Outcome
use salt.Base.{
  ℕ, ◌+◌, Bool, true, false, Option, none, some, [], ◌∷◌, ◌++◌, ◌==◌, leb, if◌then◌else◌, Bytes,
  length, store,
}
use salt.Parse.KeyObject.{
  Parser, Run, fail, first_is_nul, fresh_fields, clear_key_id,
  salt_cli_parse_key_json_object_strict,
}
use salt.Parse.Message.{invalid_input_arguments, buffer_too_small, empty_public_key}
use salt.Parse.Whitespace.{skip_ws, salt_cli_trim_whitespace_inplace, ◌>>=◌}
use salt.Status.{salt_ok, ErrorBuffer}

pub data KeyFormat : Type 0 where
  auto base64 json : KeyFormat

-- `*cursor == '{'`
abbrev pub at_brace : Bytes → Bool
at_brace [] = false
at_brace (c ∷ cs) = c == b'{'

unfoldable pub salt_cli_should_parse_key_as_json : KeyFormat → Bytes → Bool
salt_cli_should_parse_key_as_json json cursor = true
salt_cli_should_parse_key_as_json auto cursor = at_brace cursor
salt_cli_should_parse_key_as_json base64 cursor = false

-- `for (i = 0; i <= key_len; ++i) key_b64[i] = cursor[i]`, on the bytes still to be copied.
unfoldable pub copy_bytes : Bytes → ℕ → Bytes → Option Bytes
copy_bytes [] i key_b64 = some key_b64
copy_bytes (c ∷ cs) i key_b64 = do key_b64' ← store key_b64 i c; copy_bytes cs (i + 1) key_b64'

-- The key is taken from `p.cursor` into the array `p.fields.key_b64`.
unfoldable pub salt_cli_copy_base64_key_input : Parser → Run
unfolding copy_bytes
salt_cli_copy_base64_key_input p =
    if leb p.fields.key_b64_size (length p.cursor) then fail buffer_too_small p else (do
      copied ← copy_bytes (p.cursor ++ 0 ∷ []) 0 p.fields.key_b64
      key_b64 ← salt_cli_trim_whitespace_inplace copied p.fields.key_b64_size
      empty ← first_is_nul key_b64
      let p' = record p { fields = record p.fields { key_b64 = key_b64 } }
      if empty then fail empty_public_key p' else some (salt_ok, p'))

-- `key_input` is `none` where it is NULL; the pointer `has_key_id` is not.
unfoldable pub salt_cli_parse_key_input :
    Bytes → Option Bytes → KeyFormat → Bytes → ℕ → Bytes → ℕ → Bool → ErrorBuffer → Run
unfolding salt_cli_should_parse_key_as_json salt_cli_copy_base64_key_input
salt_cli_parse_key_input field key_input format key_b64 key_b64_size key_id key_id_size has e =
    let f = fresh_fields key_b64 key_b64_size key_id key_id_size in
    elim key_input [
      | none ↦
          fail invalid_input_arguments
            (record { cursor = []; fields = f; has_key_id = has; error = e })
      | some s ↦
          if key_b64_size == 0
          then fail invalid_input_arguments
              (record { cursor = s; fields = f; has_key_id = has; error = e })
          else (do
            fields ← clear_key_id f
            let cursor = skip_ws s
            elim (salt_cli_should_parse_key_as_json format cursor) [
              | true ↦
                  salt_cli_parse_key_json_object_strict field (some cursor) fields.key_b64
                    fields.key_b64_size fields.key_id fields.key_id_size false e
              | false ↦
                  salt_cli_copy_base64_key_input
                    (record { cursor = cursor; fields = fields; has_key_id = false; error = e })
            ])
    ]
