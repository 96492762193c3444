-- ===== src/Tests/Parse.antt =====
-- src/cli/parse.c at concrete inputs.
use salt.Base.{
  ◌≡◌, ◌⊎◌, refl, Bool, true, Option, none, some, [], ◌∷◌, ◌++◌, arith, Bytes, length, cstr,
}
use salt.Parse.KeyInput.{auto, salt_cli_parse_key_input}
use salt.Parse.KeyInput.Outcome.{Read, salt_cli_parse_key_input-Read}
use salt.Parse.KeyObject.{
  Run, json_parse_field_name, json_parse_known_field, salt_cli_parse_key_json_object_strict,
}
use salt.Parse.KeyObject.Member.Value.{Refused}
use salt.Parse.KeyObject.Outcome.{Parsed, salt_cli_parse_key_json_object_strict-Outcome}
use salt.Parse.Token.{accept, escape_lookup, scan, json_parse_string_token}
use salt.Parse.Token.Complete.{json_parse_string_token-Body}
use salt.Parse.Token.Grammar.{Body, nil, plain}
use salt.Parse.Token.Outcome.{Accepted, Rejected, json_parse_string_token-Outcome}
use salt.Parse.Whitespace.{cli_is_ascii_ws, skip_ws, salt_cli_trim_whitespace_inplace}
use salt.Parse.Whitespace.Trim.{trim, salt_cli_trim_whitespace_inplace-trim}
use salt.Status.{Status, salt_ok, salt_err_input, ErrorBuffer, codes}

abbrev zeros : Bytes
zeros = 0 ∷ 0 ∷ 0 ∷ 0 ∷ 0 ∷ 0 ∷ 0 ∷ 0 ∷ []

abbrev field : Bytes
field = zeros ++ (zeros ++ (zeros ++ zeros))

abbrev no_error : ErrorBuffer
no_error = record { size = 64; text = [] }

abbrev padded : Bytes
padded = codes " ab "

abbrev object : Bytes
object = codes "{\"key\": \" QUI=\", \"key_id\":\"7\"} "

trim_runs :
    salt_cli_trim_whitespace_inplace (padded ++ 0 ∷ 9 ∷ []) 5
    ≡ some (codes "ab" ++ (0 ∷ 0 ∷ 0 ∷ 9 ∷ []))
unfolding salt_cli_trim_whitespace_inplace cli_is_ascii_ws
trim_runs = refl

-- The results of a parse that are looked at: the status, the key and the key id.
abbrev outputs : Run → Option (Status × Bytes × Bytes × Bool)
outputs none = none
outputs (some (rc, p)) = some (rc, cstr p.fields.key_b64, cstr p.fields.key_id, p.has_key_id)

object_runs :
    outputs
      (salt_cli_parse_key_json_object_strict field (some object) zeros 8 zeros 8 true no_error)
    ≡ some (salt_ok, codes "QUI=", codes "7", true)
unfolding salt_cli_parse_key_json_object_strict json_parse_field_name json_parse_known_field
    json_parse_string_token scan escape_lookup salt_cli_trim_whitespace_inplace cli_is_ascii_ws
    skip_ws
object_runs = refl

-- Duplicate, unknown and missing fields, a comma at the end, and text behind the object.
abbrev status_of : Bytes → Option Status
status_of s =
    elim (salt_cli_parse_key_json_object_strict field (some s) zeros 8 zeros 8 true no_error) [
      | none ↦ none
      | some (rc, p) ↦ some rc
    ]

refusals :
    (status_of (codes "{\"key\":\"a\",\"key\":\"b\"}") ≡ some salt_err_input)
    × (status_of (codes "{\"kid\":\"a\"}") ≡ some salt_err_input)
    × (status_of (codes "{\"key_id\":\"a\"}") ≡ some salt_err_input)
    × (status_of (codes "{\"key\":\"a\",}") ≡ some salt_err_input)
    × (status_of (codes "{\"key\":\"a\"}x") ≡ some salt_err_input)
    × (status_of (codes "{\"key\":\"a\"}") ≡ some salt_ok)
unfolding salt_cli_parse_key_json_object_strict json_parse_field_name json_parse_known_field
    json_parse_string_token scan escape_lookup salt_cli_trim_whitespace_inplace cli_is_ascii_ws
    skip_ws
refusals = (refl, refl, refl, refl, refl, refl)

salt_cli_trim_whitespace_inplace-trim_example :
    (j : Bytes) × (salt_cli_trim_whitespace_inplace (padded ++ 0 ∷ 9 ∷ []) 5
      ≡ some (trim padded ++ 0 ∷ (j ++ 9 ∷ [])))
    × (length (trim padded ++ j) ≡ length padded)
salt_cli_trim_whitespace_inplace-trim_example =
    salt_cli_trim_whitespace_inplace-trim padded (9 ∷ []) 5 (omega arith) (omega arith)

json_parse_string_token-Outcome_example :
    Rejected (json_parse_string_token 4 (codes "\"ab\"c") zeros)
    ⊎ Accepted 4 (codes "\"ab\"c") zeros (json_parse_string_token 4 (codes "\"ab\"c") zeros)
json_parse_string_token-Outcome_example =
    json_parse_string_token-Outcome 4 (codes "\"ab\"c") zeros (omega arith)

ab-Body : Body (codes "ab") (codes "ab")
ab-Body =
    plain (omega arith) (omega arith) (omega arith)
      (plain (omega arith) (omega arith) (omega arith) nil)

json_parse_string_token-Body_example :
    json_parse_string_token 4 (34 ∷ (codes "ab" ++ 34 ∷ b'c' ∷ [])) (1 ∷ 2 ∷ 3 ∷ 4 ∷ [])
    ≡ accept (b'c' ∷ []) (codes "ab" ++ 0 ∷ 4 ∷ [])
json_parse_string_token-Body_example =
    json_parse_string_token-Body 4 (1 ∷ 2 ∷ []) 3 (b'c' ∷ []) (4 ∷ []) ab-Body refl (omega arith)

salt_cli_parse_key_json_object_strict-Outcome_example :
    Refused
      (salt_cli_parse_key_json_object_strict field (some object) zeros 8 zeros 8 true no_error)
    ⊎ Parsed 8 8 object
        (salt_cli_parse_key_json_object_strict field (some object) zeros 8 zeros 8 true no_error)
salt_cli_parse_key_json_object_strict-Outcome_example =
    salt_cli_parse_key_json_object_strict-Outcome field object zeros 8 zeros 8 true no_error
      (omega arith) (omega arith) (omega arith)

salt_cli_parse_key_input-Read_example :
    Read 8 8 auto padded
      (salt_cli_parse_key_input field (some padded) auto zeros 8 zeros 8 true no_error)
salt_cli_parse_key_input-Read_example =
    salt_cli_parse_key_input-Read field padded auto zeros 8 zeros 8 true no_error (omega arith)
      (omega arith) (omega arith) (omega arith)
