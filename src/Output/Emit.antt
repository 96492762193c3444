-- ===== src/Output/Emit.antt =====
-- src/cli/output.c: `salt_cli_emit_output`; and `enum salt_cli_output_mode` of src/cli/output.h.
pub mod Document
use salt.Base.{ℕ, Bool, true, false, Option, none, some, [], ◌∷◌, ◌++◌, if◌then◌else◌, Bytes}
use salt.Output.Json.{write_json_string}
use salt.Output.Utf8.{is_valid_utf8}
use salt.Output.Writer.{Sink, Writer, cli_stream_put, cli_stream_flush, ◌and_then◌}
use salt.Status.{salt_err_input, set_error, codes}

pub data OutputMode : Type 0 where
  text json : OutputMode

unfoldable pub requires_key_id : Bytes
requires_key_id = codes "JSON output requires key_id (provide JSON key_id or --key-id)"

unfoldable pub invalid_utf8 : Bytes
invalid_utf8 = codes "key_id contains invalid UTF-8 (JSON requires valid UTF-8 strings)"

abbrev pub refuse : Bytes → Writer
refuse message s = (salt_err_input, record s { error = set_error message s.error })

unfoldable pub open_document : Bytes
open_document = codes "\"encrypted_value\":"

unfoldable pub between_fields : Bytes
between_fields = codes ",\"key_id\":"

abbrev pub emit_document : Bytes → Bytes → Writer
emit_document encrypted_value key_id =
    cli_stream_put (b'{' ∷ [])
    and_then cli_stream_put open_document
    and_then write_json_string encrypted_value
    and_then cli_stream_put between_fields
    and_then write_json_string key_id
    and_then cli_stream_put (b'}' ∷ 10 ∷ [])

-- `key_id` is `none` where it is NULL.
unfoldable pub salt_cli_emit_output : OutputMode → Bytes → Option Bytes → Writer
unfolding write_json_string
salt_cli_emit_output text encrypted_value key_id =
    cli_stream_put (encrypted_value ++ 10 ∷ []) and_then cli_stream_flush
salt_cli_emit_output json encrypted_value none = refuse requires_key_id
salt_cli_emit_output json encrypted_value (some []) = refuse requires_key_id
salt_cli_emit_output json encrypted_value (some (c ∷ cs)) =
    if is_valid_utf8 (c ∷ cs)
    then emit_document encrypted_value (c ∷ cs) and_then cli_stream_flush
    else refuse invalid_utf8
