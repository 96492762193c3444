-- ===== src/Parse/Message.antt =====
-- src/cli/parse.c: the diagnostics.
use salt.Base.{◌++◌, Bytes}
use salt.Status.{codes}

pub data Message : Type 0 where
  invalid_parser_arguments invalid_key_object missing_key bad_key_id : Message
  duplicate_key duplicate_key_id empty_key_field : Message
  unsupported_field : Bytes → Message
  invalid_input_arguments buffer_too_small empty_public_key : Message

-- The text that `vsnprintf` is given.
unfoldable pub message_text : Message → Bytes
message_text invalid_parser_arguments = codes "invalid JSON key parser arguments"
message_text invalid_key_object = codes "invalid JSON key object"
message_text missing_key = codes "JSON key object must include string field 'key'"
message_text bad_key_id = codes "JSON key object field 'key_id' must be a string"
message_text duplicate_key = codes "JSON key object has duplicate field 'key'"
message_text duplicate_key_id = codes "JSON key object has duplicate field 'key_id'"
message_text empty_key_field = codes "JSON key field 'key' must not be empty"
message_text (unsupported_field field) =
    codes "JSON key object contains unsupported field '" ++ (field ++ codes "'")
message_text invalid_input_arguments = codes "invalid key input arguments"
message_text buffer_too_small = codes "public key buffer too small"
message_text empty_public_key = codes "public key must not be empty"
