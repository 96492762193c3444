-- ===== src/Tests/Output.antt =====
-- src/cli/output.c at concrete inputs.
use salt.Base.{inl, ◌≡◌, ◌↔◌, refl, true, false, some, [], ◌∷◌, ◌++◌, arith, Bytes}
use salt.Output.Emit.{json, open_document, between_fields, salt_cli_emit_output}
use salt.Output.Emit.Document.{Ends, salt_cli_emit_output-Ends}
use salt.Output.Json.{write_json_string}
use salt.Output.Json.Grammar.{Chars}
use salt.Output.Json.RoundTrip.{write_json_string-Chars, write_json_string-json_parse_string_token}
use salt.Output.Utf8.{is_valid_utf8}
use salt.Output.Utf8.Encoding.{Utf8, encode, nil, cons}
use salt.Output.Utf8.Valid.{is_valid_utf8_iff}
use salt.Output.Writer.{Sink, cli_stream_put, cli_stream_flush, cli_stream_write_error}
use salt.Parse.Token.{accept, json_parse_string_token}
use salt.Status.{salt_ok, salt_err_io, codes}
use salt.Stdio.{succeeds, fails_after, write, fflush}

abbrev empty_sink : Sink
empty_sink = record {
  stream = record { written = []; plan = []; failed = false };
  error = record { size = 64; text = [] };
}

json_line :
    (salt_cli_emit_output json (codes "Yg==") (some (codes "a\"1")) empty_sink).1.stream.written
    ≡ codes "{\"encrypted_value\":\"Yg==\",\"key_id\":\"a\\\"1\"}\n"
unfolding salt_cli_emit_output is_valid_utf8 cli_stream_put cli_stream_flush write fflush
    open_document between_fields
json_line = refl

-- The third operation fails after two bytes.
abbrev full_disk : Sink
full_disk = record empty_sink {
  stream = record {
    written = [];
    plan = succeeds ∷ succeeds ∷ succeeds ∷ fails_after 1 ∷ [];
    failed = false;
  };
}

broken_line :
    (salt_cli_emit_output json (codes "Yg==") (some (codes "1")) full_disk).0 ≡ salt_err_io
unfolding salt_cli_emit_output is_valid_utf8 cli_stream_put cli_stream_flush cli_stream_write_error
    write fflush
broken_line = refl

salt_cli_emit_output-Ends_example :
    Ends json
      (codes "Yg==")
      (some (codes "1"))
      empty_sink
      (salt_cli_emit_output json (codes "Yg==") (some (codes "1")) empty_sink)
salt_cli_emit_output-Ends_example =
    salt_cli_emit_output-Ends json (codes "Yg==") (some (codes "1")) empty_sink

is_valid_utf8_iff_example :
    (is_valid_utf8 (0xE2 ∷ 0x82 ∷ 0xAC ∷ []) ≡ true) ↔ Utf8 (0xE2 ∷ 0x82 ∷ 0xAC ∷ [])
is_valid_utf8_iff_example = is_valid_utf8_iff (0xE2 ∷ 0x82 ∷ 0xAC ∷ [])

-- A control byte, a quotation mark and a character of two bytes.
abbrev sample : Bytes
sample = 1 ∷ 34 ∷ 0xC3 ∷ 0xA9 ∷ []

sample-Utf8 : Utf8 sample
unfolding encode
sample-Utf8 =
    cons 1 (inl (omega arith)) refl
      (cons 34 (inl (omega arith)) refl (cons 0xE9 (inl (omega arith)) refl nil))

write_json_string-Chars_example :
    (text : Bytes) × Chars text sample
    × Utf8 text
    × ((write_json_string sample empty_sink).0 ≡ salt_ok)
    × ((write_json_string sample empty_sink).1.stream.written ≡ 34 ∷ (text ++ 34 ∷ []))
write_json_string-Chars_example = write_json_string-Chars sample empty_sink sample-Utf8 (refl, refl)

write_json_string-json_parse_string_token_example :
    (line : Bytes) × ((write_json_string (codes "a\n") empty_sink).1.stream.written ≡ line)
    × (json_parse_string_token 3 (line ++ b',' ∷ []) (7 ∷ 7 ∷ 7 ∷ 7 ∷ [])
        ≡ accept (b',' ∷ []) (codes "a\n" ++ 0 ∷ 7 ∷ []))
write_json_string-json_parse_string_token_example =
    write_json_string-json_parse_string_token 3 (codes "a\n") (7 ∷ 7 ∷ []) 7 (b',' ∷ []) (7 ∷ [])
      empty_sink (refl, refl) (omega arith) refl (omega arith)
