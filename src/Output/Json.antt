-- ===== src/Output/Json.antt =====
-- src/cli/output.c: `write_json_string`.
pub mod Encoded
pub mod Escaped
pub mod Grammar
pub mod RoundTrip
use salt.Base.{ℕ, ◌+◌, ◌-◌, ◌/◌, ◌%◌, ◌||◌, [], ◌∷◌, ◌++◌, ◌==◌, ltb, if◌then◌else◌, Bytes}
use salt.Output.Writer.{Sink, Writer, cli_stream_put, ◌and_then◌}
use salt.Status.{salt_ok}

-- One digit of `%04x`.
abbrev pub hex_digit : ℕ → ℕ
hex_digit d = if ltb d 10 then b'0' + d else b'a' + (d - 10)

-- `"\\u%04x"` at a byte.
abbrev pub unicode_escape : ℕ → Bytes
unicode_escape c = 92 ∷ b'u' ∷ b'0' ∷ b'0' ∷ hex_digit (c / 16) ∷ hex_digit (c % 16) ∷ []

-- One round of the loop.
unfoldable pub write_json_byte : ℕ → Writer
write_json_byte c =
    if c == 34 || c == 92
    then cli_stream_put (92 ∷ []) and_then cli_stream_put (c ∷ [])
    else if c == 10
    then cli_stream_put (92 ∷ b'n' ∷ [])
    else if c == 13
    then cli_stream_put (92 ∷ b'r' ∷ [])
    else if c == 9
    then cli_stream_put (92 ∷ b't' ∷ [])
    else if ltb c 0x20
    then cli_stream_put (unicode_escape c)
    else cli_stream_put (c ∷ [])

unfoldable pub write_json_bytes : Bytes → Writer
write_json_bytes [] s = (salt_ok, s)
write_json_bytes (c ∷ cs) s = (write_json_byte c and_then write_json_bytes cs) s

unfoldable pub write_json_string : Bytes → Writer
unfolding write_json_bytes write_json_byte
write_json_string value =
    cli_stream_put (34 ∷ []) and_then write_json_bytes value and_then cli_stream_put (34 ∷ [])
