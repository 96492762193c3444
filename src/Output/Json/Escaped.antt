-- ===== src/Output/Json/Escaped.antt =====
-- src/cli/output.c, `write_json_string`: the bytes that it writes.
use salt.Base.{
  ℕ, refl, sym, inl, inr, ◌||◌, [], ◌∷◌, ◌++◌, append-nil, ◌==◌, ltb, if◌then◌else◌, Bool-cases,
  Bytes,
}
use salt.Output.Json.{unicode_escape, write_json_byte, write_json_bytes, write_json_string}
use salt.Output.Writer.Emits.{Emits, cli_stream_put-Emits, and_then-Emits}

-- What stands for a byte between the quotes.
unfoldable pub escape_byte : ℕ → Bytes
escape_byte c =
    if c == 34 || c == 92
    then 92 ∷ c ∷ []
    else if c == 10
    then 92 ∷ b'n' ∷ []
    else if c == 13
    then 92 ∷ b'r' ∷ []
    else if c == 9
    then 92 ∷ b't' ∷ []
    else if ltb c 0x20
    then unicode_escape c
    else c ∷ []

unfoldable pub escape_all : Bytes → Bytes
escape_all [] = []
escape_all (c ∷ cs) = escape_byte c ++ escape_all cs

unfoldable pub quoted : Bytes → Bytes
quoted value = 34 ∷ (escape_all value ++ 34 ∷ [])

write_json_byte-Emits : (c : ℕ) → Emits (escape_byte c) (write_json_byte c)
unfolding write_json_byte escape_byte
write_json_byte-Emits c = elim (Bool-cases (c == 34 || c == 92)) [
  | inl own ↦
      rw own (and_then-Emits (cli_stream_put-Emits (92 ∷ [])) (cli_stream_put-Emits (c ∷ [])))
  | inr a ↦ rw a (elim (Bool-cases (c == 10)) [
    | inl newline ↦ rw newline (cli_stream_put-Emits _)
    | inr b ↦ rw b (elim (Bool-cases (c == 13)) [
      | inl return ↦ rw return (cli_stream_put-Emits _)
      | inr d ↦ rw d (elim (Bool-cases (c == 9)) [
        | inl tab ↦ rw tab (cli_stream_put-Emits _)
        | inr e ↦ rw e (elim (Bool-cases (ltb c 0x20)) [
          | inl control ↦ rw control (cli_stream_put-Emits _)
          | inr plain ↦ rw plain (cli_stream_put-Emits _)
        ])
      ])
    ])
  ])
]

write_json_bytes-Emits : (value : Bytes) → Emits (escape_all value) (write_json_bytes value)
unfolding write_json_bytes escape_all
write_json_bytes-Emits [] s = inl (record {
  returns = refl;
  written = sym (append-nil s.stream.written);
  same_error = refl;
  same_failed = refl;
  still_healthy = λ h. h;
})
write_json_bytes-Emits (c ∷ cs) s =
    and_then-Emits (write_json_byte-Emits c) (write_json_bytes-Emits cs) s

-- A string is written with its quotes and escapes, completely or up to the failure.
pub write_json_string-Emits : (value : Bytes) → Emits (quoted value) (write_json_string value)
unfolding write_json_string quoted
write_json_string-Emits value =
    and_then-Emits (and_then-Emits (cli_stream_put-Emits (34 ∷ [])) (write_json_bytes-Emits value))
      (cli_stream_put-Emits (34 ∷ []))
