-- ===== src/Output/Emit/Document.antt =====
-- src/cli/output.c, `salt_cli_emit_output`: what a call leaves on the stream.
use mathlib.Core.Path.{subst}
use salt.Base.{
  ◌≡◌, ◌⊎◌, inl, inr, refl, Option, none, some, [], ◌∷◌, ◌++◌, append_assoc, append-nil, Bool-cases,
  Bytes,
}
use salt.Output.Emit.{
  OutputMode, text, json, open_document, between_fields, emit_document, salt_cli_emit_output,
}
use salt.Output.Json.Escaped.{quoted, write_json_string-Emits}
use salt.Output.Utf8.{is_valid_utf8}
use salt.Output.Utf8.Encoding.{Utf8}
use salt.Output.Utf8.Valid.{is_valid_utf8_iff}
use salt.Output.Writer.{Sink, cli_stream_put, cli_stream_flush, ◌and_then◌}
use salt.Output.Writer.Emits.{
  Complete, Broken, Emits, cli_stream_put-Emits, cli_stream_flush-Emits, and_then-Emits,
}
use salt.Status.{Status, salt_err_input}

-- The line of each mode.
unfoldable pub document : Bytes → Bytes → Bytes
document encrypted_value key_id =
    b'{'
    ∷ (open_document
        ++ (quoted encrypted_value ++ (between_fields ++ (quoted key_id ++ b'}' ∷ 10 ∷ []))))

abbrev pub rendering : OutputMode → Bytes → Bytes → Bytes
rendering text encrypted_value key_id = encrypted_value ++ 10 ∷ []
rendering json encrypted_value key_id = document encrypted_value key_id

-- The key id that JSON output can carry.
abbrev pub IsUsable : Option Bytes → Type 0
IsUsable none = ⊥
IsUsable (some []) = ⊥
IsUsable (some (c ∷ cs)) = Utf8 (c ∷ cs)

layout :
    (v k : Bytes)
    → ((((((b'{' ∷ []) ++ open_document) ++ quoted v) ++ between_fields) ++ quoted k)
          ++ b'}' ∷ 10 ∷ [])
        ++ []
      ≡ document v k
unfolding document
layout v k = simp (append_assoc, append-nil)

emit_document-Emits :
    (v k : Bytes) → Emits (document v k) (emit_document v k and_then cli_stream_flush)
emit_document-Emits v k =
    subst (λ bytes. Emits bytes (emit_document v k and_then cli_stream_flush)) (layout v k)
      (and_then-Emits
        (and_then-Emits
          (and_then-Emits
            (and_then-Emits
              (and_then-Emits (and_then-Emits (cli_stream_put-Emits _) (cli_stream_put-Emits _))
                (write_json_string-Emits v))
              (cli_stream_put-Emits _))
            (write_json_string-Emits k))
          (cli_stream_put-Emits _))
        cli_stream_flush-Emits)

emit_text-Emits :
    (v : Bytes) → Emits (v ++ 10 ∷ []) (cli_stream_put (v ++ 10 ∷ []) and_then cli_stream_flush)
emit_text-Emits v =
    subst (λ bytes. Emits bytes (cli_stream_put (v ++ 10 ∷ []) and_then cli_stream_flush))
      (append-nil (v ++ 10 ∷ []))
      (and_then-Emits (cli_stream_put-Emits (v ++ 10 ∷ [])) cli_stream_flush-Emits)

-- A call that was refused: nothing on the stream changes.
pub record Refused (s : Sink) (r : Status × Sink) : Type 0 where
  pub returns : r.0 ≡ salt_err_input
  pub same_stream : r.1.stream ≡ s.stream

-- The key id as a string; text mode does not look at it.
abbrev pub key_id_or_empty : Option Bytes → Bytes
key_id_or_empty none = []
key_id_or_empty (some k) = k

-- What a call may do, by the mode and the key id.
abbrev pub Ends : OutputMode → Bytes → Option Bytes → Sink → Status × Sink → Type 0
Ends mode v key_id s r =
    (((mode ≡ text) ⊎ IsUsable key_id)
      × (Complete (rendering mode v (key_id_or_empty key_id)) s r
          ⊎ Broken (rendering mode v (key_id_or_empty key_id)) s r))
    ⊎ ((mode ≡ json) × (¬ IsUsable key_id) × Refused s r)

-- In text mode, and in JSON mode with a key id that is not empty and is valid UTF-8, the whole line is
-- written and `SALT_OK` returned, or the environment failed an operation, a prefix of the line is
-- written and `SALT_ERR_IO` returned. In JSON mode with any other key id, `SALT_ERR_INPUT` is returned
-- and nothing is written.
pub salt_cli_emit_output-Ends :
    (mode : OutputMode) (v : Bytes) (key_id : Option Bytes) (s : Sink)
    → Ends mode v key_id s (salt_cli_emit_output mode v key_id s)
unfolding salt_cli_emit_output
salt_cli_emit_output-Ends text v key_id s = inl (inl refl, emit_text-Emits v s)
salt_cli_emit_output-Ends json v none s =
    inr (refl, λ u. u, record { returns = refl; same_stream = refl })
salt_cli_emit_output-Ends json v (some []) s =
    inr (refl, λ u. u, record { returns = refl; same_stream = refl })
salt_cli_emit_output-Ends json v (some (c ∷ cs)) s = elim (Bool-cases (is_valid_utf8 (c ∷ cs))) [
  | inl valid ↦
      rw valid (inl (inr ((is_valid_utf8_iff _).0 valid), emit_document-Emits v (c ∷ cs) s))
  | inr invalid ↦ rw invalid (
      inr (
        refl,
        λ u. cc (invalid, (is_valid_utf8_iff _).1 u),
        record { returns = refl; same_stream = refl },
      ))
]
