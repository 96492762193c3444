-- ===== src/Input/Load/Result/Parsed.antt =====
-- src/cli/input.c, the end of `salt_cli_input_load_key_input`: what the arrays of the key hold.
use salt.Args.{Cli}
use salt.Base.{
  ◌+◌, ◌≤◌, ◌≡◌, refl, arith, inl, inr, Bool, true, false, Option, none, some, [], Bool-cases,
  at_true, at_false, Bytes, length, cstr, IsCstr-cstr, Gives, ◌>>=◌,
}
use salt.Diagnostics.{salt_cli_set_error}
use salt.Input.Load.{salt_cli_report_state_error, or_report, check, parse_trimmed}
use salt.Input.Load.Keeps.Key.{Read-Returns}
use salt.Input.Load.Result.{report-is_error, of_error}
use salt.Output.Emit.{OutputMode}
use salt.Parse.KeyInput.{KeyFormat, salt_cli_parse_key_input}
use salt.Parse.KeyInput.Outcome.{Read, salt_cli_parse_key_input-Read}
use salt.Parse.KeyObject.{Parser, field_size}
use salt.Parse.Whitespace.Trim.{trim}
use salt.Seal.Sodium.{Sodium, Documented}
use salt.State.{CliState}
use salt.Status.{
  Status, salt_ok, salt_err_input, salt_err_crypto, salt_err_internal, salt_err_signal, salt_err_io,
  is_ok, salt_max_key_input_len, salt_max_key_id_len,
}

-- The C string that the options mean by the key, before it is copied and trimmed.
abbrev pub key_text : Bool → Bytes → Option Bytes → Bytes
key_text true content p = trim (cstr content)
key_text false content none = []
key_text false content (some key) = key

-- The arrays hold what a successful parse of the text leaves.
pub record KeyHeld (text : Bytes) (s : CliState) : Type 0 where
  pub parser : Parser
  pub parses :
      Read
        (salt_max_key_input_len + 1)
        (salt_max_key_id_len + 1)
        s.key_format
        text
        (some (salt_ok, parser))
  pub key : s.parsed_key_b64 ≡ parser.fields.key_b64
  pub key_id : s.parsed_key_id ≡ parser.fields.key_id
  pub has_key_id : s.parsed_has_key_id ≡ parser.has_key_id

-- What the loader leaves alone.
abbrev pub PlainPart : Type 0
PlainPart = Bool × Option Bytes × OutputMode × Option Bytes × KeyFormat × Option Bytes

abbrev pub plain_part : CliState → PlainPart
plain_part s = (
  s.plaintext_from_stdin, s.plaintext_arg, s.output_mode, s.key_id_option, s.key_format,
  s.effective_key_id,
)

abbrev pub SamePlain : Cli → Cli → Type 0
SamePlain w v = (plain_part v.state ≡ plain_part w.state) × (v.out_stream ≡ w.out_stream)

abbrev pub KeyLoads : Bytes → Cli → Status × Cli → Type 0
KeyLoads text w r = (is_ok r.0 ≡ true → KeyHeld text r.1.state) × SamePlain w r.1

pub ok_status : (s : Status) → is_ok s ≡ true → s ≡ salt_ok
ok_status salt_ok e = refl
ok_status salt_err_input e = absurd (cc e)
ok_status salt_err_crypto e = absurd (cc e)
ok_status salt_err_internal e = absurd (cc e)
ok_status salt_err_io e = absurd (cc e)
ok_status salt_err_signal e = absurd (cc e)

check-KeyLoads :
    (interrupted : Bool) (text : Bytes) (w v : Cli)
    → KeyHeld text v.state
    → SamePlain w v
    → KeyLoads text w (check interrupted v)
unfolding check salt_cli_report_state_error salt_cli_set_error
check-KeyLoads true text w v l u = (λ ok. of_error _ ok (report-is_error _ _ _ _ refl), u)
check-KeyLoads false text w v l u = (λ ok. l, u)

module _ (sodium : Sodium) (d : Documented sodium) (field : Bytes)
    (room : field_size ≤ length field) (interrupted : Bool) where
  parse_trimmed-KeyLoads :
      (trimmed : Bytes) (w v : Cli)
      → length v.state.parsed_key_b64 ≡ salt_max_key_input_len + 1
      → length v.state.parsed_key_id ≡ salt_max_key_id_len + 1
      → SamePlain w v
      → Gives (KeyLoads (cstr trimmed) w) (parse_trimmed sodium field interrupted trimmed v)
  unfolding parse_trimmed salt_cli_report_state_error
  parse_trimmed-KeyLoads trimmed w v k i u =
      let s = v.state in
      let call =
        salt_cli_parse_key_input field (some (cstr trimmed)) s.key_format s.parsed_key_b64
          (salt_max_key_input_len + 1) s.parsed_key_id (salt_max_key_id_len + 1) s.parsed_has_key_id
          s.error in
      let read =
        salt_cli_parse_key_input-Read field (cstr trimmed) s.key_format s.parsed_key_b64
          (salt_max_key_input_len + 1) s.parsed_key_id (salt_max_key_id_len + 1) s.parsed_has_key_id
          s.error (IsCstr-cstr trimmed) room (omega (arith, k)) (omega (arith, i)) in
      let (r, e) = Read-Returns _ _ _ _ call read in rw (e, ◌>>=◌) (parsed r (rw e at read))
    where
      parsed :
          (r : Status × Parser)
          → Read
              (salt_max_key_input_len + 1)
              (salt_max_key_id_len + 1)
              v.state.key_format
              (cstr trimmed)
              (some r)
          → Gives (KeyLoads (cstr trimmed) w) (
              let p = r.1 in
              let w' = record v {
                state = record v.state {
                  parsed_key_b64 = p.fields.key_b64;
                  parsed_key_id = p.fields.key_id;
                  parsed_has_key_id = p.has_key_id;
                  error = p.error;
                };
              } in
              or_report r.0 w' (λ w''. some (check interrupted w'')))
      parsed (status, p) read =
          let w' : Cli = record v {
            state = record v.state {
              parsed_key_b64 = p.fields.key_b64;
              parsed_key_id = p.fields.key_id;
              parsed_has_key_id = p.has_key_id;
              error = p.error;
            };
          } in
          elim (Bool-cases (is_ok status)) [
            | inl ok ↦ at_true (Gives (KeyLoads (cstr trimmed) w)) (is_ok status) _ _ ok (
                check-KeyLoads interrupted (cstr trimmed) w w'
                  (record {
                    parser = p;
                    parses = rw (ok_status status ok) at read;
                    key = refl;
                    key_id = refl;
                    has_key_id = refl;
                  })
                  u)
            | inr bad ↦
                at_false (Gives (KeyLoads (cstr trimmed) w)) (is_ok status) _ _ bad
                  (λ ok. of_error _ ok (report-is_error _ _ _ _ bad), u)
          ]

  pub parse_trimmed-text :
      (trimmed text : Bytes) (w v : Cli)
      → cstr trimmed ≡ text
      → length v.state.parsed_key_b64 ≡ salt_max_key_input_len + 1
      → length v.state.parsed_key_id ≡ salt_max_key_id_len + 1
      → SamePlain w v
      → Gives (KeyLoads text w) (parse_trimmed sodium field interrupted trimmed v)
  parse_trimmed-text trimmed text w v e k i u = rw (← e) (parse_trimmed-KeyLoads trimmed w v k i u)
