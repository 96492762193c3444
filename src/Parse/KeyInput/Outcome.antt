-- ===== src/Parse/KeyInput/Outcome.antt =====
-- src/cli/parse.c, `salt_cli_parse_key_input`: all that a call can do.
use salt.Base.{
  ℕ, ◌≤◌, ◌<◌, ◌≡◌, ◌⊎◌, inl, inr, refl, ap, Bool, true, false, some, [], ◌∷◌, ◌++◌, append_assoc,
  arith, ◌==◌, leb, Bool-cases, at_true, at_false, Bytes, length, length-append, store-append,
  split_at, cstr, IsCstr,
}
use salt.Parse.KeyInput.{
  KeyFormat, auto, base64, json, salt_cli_should_parse_key_as_json, copy_bytes,
  salt_cli_copy_base64_key_input, salt_cli_parse_key_input,
}
use salt.Parse.KeyObject.{Parser, Run, field_size, fresh_fields}
use salt.Parse.KeyObject.Finish.{is_empty, trimmed}
use salt.Parse.KeyObject.Member.Value.{Refused}
use salt.Parse.KeyObject.Outcome.{Parsed, cleared, salt_cli_parse_key_json_object_strict-Outcome}
use salt.Parse.Message.{invalid_input_arguments, buffer_too_small, empty_public_key, message_text}
use salt.Parse.Whitespace.{skip_ws, ◌>>=◌}
use salt.Parse.Whitespace.Trim.{trim, IsCstr-skip_ws}
use salt.Status.{salt_ok, ErrorBuffer, set_error}

-- The copy overwrites as many bytes as it reads, and no others.
pub copy_bytes-append :
    (xs done gap back : Bytes)
    → length gap ≡ length xs
    → copy_bytes xs (length done) (done ++ (gap ++ back)) ≡ some (done ++ (xs ++ back))
unfolding copy_bytes
copy_bytes-append [] done [] back e = refl
copy_bytes-append [] done (g ∷ gap) back e = absurd (omega arith)
copy_bytes-append (x ∷ xs) done [] back e = absurd (omega arith)
copy_bytes-append (x ∷ xs) done (g ∷ gap) back e =
    let rest = copy_bytes-append xs (done ++ x ∷ []) gap back (omega arith) in
    rw (store-append done g (gap ++ back) x, ◌>>=◌)
      (rw
        (
          length-append done (x ∷ []),
          append_assoc done (x ∷ []) (gap ++ back),
          append_assoc done (x ∷ []) (xs ++ back),
        )
        at rest)

-- A base64 key that was taken: `s` without the whitespace around it, which is not empty.
pub record Taken (ks : ℕ) (s : Bytes) (r : Run) : Type 0 where
  pub after : Parser
  pub fits : length s < ks
  pub not_blank : is_empty (trim s) ≡ false
  pub holds : cstr after.fields.key_b64 ≡ trim s
  pub no_key_id : after.has_key_id ≡ false
  pub returns : r ≡ some (salt_ok, after)

-- Why a base64 key was refused.
pub data NotTaken (ks : ℕ) (s : Bytes) (r : Run) : Type 0 where
  too_long : ks ≤ length s → Refused r → NotTaken ks s r
  blank : length s < ks → is_empty (trim s) ≡ true → Refused r → NotTaken ks s r

-- The string with its NUL, at the front of the array.
copied :
    (s array : Bytes)
    → length s < length array
    → (back : Bytes) × (copy_bytes (s ++ 0 ∷ []) 0 array ≡ some (s ++ 0 ∷ back))
copied s array room =
    let (gap, x, back, e, l) = split_at (length s) array room in
    let copy =
      copy_bytes-append (s ++ 0 ∷ []) [] (gap ++ x ∷ []) back
        (omega (arith, length-append s (0 ∷ []), length-append gap (x ∷ []))) in
    (back, rw e (rw (append_assoc gap (x ∷ []) back, append_assoc s (0 ∷ []) back) at copy))

-- A base64 key is taken exactly where it fits the array with its NUL and is not blank; the array then
-- holds it without the whitespace around it. There is no fault.
pub salt_cli_copy_base64_key_input-Outcome :
    (p : Parser)
    → IsCstr p.cursor
    → p.fields.key_b64_size ≤ length p.fields.key_b64
    → p.has_key_id ≡ false
    → NotTaken p.fields.key_b64_size p.cursor (salt_cli_copy_base64_key_input p)
      ⊎ Taken p.fields.key_b64_size p.cursor (salt_cli_copy_base64_key_input p)
unfolding salt_cli_copy_base64_key_input
salt_cli_copy_base64_key_input-Outcome p c size has =
    elim (Bool-cases (leb p.fields.key_b64_size (length p.cursor))) [
      | inl long ↦ at_true Ends _ _ _ long (
          inl (
            too_long (ground arith)
              (record p { error = set_error (message_text buffer_too_small) p.error }, refl)))
      | inr fits ↦
          let short : length p.cursor < p.fields.key_b64_size = ground arith in
          let (back, copy) = copied p.cursor p.fields.key_b64 (omega arith) in
          let t =
            trimmed p.cursor (p.cursor ++ 0 ∷ back) p.fields.key_b64_size c short (back, refl) in
          let p' : Parser = record p { fields = record p.fields { key_b64 = t.out } } in
          at_false Ends _ _ _ fits (
            rw (copy, ◌>>=◌)
              (rw (t.trims, ◌>>=◌)
                (rw (t.tests, ◌>>=◌)
                  (elim (Bool-cases (is_empty (trim p.cursor))) [
                    | inl is_blank ↦ at_true Ends _ _ _ is_blank (
                        inl (
                          blank short is_blank (
                            record p' { error = set_error (message_text empty_public_key) p.error },
                            refl,
                          )))
                    | inr filled ↦ at_false Ends _ _ _ filled (
                        inr (record {
                          after = p';
                          fits = short;
                          not_blank = filled;
                          holds = t.holds;
                          no_key_id = has;
                          returns = refl;
                        }))
                  ]))))
    ]
  where
    Ends : Run → Type 0
    Ends r = NotTaken p.fields.key_b64_size p.cursor r ⊎ Taken p.fields.key_b64_size p.cursor r

-- A brace stands at the front.
abbrev pub Braced : Bytes → Type 0
Braced text = (rest : Bytes) × (text ≡ b'{' ∷ rest)

-- The formats in which a text is to be a key object, and those in which it is to be base64.
pub data MeansJson : KeyFormat → Bytes → Type 0 where
  json_format : {text : Bytes} → MeansJson json text
  auto_brace : {text : Bytes} → Braced text → MeansJson auto text

pub data MeansBase64 : KeyFormat → Bytes → Type 0 where
  base64_format : {text : Bytes} → MeansBase64 base64 text
  auto_other : {text : Bytes} → ¬ Braced text → MeansBase64 auto text

-- The test tells them apart.
salt_cli_should_parse_key_as_json-Means :
    (format : KeyFormat) (text : Bytes)
    → ((salt_cli_should_parse_key_as_json format text ≡ true) × MeansJson format text)
      ⊎ ((salt_cli_should_parse_key_as_json format text ≡ false) × MeansBase64 format text)
unfolding salt_cli_should_parse_key_as_json
salt_cli_should_parse_key_as_json-Means json text = inl (refl, json_format)
salt_cli_should_parse_key_as_json-Means base64 text = inr (refl, base64_format)
salt_cli_should_parse_key_as_json-Means auto [] = inr (refl, auto_other (λ b. absurd (cc b.1)))
salt_cli_should_parse_key_as_json-Means auto (c ∷ cs) = elim (Bool-cases (c == b'{')) [
  | inl brace ↦ let e : c ≡ b'{' = ground arith in inl (brace, auto_brace (cs, ap (λ x. x ∷ cs) e))
  | inr other ↦ inr (other, auto_other (λ b. let e : c ≡ b'{' = cc b.1 in absurd (ground arith)))
]

-- The two ways to read a key, and which one a call takes.
pub data Read (ks is : ℕ) (format : KeyFormat) (s : Bytes) (r : Run) : Type 0 where
  no_room : ks ≡ 0 → Refused r → Read ks is format s r
  as_json :
      MeansJson format (skip_ws s) → Refused r ⊎ Parsed ks is (skip_ws s) r → Read ks is format s r
  as_base64 :
      MeansBase64 format (skip_ws s)
      → NotTaken ks (skip_ws s) r ⊎ Taken ks (skip_ws s) r
      → Read ks is format s r

-- On a C string and arrays of at least the sizes that the caller gives, a call faults nowhere. With
-- the format json, and with auto where a brace stands behind the leading whitespace, it parses a
-- strict key object there: it refuses, or the text is a key object of the grammar and the outputs
-- hold its trimmed values. With the format base64, and with auto where no brace stands there, it
-- takes the text as a base64 key exactly where that fits the array with its NUL and is not blank,
-- and then the array holds it trimmed. An array for the key of size 0 is refused.
pub salt_cli_parse_key_input-Read :
    (field s : Bytes) (format : KeyFormat) (key_b64 : Bytes) (ks : ℕ) (key_id : Bytes) (is : ℕ)
    (has : Bool) (e : ErrorBuffer)
    → IsCstr s
    → field_size ≤ length field
    → ks ≤ length key_b64
    → is ≤ length key_id
    → Read ks is format s
        (salt_cli_parse_key_input field (some s) format key_b64 ks key_id is has e)
unfolding salt_cli_parse_key_input
salt_cli_parse_key_input-Read field s format key_b64 ks key_id is has e c size key_fits id_fits =
    let f = fresh_fields key_b64 ks key_id is in
    let (array, clears, same) = cleared f id_fits in
    elim (Bool-cases (ks == 0)) [
      | inl empty ↦ at_true (Read ks is format s) _ _ _ empty (
          no_room (ground arith) (
            record {
              cursor = s;
              fields = f;
              has_key_id = has;
              error = set_error (message_text invalid_input_arguments) e;
            },
            refl,
          ))
      | inr room ↦ at_false (Read ks is format s) _ _ _ room (
          rw (clears, ◌>>=◌)
            (elim (salt_cli_should_parse_key_as_json-Means format (skip_ws s)) [
              | inl (object, means) ↦ rw object (
                  as_json means (
                    salt_cli_parse_key_json_object_strict-Outcome field (skip_ws s) key_b64 ks array
                      is false e size key_fits (rw same id_fits)))
              | inr (plain, means) ↦ rw plain (
                  as_base64 means (
                    salt_cli_copy_base64_key_input-Outcome
                      (record {
                        cursor = skip_ws s;
                        fields = record f { key_id = array };
                        has_key_id = false;
                        error = e;
                      })
                      (IsCstr-skip_ws s c) key_fits refl))
            ]))
    ]
