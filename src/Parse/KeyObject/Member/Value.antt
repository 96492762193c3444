-- ===== src/Parse/KeyObject/Member/Value.antt =====
-- src/cli/parse.c: `json_parse_known_field` with the readers of the two values.
use salt.Base.{
  ℕ, ◌≡◌, ◌⊎◌, inl, inr, refl, sym, ◌∙◌, Bool, true, false, Option, none, some, ◌∷◌, ◌++◌, ◌==◌,
  Bool-cases, at_true, at_false, Bytes, cstr, strcmp_eq, strcmp_eq_iff,
}
use salt.Parse.KeyObject.{
  Parser, Run, fail, ◌and_then◌, key_name, key_id_name, json_parse_key_field,
  json_parse_key_id_field, json_parse_known_field, set_key, set_key_id,
}
use salt.Parse.KeyObject.Grammar.{Seen, Adds, adds_key, adds_key_id}
use salt.Parse.KeyObject.Member.{Stored, Holds}
use salt.Parse.Message.{
  Message, missing_key, bad_key_id, duplicate_key, duplicate_key_id, unsupported_field,
  message_text,
}
use salt.Parse.Token.Grammar.{Body}
use salt.Parse.Token.Outcome.{Body-IsCstr, json_parse_string_token-Outcome}
use salt.Parse.Whitespace.{◌>>=◌}
use salt.Status.{salt_ok, salt_err_input, set_error}

none_of_unset :
    (b : Bool) (o : Option Bytes) (array : Bytes) (n : ℕ)
    → Stored b o array n
    → b ≡ false
    → o ≡ none
none_of_unset false none array n h e = refl
none_of_unset false (some v) array n h e = absurd h
none_of_unset true none array n h e = absurd h
none_of_unset true (some v) array n h e = cc

abbrev pub Refused : Run → Type 0
Refused r = (q : Parser) × (r ≡ some (salt_err_input, q))

refused : (m : Message) (p : Parser) → Refused (fail m p)
refused m p = (record p { error = set_error (message_text m) p.error }, refl)

-- A value that was read at the cursor, and the parser behind it.
pub record Known (ks is : ℕ) (seen : Seen) (name : Bytes) (p : Parser) (r : Run) : Type 0 where
  pub value_text : Bytes
  pub value : Bytes
  pub seen' : Seen
  pub after : Parser
  pub at_value : p.cursor ≡ 34 ∷ (value_text ++ 34 ∷ after.cursor)
  pub value_body : Body value_text value
  pub adds : Adds ks is seen name value seen'
  pub holds : Holds ks is seen' after
  pub returns : r ≡ some (salt_ok, after)

module _ (ks is : ℕ) (seen : Seen) (p : Parser) (h : Holds ks is seen p) where
  key-Outcome :
      (name : Bytes)
      → name ≡ key_name
      → p.fields.key_set ≡ false
      → Refused (json_parse_key_field p and_then set_key)
        ⊎ Known ks is seen name p (json_parse_key_field p and_then set_key)
  unfolding json_parse_key_field
  key-Outcome name named unset =
      elim (json_parse_string_token-Outcome p.fields.key_b64_size p.cursor p.fields.key_b64
        (rw h.key_size h.key_fits)) [
          | inl (cursor, left, e) ↦
              let p' = record p { cursor = cursor; fields = record p.fields { key_b64 = left } } in
              inl
                (record p' { error = set_error (message_text missing_key) p.error }, rw (e, ◌>>=◌))
          | inr a ↦ inr (record {
            value_text = a.text;
            value = a.value;
            seen' = record seen { key = some a.value };
            after = record p {
              cursor = a.rest;
              fields = record p.fields { key_b64 = a.value ++ 0 ∷ a.back; key_set = true };
            };
            at_value = a.splits;
            value_body = a.body;
            adds =
                adds_key named (none_of_unset _ _ _ _ h.key_stored unset) (rw (← h.key_size) a.fits)
                  refl;
            holds = record {
              key_size = h.key_size;
              key_id_size = h.key_id_size;
              key_fits = rw a.same_length h.key_fits;
              key_id_fits = h.key_id_fits;
              key_stored = (Body-IsCstr a.body, rw (← h.key_size) a.fits, (a.back, refl));
              key_id_stored = h.key_id_stored;
              no_key_id = h.no_key_id;
            };
            returns = rw (a.returns, ◌>>=◌) refl;
          })
        ]

  key_id-Outcome :
      (name : Bytes)
      → name ≡ key_id_name
      → p.fields.key_id_set ≡ false
      → Refused (json_parse_key_id_field p and_then set_key_id)
        ⊎ Known ks is seen name p (json_parse_key_id_field p and_then set_key_id)
  unfolding json_parse_key_id_field
  key_id-Outcome name named unset = elim (Bool-cases (p.fields.key_id_size == 0)) [
    | inl empty ↦ inl (record p { error = set_error (message_text bad_key_id) p.error }, rw empty)
    | inr room ↦
        elim (json_parse_string_token-Outcome p.fields.key_id_size p.cursor p.fields.key_id
          (rw h.key_id_size h.key_id_fits)) [
            | inl (cursor, left, e) ↦
                let p' = record p { cursor = cursor; fields = record p.fields { key_id = left } } in
                inl (
                  record p' { error = set_error (message_text bad_key_id) p.error },
                  rw room (rw (e, ◌>>=◌)),
                )
            | inr a ↦ inr (record {
              value_text = a.text;
              value = a.value;
              seen' = record seen { key_id = some a.value };
              after = record p {
                cursor = a.rest;
                fields = record p.fields { key_id = a.value ++ 0 ∷ a.back; key_id_set = true };
              };
              at_value = a.splits;
              value_body = a.body;
              adds =
                  adds_key_id named (none_of_unset _ _ _ _ h.key_id_stored unset)
                    (rw (← h.key_id_size) a.fits) refl;
              holds = record {
                key_size = h.key_size;
                key_id_size = h.key_id_size;
                key_fits = h.key_fits;
                key_id_fits = rw a.same_length h.key_id_fits;
                key_stored = h.key_stored;
                key_id_stored = (Body-IsCstr a.body, rw (← h.key_id_size) a.fits, (a.back, refl));
                no_key_id = h.no_key_id;
              };
              returns = rw room (rw (a.returns, ◌>>=◌));
            })
          ]
  ]

  -- The field of any name: refused, or one of the two members read into its array.
  pub json_parse_known_field-Outcome :
      (field name : Bytes)
      → cstr field ≡ name
      → Refused (json_parse_known_field field p)
        ⊎ Known ks is seen name p (json_parse_known_field field p)
  unfolding json_parse_known_field
  json_parse_known_field-Outcome field name e =
      elim (Bool-cases (strcmp_eq (cstr field) key_name)) [
        | inl is_key ↦ at_true Ends _ _ _ is_key (elim (Bool-cases p.fields.key_set) [
          | inl twice ↦ at_true Ends _ _ _ twice (inl (refused duplicate_key p))
          | inr unset ↦
              at_false Ends _ _ _ unset
                (key-Outcome name (sym e ∙ (strcmp_eq_iff _ _).0 is_key) unset)
        ])
        | inr not_key ↦
            at_false Ends _ _ _ not_key (elim (Bool-cases (strcmp_eq (cstr field) key_id_name)) [
              | inl is_id ↦ at_true Ends _ _ _ is_id (elim (Bool-cases p.fields.key_id_set) [
                | inl twice ↦ at_true Ends _ _ _ twice (inl (refused duplicate_key_id p))
                | inr unset ↦
                    at_false Ends _ _ _ unset
                      (key_id-Outcome name (sym e ∙ (strcmp_eq_iff _ _).0 is_id) unset)
              ])
              | inr not_id ↦
                  at_false Ends _ _ _ not_id (inl (refused (unsupported_field (cstr field)) p))
            ])
      ]
    where
      Ends : Run → Type 0
      Ends r = Refused r ⊎ Known ks is seen name p r
