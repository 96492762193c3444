-- ===== src/Parse/KeyObject/Member.antt =====
-- src/cli/parse.c: `json_parse_field_name` and `json_parse_known_field`, one round of the loop.
pub mod Value
use salt.Base.{
  ℕ, ◌+◌, ◌≤◌, ◌<◌, ◌≡◌, ◌⊎◌, inl, inr, refl, sym, ap, ◌∙◌, Bool, true, false, Option, none, some,
  [], ◌∷◌, ◌++◌, arith, ◌==◌, if◌then◌else◌, Bool-cases, Bytes, length, length-append, cstr,
  cstr-append, IsCstr, strcmp_eq, strcmp_eq_iff,
}
use salt.Parse.KeyObject.{
  JsonKeyFields, Parser, Run, fail, ◌and_then◌, field_size, key_name, key_id_name, json_colon,
  json_parse_key_field, json_parse_key_id_field, json_parse_field_name, json_parse_known_field,
}
use salt.Parse.KeyObject.Grammar.{Seen, Adds, adds_key, adds_key_id, Member}
use salt.Parse.Message.{Message, invalid_key_object, message_text}
use salt.Parse.Token.{Token, json_parse_string_token}
use salt.Parse.Token.Grammar.{Body}
use salt.Parse.Token.Outcome.{Body-IsCstr, Accepted, Rejected, json_parse_string_token-Outcome}
use salt.Parse.Whitespace.{skip_ws, ◌>>=◌}
use salt.Status.{Status, salt_ok, salt_err_input, is_ok, set_error}

-- What an array holds once the member for it has been read.
abbrev pub Stored : Bool → Option Bytes → Bytes → ℕ → Type 0
Stored false none array size = Unit
Stored false (some v) array size = ⊥
Stored true none array size = ⊥
Stored true (some v) array size =
    IsCstr v × (length v < size) × ((back : Bytes) × (array ≡ v ++ 0 ∷ back))

-- The parser's fields hold the values of the members in `seen`, and the sizes are those of arrays.
pub record Holds (ks is : ℕ) (seen : Seen) (p : Parser) : Type 0 where
  pub key_size : p.fields.key_b64_size ≡ ks
  pub key_id_size : p.fields.key_id_size ≡ is
  pub key_fits : ks ≤ length p.fields.key_b64
  pub key_id_fits : is ≤ length p.fields.key_id
  pub key_stored : Stored p.fields.key_set seen.key p.fields.key_b64 ks
  pub key_id_stored : Stored p.fields.key_id_set seen.key_id p.fields.key_id is
  pub no_key_id : p.has_key_id ≡ false

json_colon-cases :
    (cs : Bytes)
    → (json_colon cs ≡ none)
      ⊎ ((ds : Bytes) × (cs ≡ b':' ∷ ds) × (json_colon cs ≡ some (skip_ws ds)))
json_colon-cases [] = inl refl
json_colon-cases (c ∷ cs) = elim (Bool-cases (c == b':')) [
  | inl colon ↦ let q : c ≡ b':' = ground arith in inr (cs, rw q, rw colon)
  | inr other ↦ inl (rw other)
]

-- The name in front of a member, and the array that holds it.
pub record Named (field : Bytes) (p : Parser) : Type 0 where
  pub name_text : Bytes
  pub name : Bytes
  pub behind_name : Bytes
  pub behind_colon : Bytes
  pub left : Bytes
  pub at_name : skip_ws p.cursor ≡ 34 ∷ (name_text ++ 34 ∷ behind_name)
  pub name_body : Body name_text name
  pub at_colon : skip_ws behind_name ≡ b':' ∷ behind_colon
  pub holds : cstr left ≡ name
  pub returns :
      json_parse_field_name field p
      ≡ some (salt_ok, record p { cursor = skip_ws behind_colon }, left)

pub json_parse_field_name-Outcome :
    (field : Bytes) (p : Parser)
    → field_size ≤ length field
    → ((q : Parser) × (left : Bytes) × (json_parse_field_name field p
          ≡ some (salt_err_input, q, left)))
      ⊎ Named field p
unfolding json_parse_field_name
json_parse_field_name-Outcome field p fits =
    elim (json_parse_string_token-Outcome field_size (skip_ws p.cursor) field fits) [
      | inl (cursor, left, e) ↦
          let error = set_error (message_text invalid_key_object) p.error in
          inl (record p { cursor = cursor; error = error }, left, rw e)
      | inr a ↦ elim (json_colon-cases (skip_ws a.rest)) [
        | inl missing ↦
            let error = set_error (message_text invalid_key_object) p.error in
            inl (
              record p { cursor = skip_ws a.rest; error = error },
              a.value ++ 0 ∷ a.back,
              rw (a.returns, ◌>>=◌) (rw missing),
            )
        | inr (behind, at_colon, e) ↦ inr (record {
          name_text = a.text;
          name = a.value;
          behind_name = a.rest;
          behind_colon = behind;
          left = a.value ++ 0 ∷ a.back;
          at_name = a.splits;
          name_body = a.body;
          at_colon = at_colon;
          holds = cstr-append a.value a.back (Body-IsCstr a.body);
          returns = rw (a.returns, ◌>>=◌) (rw e);
        })
      ]
    ]

-- The cursor has no part in what the fields hold.
pub Holds-cursor :
    {ks is : ℕ} {seen : Seen} {p : Parser}
    → Holds ks is seen p
    → (cs : Bytes) → Holds ks is seen (record p { cursor = cs })
Holds-cursor h cs = record {
  key_size = h.key_size;
  key_id_size = h.key_id_size;
  key_fits = h.key_fits;
  key_id_fits = h.key_id_fits;
  key_stored = h.key_stored;
  key_id_stored = h.key_id_stored;
  no_key_id = h.no_key_id;
}
