-- ===== src/Parse/KeyObject/Outcome.antt =====
-- src/cli/parse.c, `salt_cli_parse_key_json_object_strict`: all that a call can do.
use salt.Base.{
  ℕ, suc, ◌≤◌, ◌≡◌, ◌⊎◌, inl, inr, refl, sym, ◌∙◌, Bool, false, some, [], ◌∷◌, arith, ◌==◌,
  if◌then◌else◌, Bool-cases, at_true, at_false, Bytes, length, store_total,
}
use salt.Parse.KeyObject.{
  JsonKeyFields, Parser, Run, fail, field_size, json_fields, json_object, clear_key_id,
  fresh_fields, salt_cli_parse_key_json_object_strict,
}
use salt.Parse.KeyObject.Finish.{Finished, json_finish_key_fields-Outcome}
use salt.Parse.KeyObject.Grammar.{Seen, nothing, KeyObject}
use salt.Parse.KeyObject.Loop.{Looped, json_fields-Outcome}
use salt.Parse.KeyObject.Member.{Holds, Holds-cursor}
use salt.Parse.KeyObject.Member.Value.{Refused}
use salt.Parse.Message.{
  Message, invalid_parser_arguments, invalid_key_object, missing_key, message_text,
}
use salt.Parse.Whitespace.{skip_ws, ◌>>=◌}
use salt.Status.{ErrorBuffer, set_error}

-- A call that returned `SALT_OK`: the key object that it read, and what it left in the outputs.
pub record Parsed (ks is : ℕ) (s : Bytes) (r : Run) : Type 0 where
  pub all : Seen
  pub object : KeyObject ks is s all
  pub finished : Finished all r

module _ (ks is : ℕ) (field : Bytes) (size : field_size ≤ length field) (s : Bytes) where
  Ends : Run → Type 0
  Ends r = Refused r ⊎ Parsed ks is s r

  refused : (m : Message) (p : Parser) → Ends (fail m p)
  unfolding Ends
  refused m p = inl (record p { error = set_error (message_text m) p.error }, refl)

  loop-Ends :
      (inner : Bytes) (p : Parser) (r : Run)
      → skip_ws s ≡ b'{' ∷ inner
      → p.cursor ≡ skip_ws inner
      → Refused r ⊎ Looped ks is nothing p r
      → Ends r
  unfolding Ends
  loop-Ends inner p r brace here (inl q) = inl q
  loop-Ends inner p r brace here (inr l) =
      elim (json_finish_key_fields-Outcome ks is l.all l.after l.holds) [
        | inl (q, e) ↦ inl (q, l.returns ∙ e)
        | inr f ↦ inr (record {
          all = l.all;
          object = record { inner = inner; at_brace = brace; members = rw here at l.members };
          finished = record {
            key = f.key;
            after = f.after;
            has_key = f.has_key;
            not_blank = f.not_blank;
            key_holds = f.key_holds;
            key_id_holds = f.key_id_holds;
            key_id_known = f.key_id_known;
            returns = l.returns ∙ f.returns;
          };
        })
      ]

  -- Behind the opening brace.
  inner-Ends :
      (inner t : Bytes) (p : Parser)
      → skip_ws s ≡ b'{' ∷ inner
      → skip_ws inner ≡ t
      → Holds ks is nothing p
      → Ends (elim t [
        | [] ↦ json_fields 1 field (record p { cursor = [] })
        | d ∷ ds ↦
            if d == b'}'
            then fail missing_key (record p { cursor = d ∷ ds })
            else json_fields (suc (length (d ∷ ds))) field (record p { cursor = d ∷ ds })
      ])
  unfolding Ends
  inner-Ends inner [] p brace e h =
      loop-Ends inner (record p { cursor = [] }) _ brace (sym e)
        (json_fields-Outcome ks is field size 1 nothing _ (Holds-cursor h []) (omega arith))
  inner-Ends inner (d ∷ ds) p brace e h = elim (Bool-cases (d == b'}')) [
    | inl empty ↦ at_true Ends _ _ _ empty (refused missing_key (record p { cursor = d ∷ ds }))
    | inr members ↦ at_false Ends _ _ _ members (
        loop-Ends inner (record p { cursor = d ∷ ds }) _ brace (sym e)
          (json_fields-Outcome ks is field size (suc (length (d ∷ ds))) nothing _
            (Holds-cursor h (d ∷ ds)) (omega arith)))
  ]

  object-Ends :
      (t : Bytes) (p : Parser)
      → p.cursor ≡ s
      → skip_ws s ≡ t
      → Holds ks is nothing p
      → Ends (json_object field p)
  unfolding json_object
  object-Ends [] p c e h =
      rw (c, e, json_object) (refused invalid_key_object (record p { cursor = [] }))
  object-Ends (x ∷ cs) p c e h = elim (Bool-cases (x == b'{')) [
    | inl brace ↦
        let q : x ≡ b'{' = ground arith in
        rw (c, json_object)
          (rw (e, json_object)
            (at_true Ends _ _ _ brace (inner-Ends cs (skip_ws cs) p (e ∙ rw q) refl h)))
    | inr other ↦
        rw (c, json_object)
          (rw (e, json_object)
            (at_false Ends _ _ _ other (refused invalid_key_object (record p { cursor = x ∷ cs }))))
  ]

-- The cleared key id keeps the sizes of the arrays.
pub cleared :
    (f : JsonKeyFields)
    → f.key_id_size ≤ length f.key_id
    → (array : Bytes) × (clear_key_id f ≡ some (record f { key_id = array }))
      × (length array ≡ length f.key_id)
cleared f fits = elim (Bool-cases (f.key_id_size == 0)) [
  | inl absent ↦ (f.key_id, rw absent, refl)
  | inr room ↦
      let (array, e, same) = store_total f.key_id 0 0 (ground arith) in
      (array, rw room (rw (e, ◌>>=◌)), same)
]

-- For a string `s` and arrays of at least the sizes that the caller gives, a call faults nowhere,
-- ends within its fuel, and ends in one of two ways. It returns `SALT_ERR_INPUT`; or it returns
-- `SALT_OK`, `s` is a key object of the grammar whose key is not blank, the array for the key holds
-- the key without the whitespace around it, and `has_key_id` says whether there is a key id that is
-- not blank, which the array for the key id then holds in the same way.
pub salt_cli_parse_key_json_object_strict-Outcome :
    (field s key_b64 : Bytes) (ks : ℕ) (key_id : Bytes) (is : ℕ) (has : Bool) (e : ErrorBuffer)
    → field_size ≤ length field
    → ks ≤ length key_b64
    → is ≤ length key_id
    → Refused (salt_cli_parse_key_json_object_strict field (some s) key_b64 ks key_id is has e)
      ⊎ Parsed ks is s
          (salt_cli_parse_key_json_object_strict field (some s) key_b64 ks key_id is has e)
unfolding salt_cli_parse_key_json_object_strict Ends
salt_cli_parse_key_json_object_strict-Outcome field s key_b64 ks key_id is has e size key_fits
      id_fits =
    let f = fresh_fields key_b64 ks key_id is in
    let (array, clears, same) = cleared f id_fits in
    elim (Bool-cases (ks == 0)) [
      | inl no_room ↦ at_true (Ends ks is field size s) _ _ _ no_room (
          refused ks is field size s invalid_parser_arguments
            (record { cursor = s; fields = f; has_key_id = has; error = e }))
      | inr room ↦ at_false (Ends ks is field size s) _ _ _ room (
          rw (clears, ◌>>=◌)
            (object-Ends ks is field size s (skip_ws s)
              (record {
                cursor = s;
                fields = record f { key_id = array };
                has_key_id = false;
                error = e;
              })
              refl refl
              (record {
                key_size = refl;
                key_id_size = refl;
                key_fits = key_fits;
                key_id_fits = rw same id_fits;
                key_stored = tt;
                key_id_stored = tt;
                no_key_id = refl;
              })))
    ]
