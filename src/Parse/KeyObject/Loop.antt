-- ===== src/Parse/KeyObject/Loop.antt =====
-- src/cli/parse.c: the loop over the members, up to `json_finish_key_fields`.
use salt.Base.{
  ℕ, zero, suc, ◌≤◌, ◌<◌, ◌≡◌, ◌⊎◌, inl, inr, refl, ap, ◌∙◌, [], ◌∷◌, arith, ◌==◌, Bool-cases,
  Bytes, length, length-append,
}
use salt.Parse.KeyObject.{
  Parser, Run, field_size, json_delimiter, json_end, json_fields, json_finish_key_fields,
}
use salt.Parse.KeyObject.Grammar.{Seen, Member, Members, more, last}
use salt.Parse.KeyObject.Member.{Holds, Holds-cursor, Named, json_parse_field_name-Outcome}
use salt.Parse.KeyObject.Member.Value.{Refused, Known, json_parse_known_field-Outcome}
use salt.Parse.Message.{invalid_key_object, message_text}
use salt.Parse.Whitespace.{skip_ws, length-skip_ws-le}
use salt.Status.{set_error}

-- What stands behind a member decides how the loop goes on.
data Delimited (again : Parser → Run) (p : Parser) (r : Run) : Type 0 where
  refuses : Refused r → Delimited again p r
  goes_on :
      (cs : Bytes)
      → skip_ws p.cursor ≡ b',' ∷ cs
      → r ≡ again (record p { cursor = cs })
      → Delimited again p r
  ends :
      (cs : Bytes)
      → skip_ws p.cursor ≡ b'}' ∷ cs
      → skip_ws cs ≡ []
      → r ≡ json_finish_key_fields (record p { cursor = [] })
      → Delimited again p r

json_end-cases :
    (p : Parser) (s : Bytes)
    → skip_ws p.cursor ≡ s
    → Refused (json_end p)
      ⊎ ((s ≡ []) × (json_end p ≡ json_finish_key_fields (record p { cursor = [] })))
json_end-cases p [] e = inr (refl, rw (e, json_end))
json_end-cases p (c ∷ cs) e = inl (
  record p { cursor = c ∷ cs; error = set_error (message_text invalid_key_object) p.error },
  rw (e, json_end),
)

json_delimiter-Delimited :
    (again : Parser → Run) (p : Parser) (s : Bytes)
    → skip_ws p.cursor ≡ s
    → Delimited again p (json_delimiter again p)
json_delimiter-Delimited again p [] e = refuses (
  record p { cursor = []; error = set_error (message_text invalid_key_object) p.error },
  rw (e, json_delimiter),
)
json_delimiter-Delimited again p (c ∷ cs) e = elim (Bool-cases (c == b',')) [
  | inl comma ↦
      let q : c ≡ b',' = ground arith in goes_on cs (rw (← q) e) (rw (e, json_delimiter) (rw comma))
  | inr no_comma ↦ elim (Bool-cases (c == b'}')) [
    | inl brace ↦
        let q : c ≡ b'}' = ground arith in
        elim (json_end-cases (record p { cursor = cs }) (skip_ws cs) refl) [
          | inl (r, bad) ↦ refuses (r, rw (e, json_delimiter) (rw (no_comma) (rw brace bad)))
          | inr (behind, done) ↦
              ends cs (rw (← q) e) behind (rw (e, json_delimiter) (rw no_comma (rw brace done)))
        ]
    | inr no_brace ↦ refuses (
      record p { cursor = c ∷ cs; error = set_error (message_text invalid_key_object) p.error },
      rw (e, json_delimiter) (rw no_comma (rw no_brace)),
    )
  ]
]

-- A run that left the loop: the members that it read, and the parser that it hands on.
pub record Looped (ks is : ℕ) (seen : Seen) (p : Parser) (r : Run) : Type 0 where
  pub all : Seen
  pub after : Parser
  pub members : Members ks is all seen p.cursor
  pub holds : Holds ks is all after
  pub returns : r ≡ json_finish_key_fields after

-- The parser in front of the value whose name has been read.
abbrev at_value : {field : Bytes} (p : Parser) → Named field p → Parser
at_value p n = record p { cursor = skip_ws n.behind_colon }

module _ (ks is : ℕ) (field : Bytes) (fuel : ℕ) (seen : Seen) (p : Parser) (n : Named field p) where
  module _ {r : Run} (k : Known ks is seen n.name (at_value p n) r) where
    -- The member that a round has read, with what stands behind it.
    round-Member : Member ks is seen p.cursor k.seen' (skip_ws k.after.cursor)
    round-Member = record {
      name_text = n.name_text;
      name = n.name;
      behind_name = n.behind_name;
      behind_colon = n.behind_colon;
      value_text = k.value_text;
      value = k.value;
      behind_value = k.after.cursor;
      at_name = n.at_name;
      name_body = n.name_body;
      at_colon = n.at_colon;
      at_value = k.at_value;
      value_body = k.value_body;
      adds = k.adds;
      rest_is = refl;
    }

    shorter : (c : ℕ) (cs : Bytes) → skip_ws k.after.cursor ≡ c ∷ cs → length cs < length p.cursor
    shorter c cs e = omega (
      arith,
      ap (λ (t : Bytes). length t) e,
      ap (λ (t : Bytes). length t) n.at_name,
      ap (λ (t : Bytes). length t) n.at_colon,
      ap (λ (t : Bytes). length t) k.at_value,
      length-append n.name_text (34 ∷ n.behind_name),
      length-append k.value_text (34 ∷ k.after.cursor),
      length-skip_ws-le p.cursor,
      length-skip_ws-le n.behind_name,
      length-skip_ws-le n.behind_colon,
      length-skip_ws-le k.after.cursor,
    )

    member_next :
        length p.cursor < suc fuel
        → {d : Run} → Delimited (λ q. json_fields fuel field q) k.after d
        → ((q : Parser)
            → Holds ks is k.seen' q
            → length q.cursor < fuel
            → Refused (json_fields fuel field q)
              ⊎ Looped ks is k.seen' q (json_fields fuel field q))
        → Refused d ⊎ Looped ks is seen p d
    member_next enough (refuses r) later = inl r
    member_next enough (goes_on cs e d) later =
        elim (later (record k.after { cursor = cs }) (Holds-cursor k.holds cs)
          (omega (arith, shorter b',' cs e))) [
            | inl (q, x) ↦ inl (q, d ∙ x)
            | inr l ↦ inr (record {
              all = l.all;
              after = l.after;
              members = more (rw e at round-Member) l.members;
              holds = l.holds;
              returns = d ∙ l.returns;
            })
          ]
    member_next enough (ends cs e behind d) later = inr (record {
      all = k.seen';
      after = record k.after { cursor = [] };
      members = last (rw e at round-Member) behind;
      holds = Holds-cursor k.holds [];
      returns = d;
    })

module _ (ks is : ℕ) (field : Bytes) (size : field_size ≤ length field) where
  pub json_fields-Outcome :
      (fuel : ℕ) (seen : Seen) (p : Parser)
      → Holds ks is seen p
      → length p.cursor < fuel
      → Refused (json_fields fuel field p) ⊎ Looped ks is seen p (json_fields fuel field p)
  unfolding json_fields
  json_fields-Outcome zero seen p h enough = absurd (omega arith)
  json_fields-Outcome (suc fuel) seen p h enough =
      elim (json_parse_field_name-Outcome field p size) [
        | inl (q, left, e) ↦ inl (q, rw (e, json_fields))
        | inr n ↦
            elim (json_parse_known_field-Outcome ks is seen (at_value p n)
              (Holds-cursor h (skip_ws n.behind_colon)) n.left n.name n.holds) [
                | inl (q, e) ↦ inl (q, rw (n.returns, json_fields) (rw e))
                | inr k ↦
                    rw (n.returns, json_fields)
                      (rw k.returns (
                        member_next ks is field fuel seen p n k enough
                          (json_delimiter-Delimited (λ q. json_fields fuel field q) k.after
                            (skip_ws k.after.cursor) refl)
                          (λ q h' shorter. json_fields-Outcome fuel k.seen' q h' shorter)))
              ]
      ]
