-- ===== src/Parse/KeyObject/Finish.antt =====
-- src/cli/parse.c: `json_finish_key_fields`, behind the members.
use salt.Base.{
  ℕ, ◌<◌, ◌≡◌, ◌⊎◌, inl, inr, refl, Bool, true, false, not, Option, none, some, [], ◌∷◌, ◌++◌,
  arith, if◌then◌else◌, Bool-cases, at_true, at_false, Bytes, length, cstr, cstr-append, IsCstr,
}
use salt.Parse.KeyObject.{
  Parser, Run, fail, first_is_nul, json_finish_key_id, json_finish_key_fields,
}
use salt.Parse.KeyObject.Grammar.{Seen}
use salt.Parse.KeyObject.Member.{Stored, Holds}
use salt.Parse.KeyObject.Member.Value.{Refused}
use salt.Parse.Message.{missing_key, empty_key_field, message_text}
use salt.Parse.Whitespace.{salt_cli_trim_whitespace_inplace, ◌>>=◌}
use salt.Parse.Whitespace.Trim.{trim, salt_cli_trim_whitespace_inplace-trim, IsCstr-trim}
use salt.Status.{salt_ok, set_error}

abbrev pub is_empty : Bytes → Bool
is_empty [] = true
is_empty (c ∷ cs) = false

-- A member whose value has something else than whitespace.
abbrev pub has_value : Option Bytes → Bool
has_value none = false
has_value (some v) = not (is_empty (trim v))

-- The array holds the trimmed value of a member that was read.
abbrev pub HoldsTrimmed : Option Bytes → Bytes → Type 0
HoldsTrimmed none array = Unit
HoldsTrimmed (some v) array = cstr array ≡ trim v

-- Trimming an array that holds a member's value, and the test of its first byte.
pub record Trimmed (v : Bytes) (array : Bytes) (size : ℕ) : Type 0 where
  pub out : Bytes
  pub trims : salt_cli_trim_whitespace_inplace array size ≡ some out
  pub holds : cstr out ≡ trim v
  pub tests : first_is_nul out ≡ some (is_empty (trim v))

first_is_nul-append : (s t : Bytes) → IsCstr s → first_is_nul (s ++ 0 ∷ t) ≡ some (is_empty s)
first_is_nul-append [] t h = refl
first_is_nul-append (c ∷ cs) t h = ground arith

pub trimmed :
    (v array : Bytes) (size : ℕ)
    → IsCstr v
    → length v < size
    → ((back : Bytes) × (array ≡ v ++ 0 ∷ back))
    → Trimmed v array size
trimmed v array size c fits (back, e) =
    let (j, runs, same) = salt_cli_trim_whitespace_inplace-trim v back size c fits in
    record {
      out = trim v ++ 0 ∷ (j ++ back);
      trims = rw e runs;
      holds = cstr-append (trim v) (j ++ back) (IsCstr-trim v c);
      tests = first_is_nul-append (trim v) (j ++ back) (IsCstr-trim v c);
    }

-- A successful end: the key is there and not blank, and the outputs hold the trimmed values.
pub record Finished (all : Seen) (r : Run) : Type 0 where
  pub key : Bytes
  pub after : Parser
  pub has_key : all.key ≡ some key
  pub not_blank : is_empty (trim key) ≡ false
  pub key_holds : cstr after.fields.key_b64 ≡ trim key
  pub key_id_holds : HoldsTrimmed all.key_id after.fields.key_id
  pub key_id_known : after.has_key_id ≡ has_value all.key_id
  pub returns : r ≡ some (salt_ok, after)

-- The key id behind the key.
record FinishedId (key_id : Option Bytes) (p : Parser) : Type 0 where
  after : Parser
  same_key : after.fields.key_b64 ≡ p.fields.key_b64
  key_id_holds : HoldsTrimmed key_id after.fields.key_id
  key_id_known : after.has_key_id ≡ has_value key_id
  returns : json_finish_key_id p ≡ some (salt_ok, after)

finished_id :
    (b : Bool) (key_id : Option Bytes) (p : Parser)
    → p.fields.key_id_set ≡ b
    → p.has_key_id ≡ false
    → Stored b key_id p.fields.key_id p.fields.key_id_size
    → FinishedId key_id p
finished_id false none p e has s = record {
  after = p;
  same_key = refl;
  key_id_holds = tt;
  key_id_known = has;
  returns = at_false (λ r. r ≡ some (salt_ok, p)) _ _ _ e refl;
}
finished_id false (some v) p e has s = absurd s
finished_id true none p e has s = absurd s
finished_id true (some v) p e has s =
    let t = trimmed v p.fields.key_id p.fields.key_id_size s.0 s.1 s.2 in
    let after : Parser = record p {
      fields = record p.fields { key_id = t.out };
      has_key_id = if is_empty (trim v) then p.has_key_id else true;
    } in
    record {
      after = after;
      same_key = refl;
      key_id_holds = t.holds;
      key_id_known = ground arith;
      returns = at_true (λ r. r ≡ some (salt_ok, after)) _ _ _ e (rw (t.trims, ◌>>=◌) (rw t.tests));
    }

module _ (all : Seen) where
  Ends : Run → Type 0
  Ends r = Refused r ⊎ Finished all r

  -- The key array once it is trimmed.
  finished_key :
      (v : Bytes) (p : Parser)
      → all.key ≡ some v
      → cstr p.fields.key_b64 ≡ trim v
      → FinishedId all.key_id p
      → Ends (if is_empty (trim v) then fail empty_key_field p else json_finish_key_id p)
  unfolding Ends
  finished_key v p key holds f = elim (Bool-cases (is_empty (trim v))) [
    | inl blank ↦
        at_true Ends _ _ _ blank
          (inl (record p { error = set_error (message_text empty_key_field) p.error }, refl))
    | inr filled ↦ at_false Ends _ _ _ filled (
        inr (record {
          key = v;
          after = f.after;
          has_key = key;
          not_blank = filled;
          key_holds = rw f.same_key holds;
          key_id_holds = f.key_id_holds;
          key_id_known = f.key_id_known;
          returns = f.returns;
        }))
  ]

  finished_fields :
      (b : Bool) (key : Option Bytes) (p : Parser)
      → p.fields.key_set ≡ b
      → all.key ≡ key
      → p.has_key_id ≡ false
      → Stored b key p.fields.key_b64 p.fields.key_b64_size
      → Stored p.fields.key_id_set all.key_id p.fields.key_id p.fields.key_id_size
      → Ends (json_finish_key_fields p)
  unfolding Ends json_finish_key_fields
  finished_fields false none p e k has s i =
      at_false Ends _ _ _ e
        (inl (record p { error = set_error (message_text missing_key) p.error }, refl))
  finished_fields false (some v) p e k has s i = absurd s
  finished_fields true none p e k has s i = absurd s
  finished_fields true (some v) p e k has s i =
      let t = trimmed v p.fields.key_b64 p.fields.key_b64_size s.0 s.1 s.2 in
      let p' : Parser = record p { fields = record p.fields { key_b64 = t.out } } in
      at_true Ends _ _ _ e (
        rw (t.trims, ◌>>=◌)
          (rw (t.tests, ◌>>=◌)
            (finished_key v p' k t.holds
              (finished_id p.fields.key_id_set all.key_id p' refl has i))))

-- The end of a parse whose fields hold the members that were read, on every branch.
pub json_finish_key_fields-Outcome :
    (ks is : ℕ) (all : Seen) (p : Parser)
    → Holds ks is all p
    → Refused (json_finish_key_fields p) ⊎ Finished all (json_finish_key_fields p)
unfolding Ends
json_finish_key_fields-Outcome ks is all p h =
    finished_fields all p.fields.key_set all.key p refl refl h.no_key_id
      (rw h.key_size h.key_stored) (rw h.key_id_size h.key_id_stored)
