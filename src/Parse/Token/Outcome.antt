-- ===== src/Parse/Token/Outcome.antt =====
-- src/cli/parse.c, `json_parse_string_token`: all that a call can do.
use salt.Base.{
  ℕ, ◌≤◌, ◌<◌, ◌≡◌, ◌⊎◌, inl, inr, refl, ap, Option, ◌∷◌, ◌++◌, arith, Bytes, length, length-append,
  IsCstr, split_at,
}
use salt.Parse.Token.{Token, reject, accept, json_parse_string_token}
use salt.Parse.Token.Complete.{json_parse_string_token-Body}
use salt.Parse.Token.Grammar.{
  Escapes, newline, carriage_return, tab, itself, Body, nil, plain, escape,
}
use salt.Parse.Token.Verdict.{json_parse_string_token-Verdict}

Escapes-pos : {e v : ℕ} → Escapes e v → 0 < v
Escapes-pos (newline p q) = omega arith
Escapes-pos (carriage_return p q) = omega arith
Escapes-pos (tab p q) = omega arith
Escapes-pos (itself p q) = omega arith

-- No value of a token holds a NUL, so the array's C string is the value.
pub Body-IsCstr : {text value : Bytes} → Body text value → IsCstr value
Body-IsCstr nil = tt
Body-IsCstr (plain ge nq nb b) = (omega arith, Body-IsCstr b)
Body-IsCstr (escape p e b) = (Escapes-pos e, Body-IsCstr b)

-- A call that accepted: the token in front of the cursor, and what was written.
pub record Accepted (n : ℕ) (cs out : Bytes) (r : Option Token) : Type 0 where
  pub text : Bytes
  pub value : Bytes
  pub rest : Bytes
  pub back : Bytes
  pub body : Body text value
  pub splits : cs ≡ 34 ∷ (text ++ 34 ∷ rest)
  pub fits : length value < n
  pub same_length : length (value ++ 0 ∷ back) ≡ length out
  pub returns : r ≡ accept rest (value ++ 0 ∷ back)

abbrev pub Rejected : Option Token → Type 0
Rejected r = (cursor : Bytes) × (left : Bytes) × (r ≡ reject cursor left)

written :
    (n : ℕ) (text value rest out : Bytes)
    → Body text value
    → length value < n
    → n ≤ length out
    → Accepted n
        (34 ∷ (text ++ 34 ∷ rest))
        out
        (json_parse_string_token n (34 ∷ (text ++ 34 ∷ rest)) out)
written n text value rest out b lt fits =
    let (gap, x, back, e, l) = split_at (length value) out (omega arith) in
    record {
      text = text;
      value = value;
      rest = rest;
      back = back;
      body = b;
      splits = refl;
      fits = lt;
      same_length = omega (
        arith,
        ap (λ (t : Bytes). length t) e,
        length-append gap (x ∷ back),
        length-append value (0 ∷ back),
      );
      returns = rw e (json_parse_string_token-Body n gap x rest back b l lt);
    }

-- On an array of at least the size that the caller gives, a call faults nowhere and ends in one of
-- two ways: it refuses, or a token of the grammar stands at the cursor, its value fits the size with
-- its NUL, and the call leaves the cursor behind the token and the value with its NUL at the front of
-- the array, whose length is as before.
pub json_parse_string_token-Outcome :
    (n : ℕ) (cs out : Bytes)
    → n ≤ length out
    → Rejected (json_parse_string_token n cs out)
      ⊎ Accepted n cs out (json_parse_string_token n cs out)
json_parse_string_token-Outcome n cs out fits =
    elim (json_parse_string_token-Verdict n cs out fits) [
      | inl refused ↦ inl refused
      | inr (text, value, rest, left, b, s, lt, e) ↦
          inr (rw s (written n text value rest out b lt fits))
    ]
