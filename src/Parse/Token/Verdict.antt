-- ===== src/Parse/Token/Verdict.antt =====
-- src/cli/parse.c, `json_parse_string_token` on any array of at least the size that is given.
use salt.Base.{
  ℕ, ◌+◌, ◌≤◌, ◌<◌, ◌≡◌, ◌≢◌, ◌⊎◌, inl, inr, refl, ap, Option, none, some, [], ◌∷◌, ◌++◌, arith,
  ◌==◌, ltb, leb, Bool-cases, Bytes, length, store_total,
}
use salt.Parse.Token.{
  escape_lookup, Token, reject, accept, put, escaped, close, round, scan, json_parse_string_token,
}
use salt.Parse.Token.Complete.{escape_lookup_sound}
use salt.Parse.Token.Grammar.{Escapes, Body, nil, plain, escape}

-- What a run of the scanner from index `i` on an array that is said to have `n` bytes can be.
pub data Verdict (n : ℕ) (cs : Bytes) (i : ℕ) (r : Option Token) : Type 0 where
  rejects : (cursor out : Bytes) → r ≡ reject cursor out → Verdict n cs i r
  accepts :
      (text value rest out : Bytes)
      → Body text value
      → cs ≡ text ++ 34 ∷ rest
      → i + length value < n
      → r ≡ accept rest out
      → Verdict n cs i r

module _ (n : ℕ) where
  Verdict-plain :
      (c : ℕ) (cs : Bytes) (i : ℕ) (r : Option Token)
      → 0x20 ≤ c
      → c ≢ 34
      → c ≢ 92
      → Verdict n cs (i + 1) r
      → Verdict n (c ∷ cs) i r
  Verdict-plain c cs i r ge nq nb (rejects cursor out e) = rejects cursor out e
  Verdict-plain c cs i r ge nq nb (accepts text value rest out b s l e) =
      accepts (c ∷ text) (c ∷ value) rest out (plain ge nq nb b) (ap (λ t. c ∷ t) s) (omega arith) e

  Verdict-escape :
      (e v : ℕ) (cs : Bytes) (i : ℕ) (r : Option Token)
      → Escapes e v
      → Verdict n cs (i + 1) r
      → Verdict n (92 ∷ e ∷ cs) i r
  Verdict-escape x v cs i r k (rejects cursor out e) = rejects cursor out e
  Verdict-escape x v cs i r k (accepts text value rest out b s l e) =
      accepts (92 ∷ x ∷ text) (v ∷ value) rest out (escape refl k b) (ap (λ t. 92 ∷ x ∷ t) s)
        (omega arith) e

  put-Verdict :
      (c : ℕ) (cs : Bytes) (i : ℕ) (out : Bytes) (v : ℕ) (next : ℕ → Bytes → Option Token)
      (at_full : Bytes)
      → n ≤ length out
      → ((r : Option Token) → Verdict n cs (i + 1) r → Verdict n (c ∷ cs) i r)
      → ((out' : Bytes) → length out' ≡ length out → Verdict n cs (i + 1) (next (i + 1) out'))
      → Verdict n (c ∷ cs) i (put n at_full i out v next)
  put-Verdict c cs i out v next at_full fits lift later = elim (Bool-cases (leb n (i + 1))) [
    | inl full ↦ rw full (rejects at_full out refl)
    | inr room ↦
        let (out', stored, same) = store_total out i v (ground arith) in
        rw (room, stored) (lift _ (later out' same))
  ]

  close-Verdict :
      (cs : Bytes) (i : ℕ) (out : Bytes) → n ≤ length out → Verdict n (34 ∷ cs) i (close n cs i out)
  close-Verdict cs i out fits = elim (Bool-cases (leb n i)) [
    | inl full ↦ rw full (rejects _ out refl)
    | inr room ↦
        let (out', stored, same) = store_total out i 0 (ground arith) in
        rw (room, stored) (accepts [] [] cs out' nil refl (ground arith) refl)
  ]

  Escaped-Verdict :
      (e : ℕ) (cs : Bytes) (i : ℕ) (out : Bytes) (next : ℕ → Bytes → Option Token)
      → n ≤ length out
      → ((out' : Bytes) → length out' ≡ length out → Verdict n cs (i + 1) (next (i + 1) out'))
      → (found : Option ℕ) → escape_lookup e ≡ found
      → Verdict n (92 ∷ e ∷ cs) i (escaped n e cs i out next)
  Escaped-Verdict e cs i out next fits later none h = elim (Bool-cases (leb n (i + 1))) [
    | inl full ↦ rw full (rejects (e ∷ cs) out refl)
    | inr room ↦ rw (room, h) (rejects (e ∷ cs) out refl)
  ]
  Escaped-Verdict e cs i out next fits later (some v) h = elim (Bool-cases (leb n (i + 1))) [
    | inl full ↦ rw full (rejects (e ∷ cs) out refl)
    | inr room ↦
        let (out', stored, same) = store_total out i v (ground arith) in
        rw (room, h, stored)
          (Verdict-escape e v cs i (next (i + 1) out') (escape_lookup_sound e v h)
            (later out' same))
  ]

  round-Verdict :
      (c : ℕ) (cs : Bytes) (i : ℕ) (out : Bytes) (esc : Option Token)
      (next : ℕ → Bytes → Option Token)
      → n ≤ length out
      → (c ≡ 92 → Verdict n (c ∷ cs) i esc)
      → ((out' : Bytes) → length out' ≡ length out → Verdict n cs (i + 1) (next (i + 1) out'))
      → Verdict n (c ∷ cs) i (round n c cs i out esc next)
  round-Verdict c cs i out esc next fits on_escape later = elim (Bool-cases (c == 34)) [
    | inl quote ↦ let q : c ≡ 34 = ground arith in rw quote (rw q (close-Verdict cs i out fits))
    | inr no_quote ↦ rw no_quote (elim (Bool-cases (c == 92)) [
      | inl slash ↦ rw slash (on_escape (ground arith))
      | inr no_slash ↦ rw no_slash (elim (Bool-cases (ltb c 0x20)) [
        | inl control ↦ rw control (rejects (c ∷ cs) out refl)
        | inr printable ↦ rw printable (
            put-Verdict c cs i out c next (c ∷ cs) fits
              (λ r. Verdict-plain c cs i r (ground arith) (ground arith) (ground arith)) later)
      ])
    ])
  ]

  scan-Verdict :
      (cs : Bytes) (i : ℕ) (out : Bytes) → n ≤ length out → Verdict n cs i (scan n cs i out)
  unfolding scan
  scan-Verdict [] i out fits = rejects [] out refl
  scan-Verdict (c ∷ []) i out fits =
      round-Verdict c [] i out (reject [] out) (scan n []) fits (λ _. rejects [] out refl)
        (λ out' same. rejects [] out' refl)
  scan-Verdict (c ∷ e ∷ cs) i out fits =
      round-Verdict c (e ∷ cs) i out (escaped n e cs i out (scan n cs)) (scan n (e ∷ cs)) fits
        (λ slash. rw slash (
          Escaped-Verdict e cs i out (scan n cs) fits
            (λ out' same. scan-Verdict cs (i + 1) out' (rw same fits)) (escape_lookup e) refl))
        (λ out' same. scan-Verdict (e ∷ cs) (i + 1) out' (rw same fits))

-- On an array of at least the size that the caller gives, the parser of a token never reads or
-- writes outside of it, and either refuses or stands behind a token of the grammar whose value and
-- NUL fit the size.
pub json_parse_string_token-Verdict :
    (n : ℕ) (cs : Bytes) (out : Bytes)
    → n ≤ length out
    → ((cursor left : Bytes) × (json_parse_string_token n cs out ≡ reject cursor left))
      ⊎ ((text value rest left : Bytes) × Body text value
          × (cs ≡ 34 ∷ (text ++ 34 ∷ rest))
          × (length value < n)
          × (json_parse_string_token n cs out ≡ accept rest left))
unfolding json_parse_string_token
json_parse_string_token-Verdict n [] out fits = inl ([], out, refl)
json_parse_string_token-Verdict n (c ∷ cs) out fits = elim (Bool-cases (n == 0)) [
  | inl empty ↦ inl (c ∷ cs, out, rw empty)
  | inr size ↦ elim (Bool-cases (c == 34)) [
    | inr other ↦ inl (c ∷ cs, out, rw (size, other))
    | inl quote ↦ elim (scan-Verdict n cs 0 out fits) [
      | rejects cursor left e ↦ inl (cursor, left, rw (size, quote) e)
      | accepts text value rest left b s l e ↦
          inr (text, value, rest, left, b, ground arith, omega arith, rw (size, quote) e)
    ]
  ]
]
