-- ===== src/Parse/Token/Complete.antt =====
-- src/cli/parse.c, `json_parse_string_token` on the tokens of the grammar.
use salt.Base.{
  ℕ, ◌+◌, ◌≤◌, ◌<◌, ◌≡◌, ◌≢◌, ◌⊎◌, inl, inr, ◌∙◌, some, [], ◌∷◌, ◌++◌, append_assoc, arith, Bytes,
  length, length-append, store, store-append,
}
use salt.Parse.Token.{escape_lookup, accept, scan, json_parse_string_token}
use salt.Parse.Token.Grammar.{
  Escapes, newline, carriage_return, tab, itself, Body, nil, plain, escape,
}

escape_lookup_complete : {e v : ℕ} → Escapes e v → escape_lookup e ≡ some v
unfolding escape_lookup
escape_lookup_complete (newline p q) = ground arith
escape_lookup_complete (carriage_return p q) = ground arith
escape_lookup_complete (tab p q) = ground arith
escape_lookup_complete (itself p q) = ground arith

pub escape_lookup_sound : (e v : ℕ) → escape_lookup e ≡ some v → Escapes e v
unfolding escape_lookup
escape_lookup_sound e v h = elim (escape_cases e v h) [
  | inl (p, q) ↦ newline p q
  | inr (inl (p, q)) ↦ carriage_return p q
  | inr (inr (inl (p, q))) ↦ tab p q
  | inr (inr (inr (p, q))) ↦ itself p q
]
  where
    escape_cases :
        (e v : ℕ)
        → escape_lookup e ≡ some v
        → ((e ≡ b'n') × (v ≡ 10))
          ⊎ (((e ≡ b'r') × (v ≡ 13))
              ⊎ (((e ≡ b't') × (v ≡ 9)) ⊎ (((e ≡ 34) ⊎ ((e ≡ 92) ⊎ (e ≡ b'/'))) × (v ≡ e))))
    escape_cases e v h = ground arith

module _ (n : ℕ) where
  pub scan-plain :
      (c : ℕ) (cs : Bytes) (i : ℕ) (out out' : Bytes)
      → 0x20 ≤ c
      → c ≢ 34
      → c ≢ 92
      → i + 1 < n
      → store out i c ≡ some out'
      → scan n (c ∷ cs) i out ≡ scan n cs (i + 1) out'
  unfolding scan
  scan-plain c [] i out out' ge nq nb lt e = ground arith
  scan-plain c (d ∷ cs) i out out' ge nq nb lt e = ground arith

  pub scan-escape :
      (e v : ℕ) (cs : Bytes) (i : ℕ) (out out' : Bytes)
      → escape_lookup e ≡ some v
      → i + 1 < n
      → store out i v ≡ some out'
      → scan n (92 ∷ e ∷ cs) i out ≡ scan n cs (i + 1) out'
  unfolding scan
  scan-escape e v cs i out out' l lt h = ground arith

  pub scan-close :
      (cs : Bytes) (i : ℕ) (out out' : Bytes)
      → i < n
      → store out i 0 ≡ some out'
      → scan n (34 ∷ cs) i out ≡ accept cs out'
  unfolding scan
  scan-close [] i out out' lt h = ground arith
  scan-close (c ∷ cs) i out out' lt h = ground arith

  -- The hypothesis of the induction, with the byte just written moved back behind the prefix.
  scan-next :
      (cs done gs value t : Bytes) (c x : ℕ) (rest : Bytes)
      → scan n cs (length (done ++ c ∷ [])) ((done ++ c ∷ []) ++ (gs ++ x ∷ t))
        ≡ accept rest ((done ++ c ∷ []) ++ (value ++ 0 ∷ t))
      → scan n cs (length done + 1) (done ++ c ∷ (gs ++ x ∷ t))
        ≡ accept rest (done ++ c ∷ (value ++ 0 ∷ t))
  scan-next cs done gs value t c x rest h =
      rw
        (
          length-append done (c ∷ []),
          append_assoc done (c ∷ []) (gs ++ x ∷ t),
          append_assoc done (c ∷ []) (value ++ 0 ∷ t),
        )
        at h

  -- A token in the grammar is accepted where its value and the NUL fit.
  pub scan-Body :
      {text value : Bytes} (done gap : Bytes) (x : ℕ) (rest t : Bytes)
      → Body text value
      → length gap ≡ length value
      → length done + length value < n
      → scan n (text ++ 34 ∷ rest) (length done) (done ++ (gap ++ x ∷ t))
        ≡ accept rest (done ++ (value ++ 0 ∷ t))
  scan-Body done [] x rest t nil h lt =
      scan-close rest (length done) (done ++ x ∷ t) _ (omega arith) (store-append done x t 0)
  scan-Body done (g ∷ gs) x rest t nil h lt = absurd (omega arith)
  scan-Body done [] x rest t (plain ge nq nb b) h lt = absurd (omega arith)
  scan-Body done (g ∷ gs) x rest t (plain {c} {text} ge nq nb b) h lt =
      scan-plain c (text ++ 34 ∷ rest) (length done) (done ++ g ∷ (gs ++ x ∷ t)) _ ge nq nb
        (omega arith) (store-append done g (gs ++ x ∷ t) c)
      ∙ scan-next _ done gs _ t c x rest (
          scan-Body (done ++ c ∷ []) gs x rest t b (omega arith)
            (omega (arith, length-append done (c ∷ []))))
  scan-Body done [] x rest t (escape p e b) h lt = absurd (omega arith)
  scan-Body done (g ∷ gs) x rest t (escape {e} {v} {text} p k b) h lt = rw p (
      scan-escape e v (text ++ 34 ∷ rest) (length done) (done ++ g ∷ (gs ++ x ∷ t)) _
        (escape_lookup_complete k) (omega arith) (store-append done g (gs ++ x ∷ t) v)
      ∙ scan-next _ done gs _ t v x rest (
          scan-Body (done ++ v ∷ []) gs x rest t b (omega arith)
            (omega (arith, length-append done (v ∷ [])))))

-- A cursor at a token of the grammar is accepted whenever the token's value and a NUL fit the size
-- that the caller gives: the cursor moves behind the closing quote, the array starts with the value
-- and its NUL, and its bytes behind those are unchanged.
pub json_parse_string_token-Body :
    (n : ℕ) {text value : Bytes} (gap : Bytes) (x : ℕ) (rest t : Bytes)
    → Body text value
    → length gap ≡ length value
    → length value < n
    → json_parse_string_token n (34 ∷ (text ++ 34 ∷ rest)) (gap ++ x ∷ t)
      ≡ accept rest (value ++ 0 ∷ t)
unfolding json_parse_string_token
json_parse_string_token-Body n gap x rest t b h lt =
    ground (arith, scan-Body n [] gap x rest t b h (omega arith))
