-- ===== src/Seal/Key/Outcome.antt =====
-- src/salt.c, `decode_public_key`: what it accepts.
use salt.Base.{
  suc, ap, append-nil, ◌++◌, drop, ℕ, ◌≤◌, ◌<◌, ◌≡◌, refl, ◌∙◌, arith, ◌⊎◌, inl, inr, true, false,
  ◌||◌, Option, none, some, [], ◌∷◌, ◌==◌, ltb, Bool-cases, at_true, at_false, Bytes, length, take,
  window_total, length-wiped, length-take, ◌>>=◌,
}
use salt.Seal.Key.{
  ends_at, variants, max_public_key_b64_len, is_key, try_variants, decode_public_key,
}
use salt.Seal.Sodium.{Variant, Decoding, original, original_no_padding, Sodium, Documented}
use salt.Status.{Status, salt_ok, salt_err_input}

drop-length : (xs ys : Bytes) → length xs ≡ length ys → drop (length xs) ys ≡ []
drop-length [] [] e = refl
drop-length [] (y ∷ ys) e = absurd (omega arith)
drop-length (x ∷ xs) [] e = absurd (omega arith)
drop-length (x ∷ xs) (y ∷ ys) e = drop-length xs ys (omega arith)

pub length-overwrite :
    (xs ys : Bytes) → length xs ≤ length ys → length (xs ++ drop (length xs) ys) ≡ length ys
length-overwrite [] ys h = refl
length-overwrite (x ∷ xs) [] h = absurd (omega arith)
length-overwrite (x ∷ xs) (y ∷ ys) h = ap suc (length-overwrite xs ys (omega arith))

module _ (sodium : Sodium) where
  -- A decoder takes all of a text and finds a key in it.
  pub record Takes (v : Variant) (text key : Bytes) : Type 0 where
    pub returns_zero : (sodium.base642bin sodium.public_key_bytes text v).returned_zero ≡ true
    pub key_bytes :
        (sodium.base642bin sodium.public_key_bytes text v).bin_len ≡ sodium.public_key_bytes
    pub whole_text : (sodium.base642bin sodium.public_key_bytes text v).end ≡ some (length text)
    pub stores : (sodium.base642bin sodium.public_key_bytes text v).stored ≡ key

  -- A text stands for the key that the decoder of padded base64 finds, and where that finds none for
  -- the key that the decoder of unpadded base64 finds.
  pub data IsKey (text key : Bytes) : Type 0 where
    padded : Takes original text key → IsKey text key
    unpadded :
        ((other : Bytes) → ¬ Takes original text other)
        → Takes original_no_padding text key
        → IsKey text key

  -- Neither decoder finds one.
  abbrev pub NoKey : Bytes → Type 0
  NoKey text =
      ((key : Bytes) → ¬ Takes original text key)
      × ((key : Bytes) → ¬ Takes original_no_padding text key)

  pub IsKey-NoKey : (text key : Bytes) → IsKey text key → ¬ NoKey text
  IsKey-NoKey text key (padded t) n = n.0 key t
  IsKey-NoKey text key (unpadded other t) n = n.1 key t

  abbrev pub InRange : ℕ → Type 0
  InRange len = (0 < len) × (len ≤ max_public_key_b64_len sodium)

  -- A text of a length in the range of base64 keys is accepted exactly where it stands for a key, which
  -- is then in the array; an array for a key that is refused keeps its length.
  pub data KeyOutcome (text key : Bytes) : Status × Bytes → Type 0 where
    accepted :
        {out : Bytes}
        → InRange (length text)
        → IsKey text out
        → length out ≡ length key
        → KeyOutcome text key (salt_ok, out)
    refused_length :
        max_public_key_b64_len sodium < length text ⊎ (length text ≡ 0)
        → KeyOutcome text key (salt_err_input, key)
    refused_text :
        {out : Bytes}
        → InRange (length text)
        → NoKey text
        → length out ≡ length key
        → KeyOutcome text key (salt_err_input, out)

  module _ (d : Documented sodium) (text key : Bytes) (range : InRange (length text))
      (size : length key ≡ sodium.public_key_bytes) where
    abbrev decoded : Variant → Decoding
    decoded v = sodium.base642bin sodium.public_key_bytes text v

    -- The test of the code, on both of its sides.
    is_key_sound :
        (v : Variant)
        → is_key sodium (length text) (decoded v) ≡ true
        → Takes v text (decoded v).stored
    is_key_sound v h = record {
      returns_zero = ground arith;
      key_bytes = ground arith;
      whole_text = at_end (decoded v).end (ground arith);
      stores = refl;
    }
      where
        at_end : (e : Option ℕ) → ends_at e (length text) ≡ true → e ≡ some (length text)
        at_end none h = absurd (cc h)
        at_end (some n) h = let f : n ≡ length text = ground arith in ap some f

    is_key_complete :
        (v : Variant) (other : Bytes)
        → Takes v text other
        → is_key sodium (length text) (decoded v) ≡ true
    is_key_complete v other t = rw (t.returns_zero, t.key_bytes, t.whole_text) (ground arith)

    is_key-Takes :
        (v : Variant)
        → is_key sodium (length text) (decoded v) ≡ false
        → (other : Bytes) → ¬ Takes v text other
    is_key-Takes v lacks other t = cc (lacks, is_key_complete v other t)

    key_size_stored :
        (v : Variant) (before : Bytes)
        → length before ≡ length key
        → is_key sodium (length text) (decoded v) ≡ true
        → length (decoded v).stored ≡ length before
    key_size_stored v before l h =
        let e = d.bin_len_stored sodium.public_key_bytes text v (is_key_sound v h).returns_zero in
        omega (arith, e, (is_key_sound v h).key_bytes, l, size)

    -- What is left of the array behind one decoder.
    abbrev stored_over : Variant → Bytes → Bytes
    stored_over v before = (decoded v).stored ++ drop (length (decoded v).stored) before

    stored_whole :
        (v : Variant) (before : Bytes)
        → length before ≡ length key
        → is_key sodium (length text) (decoded v) ≡ true
        → stored_over v before ≡ (decoded v).stored
    stored_whole v before l h =
        rw (drop-length (decoded v).stored before (key_size_stored v before l h)) (append-nil _)

    stored_length :
        (v : Variant) (before : Bytes)
        → length before ≡ length key
        → length (stored_over v before) ≡ length key
    stored_length v before l =
        length-overwrite (decoded v).stored before
          (omega (arith, d.stored_fits sodium.public_key_bytes text v, l, size))
        ∙ l

    try_variants-Outcome : KeyOutcome text key (try_variants sodium variants text (length text) key)
    unfolding try_variants
    try_variants-Outcome =
        let over = stored_over original key in
        let l = stored_length original key refl in
        elim (Bool-cases (is_key sodium (length text) (decoded original))) [
          | inl found ↦ at_true (KeyOutcome text key) _ _ _ found (
              rw (stored_whole original key refl found) (
                accepted range (padded (is_key_sound original found))
                  (key_size_stored original key refl found)))
          | inr lacks ↦
              at_false (KeyOutcome text key) _ _ _ lacks
                (elim (Bool-cases (is_key sodium (length text) (decoded original_no_padding))) [
                  | inl found ↦ at_true (KeyOutcome text key) _ _ _ found (
                      rw (stored_whole original_no_padding over l found) (
                        accepted range
                          (unpadded (is_key-Takes original lacks)
                            (is_key_sound original_no_padding found))
                          (key_size_stored original_no_padding over l found ∙ l)))
                  | inr neither ↦ at_false (KeyOutcome text key) _ _ _ neither (
                      refused_text range
                        (is_key-Takes original lacks, is_key-Takes original_no_padding neither)
                        (rw (d.memzero_wipes (stored_over original_no_padding over)) (
                          length-wiped (length (stored_over original_no_padding over))
                          ∙ stored_length original_no_padding over l)))
                ])
        ]

  -- With a library that keeps its documentation, a text of the length at hand, and an array of the
  -- size of a key, decoding returns. A text of a length from 1 to that of a padded key is accepted
  -- exactly where the decoder of padded base64, or where that does not, the decoder of unpadded
  -- base64 succeeds on it, ends at the end of the text and finds a key's number of bytes, which are
  -- then what the array holds; any other length is refused with the array as before; the array
  -- keeps its length.
  pub decode_public_key-Outcome :
      Documented sodium
      → (b64 key : Bytes) (len : ℕ) → len ≤ length b64
      → length key ≡ sodium.public_key_bytes
      → (r : Status × Bytes) × (decode_public_key sodium (some b64) len key ≡ some r)
        × (KeyOutcome (take len b64) key r)
  unfolding decode_public_key
  decode_public_key-Outcome d b64 key len room size =
      let l = length-take len b64 room in
      let text = take len b64 in
      elim (Bool-cases (len == 0 || ltb (max_public_key_b64_len sodium) len)) [
        | inl bad ↦ (
          (salt_err_input, key),
          at_true (λ x. x ≡ some (salt_err_input, key)) _ _ _ bad refl,
          refused_length (rw l (ground arith)),
        )
        | inr good ↦
            let r = try_variants sodium variants text len key in
            (
              r,
              at_false (λ x. x ≡ some r) _ _ _ good (rw (window_total len b64 room, ◌>>=◌) refl),
              rw l at (try_variants-Outcome d text key (rw l (ground arith, ground arith)) size),
            )
      ]
