-- ===== src/Output/Utf8/Valid.antt =====
-- src/cli/output.c, `is_valid_utf8` against the encodings of scalar values.
use salt.Base.{
  ℕ, zero, suc, ◌+◌, ◌/◌, ◌≤◌, ◌<◌, ◌≡◌, ◌↔◌, inl, inr, refl, sym, ap, ◌∙◌, true, false, Option,
  none, some, [], ◌∷◌, ◌++◌, arith, Bytes, length, length-append, drop, lt_or_le,
}
use salt.Output.Utf8.{
  two_bytes, three_bytes, four_bytes, is_valid_utf8_sequence, utf8_loop, is_valid_utf8,
}
use salt.Output.Utf8.Encoding.{IsScalar, trail, encode, Utf8, nil, cons}
use salt.Output.Utf8.Sequence.{is_valid_utf8_sequence_sound}

-- The validator reads the encoding of one scalar value.
abbrev Reads : ℕ → Bytes → Type 0
Reads c rest =
    (is_valid_utf8_sequence (encode c ++ rest) ≡ some (length (encode c)))
    × (drop (length (encode c)) (encode c ++ rest) ≡ rest)
    × (0 < length (encode c))

encode-one : (c : ℕ) → c < 0x80 → encode c ≡ c ∷ []
unfolding encode
encode-one c h = ground arith

encode-two : (c : ℕ) → 0x80 ≤ c → c < 0x800 → encode c ≡ (0xC0 + c / 64) ∷ trail c ∷ []
unfolding encode
encode-two c h k = ground arith

encode-three :
    (c : ℕ) → 0x800 ≤ c → c < 0x10000 → encode c ≡ (0xE0 + c / 4096) ∷ trail (c / 64) ∷ trail c ∷ []
unfolding encode
encode-three c h k = ground arith

encode-four :
    (c : ℕ)
    → 0x10000 ≤ c
    → encode c ≡ (0xF0 + c / 262144) ∷ trail (c / 4096) ∷ trail (c / 64) ∷ trail c ∷ []
unfolding encode
encode-four c h = ground arith

reads_two :
    (c : ℕ) (rest : Bytes)
    → 0x80 ≤ c
    → c < 0x800
    → is_valid_utf8_sequence ((0xC0 + c / 64) ∷ trail c ∷ rest) ≡ some 2
unfolding is_valid_utf8_sequence two_bytes
reads_two c rest h k = ground arith

reads_three :
    (c : ℕ) (rest : Bytes)
    → 0x800 ≤ c
    → c < 0x10000
    → IsScalar c
    → is_valid_utf8_sequence ((0xE0 + c / 4096) ∷ trail (c / 64) ∷ trail c ∷ rest) ≡ some 3
unfolding is_valid_utf8_sequence three_bytes
reads_three c rest h k s = ground arith

reads_four :
    (c : ℕ) (rest : Bytes)
    → 0x10000 ≤ c
    → c ≤ 0x10FFFF
    → is_valid_utf8_sequence
        ((0xF0 + c / 262144) ∷ trail (c / 4096) ∷ trail (c / 64) ∷ trail c ∷ rest)
      ≡ some 4
unfolding is_valid_utf8_sequence four_bytes
reads_four c rest h k = ground arith

is_valid_utf8_sequence_complete : (c : ℕ) (rest : Bytes) → IsScalar c → Reads c rest
unfolding is_valid_utf8_sequence
is_valid_utf8_sequence_complete c rest s = elim (lt_or_le c 0x80) [
  | inl a ↦ rw (encode-one c a) (ground arith, refl, omega arith)
  | inr a ↦ elim (lt_or_le c 0x800) [
    | inl b ↦ rw (encode-two c a b) (reads_two c rest a b, refl, omega arith)
    | inr b ↦ elim (lt_or_le c 0x10000) [
      | inl d ↦ rw (encode-three c b d) (reads_three c rest b d s, refl, omega arith)
      | inr d ↦ rw (encode-four c d) (reads_four c rest d (omega arith), refl, omega arith)
    ]
  ]
]

-- One round, at a sequence that is accepted or refused.
utf8_loop-some :
    (fuel : ℕ) (s : Bytes) (n : ℕ)
    → is_valid_utf8_sequence s ≡ some n
    → utf8_loop (suc fuel) s ≡ utf8_loop fuel (drop n s)
unfolding utf8_loop
utf8_loop-some fuel [] n h = unfold is_valid_utf8_sequence in cc
utf8_loop-some fuel (b ∷ s) n h = rw (h, utf8_loop)

utf8_loop-none :
    (fuel b : ℕ) (s : Bytes)
    → is_valid_utf8_sequence (b ∷ s) ≡ none
    → utf8_loop (suc fuel) (b ∷ s) ≡ false
unfolding utf8_loop
utf8_loop-none fuel b s h = rw (h, utf8_loop)

sound_round :
    (fuel b : ℕ) (s : Bytes) (r : Option ℕ)
    → is_valid_utf8_sequence (b ∷ s) ≡ r
    → utf8_loop (suc fuel) (b ∷ s) ≡ true
    → ((rest : Bytes) → utf8_loop fuel rest ≡ true → Utf8 rest)
    → Utf8 (b ∷ s)
sound_round fuel b s none e h later = absurd (cc (h, utf8_loop-none fuel b s e))
sound_round fuel b s (some n) e h later =
    let q = is_valid_utf8_sequence_sound (b ∷ s) n e in
    let read : utf8_loop fuel q.rest ≡ true =
      rw (← q.skips) (sym (utf8_loop-some fuel (b ∷ s) n e) ∙ h) in
    cons q.scalar q.is_scalar q.splits (later q.rest read)

utf8_loop_sound : (fuel : ℕ) (s : Bytes) → utf8_loop fuel s ≡ true → Utf8 s
utf8_loop_sound zero [] h = nil
utf8_loop_sound (suc fuel) [] h = nil
utf8_loop_sound zero (b ∷ s) h = unfold utf8_loop in cc
utf8_loop_sound (suc fuel) (b ∷ s) h =
    sound_round fuel b s (is_valid_utf8_sequence (b ∷ s)) refl h (utf8_loop_sound fuel)

utf8_loop_complete : (fuel : ℕ) {s : Bytes} → Utf8 s → length s ≤ fuel → utf8_loop fuel s ≡ true
utf8_loop_complete zero nil h = unfold utf8_loop in refl
utf8_loop_complete (suc fuel) nil h = unfold utf8_loop in refl
utf8_loop_complete zero (cons {s} {rest} c i e t) h =
    let (read, skip, pos) = is_valid_utf8_sequence_complete c rest i in
    absurd (omega (arith, ap (λ (x : Bytes). length x) e, length-append (encode c) rest))
utf8_loop_complete (suc fuel) (cons {s} {rest} c i e t) h =
    let (read, skip, pos) = is_valid_utf8_sequence_complete c rest i in
    let shorter : length rest ≤ fuel =
      omega (arith, ap (λ (x : Bytes). length x) e, length-append (encode c) rest) in
    rw e (
      utf8_loop-some fuel (encode c ++ rest) (length (encode c)) read
      ∙ rw skip (utf8_loop_complete fuel t shorter))

-- The validator accepts exactly the strings that are encodings of Unicode scalar values, one behind
-- the other: no overlong form, no surrogate, no code point past U+10FFFF, no truncated sequence.
pub is_valid_utf8_iff : (s : Bytes) → (is_valid_utf8 s ≡ true) ↔ Utf8 s
unfolding is_valid_utf8
is_valid_utf8_iff s =
    (utf8_loop_sound (length s) s, λ u. utf8_loop_complete (length s) u (omega arith))
