-- ===== src/Output/Utf8/Sequence.antt =====
-- src/cli/output.c, `is_valid_utf8_sequence` against the encoding of one scalar value.
use salt.Base.{
  ℕ, ◌+◌, ◌-◌, ◌*◌, ◌≤◌, ◌<◌, ◌≡◌, ◌⊎◌, inl, inr, refl, some, [], ◌∷◌, ◌++◌, arith, Bytes, drop,
}
use salt.Output.Utf8.{two_bytes, three_bytes, four_bytes, is_valid_utf8_sequence}
use salt.Output.Utf8.Encoding.{IsScalar, encode}

encode_two :
    (b b2 : ℕ)
    → 0xC2 ≤ b
    → b ≤ 0xDF
    → 0x80 ≤ b2
    → b2 ≤ 0xBF
    → IsScalar ((b - 0xC0) * 64 + (b2 - 0x80))
      × (encode ((b - 0xC0) * 64 + (b2 - 0x80)) ≡ b ∷ b2 ∷ [])
unfolding encode
encode_two b b2 p q r s = (ground arith, ground arith)

encode_three :
    (b b2 b3 : ℕ)
    → 0xE0 ≤ b
    → b ≤ 0xEF
    → 0x80 ≤ b2
    → b2 ≤ 0xBF
    → 0x80 ≤ b3
    → b3 ≤ 0xBF
    → (b ≡ 0xE0 → 0xA0 ≤ b2)
    → (b ≡ 0xED → b2 ≤ 0x9F)
    → IsScalar ((b - 0xE0) * 4096 + (b2 - 0x80) * 64 + (b3 - 0x80))
      × (encode ((b - 0xE0) * 4096 + (b2 - 0x80) * 64 + (b3 - 0x80)) ≡ b ∷ b2 ∷ b3 ∷ [])
unfolding encode
encode_three b b2 b3 p q r s t u v w = (ground arith, ground arith)

encode_four :
    (b b2 b3 b4 : ℕ)
    → 0xF0 ≤ b
    → b ≤ 0xF4
    → 0x80 ≤ b2
    → b2 ≤ 0xBF
    → 0x80 ≤ b3
    → b3 ≤ 0xBF
    → 0x80 ≤ b4
    → b4 ≤ 0xBF
    → (b ≡ 0xF0 → 0x90 ≤ b2)
    → (b ≡ 0xF4 → b2 ≤ 0x8F)
    → let c = (b - 0xF0) * 262144 + (b2 - 0x80) * 4096 + (b3 - 0x80) * 64 + (b4 - 0x80) in
      IsScalar c × (encode c ≡ b ∷ b2 ∷ b3 ∷ b4 ∷ [])
unfolding encode
encode_four b b2 b3 b4 p q r s t u v w x y = (ground arith, ground arith)

-- The sequence in front of a list, and what is behind it.
pub record Sequence (s : Bytes) (n : ℕ) : Type 0 where
  pub scalar : ℕ
  pub rest : Bytes
  pub is_scalar : IsScalar scalar
  pub splits : s ≡ encode scalar ++ rest
  pub skips : drop n s ≡ rest
  pub takes : 0 < n

two_bytes_sound :
    (b n : ℕ) (s : Bytes) → 0xC2 ≤ b → b ≤ 0xDF → two_bytes s ≡ some n → Sequence (b ∷ s) n
unfolding two_bytes
two_bytes_sound b n [] p q h = cc
two_bytes_sound b n (b2 ∷ s) p q h =
    let e : n ≡ 2 = ground arith in
    let facts : (0x80 ≤ b2) × (b2 ≤ 0xBF) = ground arith in
    let (is, code) = encode_two b b2 p q facts.0 facts.1 in
    rw e (record {
      scalar = (b - 0xC0) * 64 + (b2 - 0x80);
      rest = s;
      is_scalar = is;
      splits = rw code;
      skips = refl;
      takes = omega arith;
    })

three_bytes_sound :
    (b n : ℕ) (s : Bytes) → 0xE0 ≤ b → b ≤ 0xEF → three_bytes b s ≡ some n → Sequence (b ∷ s) n
unfolding three_bytes
three_bytes_sound b n [] p q h = cc
three_bytes_sound b n (b2 ∷ []) p q h = cc
three_bytes_sound b n (b2 ∷ b3 ∷ s) p q h =
    let e : n ≡ 3 = ground arith in
    let f2 : (0x80 ≤ b2) × (b2 ≤ 0xBF) = ground arith in
    let f3 : (0x80 ≤ b3) × (b3 ≤ 0xBF) = ground arith in
    let low : b ≡ 0xE0 → 0xA0 ≤ b2 = ground arith in
    let high : b ≡ 0xED → b2 ≤ 0x9F = ground arith in
    let (is, code) = encode_three b b2 b3 p q f2.0 f2.1 f3.0 f3.1 low high in
    rw e (record {
      scalar = (b - 0xE0) * 4096 + (b2 - 0x80) * 64 + (b3 - 0x80);
      rest = s;
      is_scalar = is;
      splits = rw code;
      skips = refl;
      takes = omega arith;
    })

four_bytes_sound :
    (b n : ℕ) (s : Bytes) → 0xF0 ≤ b → b ≤ 0xF4 → four_bytes b s ≡ some n → Sequence (b ∷ s) n
unfolding four_bytes
four_bytes_sound b n [] p q h = cc
four_bytes_sound b n (b2 ∷ []) p q h = cc
four_bytes_sound b n (b2 ∷ b3 ∷ []) p q h = cc
four_bytes_sound b n (b2 ∷ b3 ∷ b4 ∷ s) p q h =
    let e : n ≡ 4 = ground arith in
    let f2 : (0x80 ≤ b2) × (b2 ≤ 0xBF) = ground arith in
    let f3 : (0x80 ≤ b3) × (b3 ≤ 0xBF) = ground arith in
    let f4 : (0x80 ≤ b4) × (b4 ≤ 0xBF) = ground arith in
    let low : b ≡ 0xF0 → 0x90 ≤ b2 = ground arith in
    let high : b ≡ 0xF4 → b2 ≤ 0x8F = ground arith in
    let (is, code) = encode_four b b2 b3 b4 p q f2.0 f2.1 f3.0 f3.1 f4.0 f4.1 low high in
    rw e (record {
      scalar = (b - 0xF0) * 262144 + (b2 - 0x80) * 4096 + (b3 - 0x80) * 64 + (b4 - 0x80);
      rest = s;
      is_scalar = is;
      splits = rw code;
      skips = refl;
      takes = omega arith;
    })

one_byte_sound : (b n : ℕ) (s : Bytes) → b ≤ 0x7F → n ≡ 1 → Sequence (b ∷ s) n
one_byte_sound b n s p e = rw e (record {
  scalar = b;
  rest = s;
  is_scalar = inl (omega arith);
  splits = unfold encode in ground arith;
  skips = refl;
  takes = omega arith;
})

-- Which branch of the validator a leading byte takes.
leading_byte :
    (b n : ℕ) (s : Bytes)
    → is_valid_utf8_sequence (b ∷ s) ≡ some n
    → ((b ≤ 0x7F) × (n ≡ 1))
      ⊎ (((0xC2 ≤ b) × (b ≤ 0xDF) × (two_bytes s ≡ some n))
          ⊎ (((0xE0 ≤ b) × (b ≤ 0xEF) × (three_bytes b s ≡ some n))
              ⊎ ((0xF0 ≤ b) × (b ≤ 0xF4) × (four_bytes b s ≡ some n))))
unfolding is_valid_utf8_sequence
leading_byte b n s h = ground arith

pub is_valid_utf8_sequence_sound :
    (s : Bytes) (n : ℕ) → is_valid_utf8_sequence s ≡ some n → Sequence s n
is_valid_utf8_sequence_sound [] n h = unfold is_valid_utf8_sequence in cc
is_valid_utf8_sequence_sound (b ∷ s) n h = elim (leading_byte b n s h) [
  | inl (p, e) ↦ one_byte_sound b n s p e
  | inr (inl (p, q, e)) ↦ two_bytes_sound b n s p q e
  | inr (inr (inl (p, q, e))) ↦ three_bytes_sound b n s p q e
  | inr (inr (inr (p, q, e))) ↦ four_bytes_sound b n s p q e
]
