-- ===== src/Seal/Key.antt =====
-- src/salt.c: `decode_public_key`. The array `public_key` is on the stack, so it is not NULL.
pub mod Outcome
use salt.Base.{
  ℕ, ◌-◌, Bool, true, false, ◌&&◌, ◌||◌, Option, none, some, List, [], ◌∷◌, ◌++◌, length, drop,
  ◌==◌, ltb, if◌then◌else◌, Bytes, window, ◌>>=◌,
}
use salt.Seal.Sodium.{Variant, original, original_no_padding, Decoding, Sodium}
use salt.Status.{Status, salt_ok, salt_err_input}

-- `end != NULL && end == b64_end`
abbrev pub ends_at : Option ℕ → ℕ → Bool
ends_at none len = false
ends_at (some end) len = end == len

abbrev pub variants : List Variant
variants = original ∷ original_no_padding ∷ []

module _ (sodium : Sodium) where
  abbrev pub max_public_key_b64_len : ℕ
  max_public_key_b64_len = sodium.encoded_len sodium.public_key_bytes - 1

  -- The condition on what a decoder returned for a text of `len` bytes.
  abbrev pub is_key : ℕ → Decoding → Bool
  is_key len d = d.returned_zero && d.bin_len == sodium.public_key_bytes && ends_at d.end len

  -- The loop, on the variants that are left, and what follows it.
  unfoldable pub try_variants : List Variant → Bytes → ℕ → Bytes → Status × Bytes
  try_variants [] text len public_key = (salt_err_input, sodium.memzero public_key)
  try_variants (v ∷ vs) text len public_key =
      let d = sodium.base642bin sodium.public_key_bytes text v in
      let public_key' = d.stored ++ drop (length d.stored) public_key in
      let rest = try_variants vs text len public_key' in
      if is_key len d then (salt_ok, public_key') else rest

  -- The status and the array that the call leaves. The decoders read `len` bytes of the text.
  unfoldable pub decode_public_key : Option Bytes → ℕ → Bytes → Option (Status × Bytes)
  decode_public_key none len public_key = some (salt_err_input, public_key)
  decode_public_key (some public_key_b64) len public_key =
      if len == 0 || ltb max_public_key_b64_len len
      then some (salt_err_input, public_key)
      else (do text ← window len public_key_b64; some (try_variants variants text len public_key))
