-- ===== src/Seal/Length.antt =====
-- src/salt.c: `salt_bounded_strlen`, `salt_required_base64_output_len` and
-- `salt_validate_output_capacity`.
pub mod Exact
use salt.Base.{
  ℕ, zero, suc, ◌+◌, ◌-◌, ◌*◌, ◌/◌, ◌%◌, ◌^◌, Bool, ◌||◌, Option, none, some, [], ◌∷◌, ◌==◌, ltb,
  leb, if◌then◌else◌, Bytes,
}
use salt.Seal.Sodium.{Sodium, size_max}
use salt.Status.{Status, salt_ok, salt_err_input, codes, ErrorBuffer, set_error}

-- `memchr(value, '\0', max_len)`, as the number of bytes in front of what it finds or of the bound; a
-- read outside of the array is a fault.
unfoldable pub bytes_before_nul : Bytes → ℕ → Option ℕ
bytes_before_nul value zero = some 0
bytes_before_nul [] (suc n) = none
bytes_before_nul (c ∷ cs) (suc n) =
    let rest = bytes_before_nul cs n in
    if c == 0 then some 0 else elim rest [ none ↦ none | some k ↦ some (suc k) ]

-- `value` is `none` where it is NULL.
unfoldable pub salt_bounded_strlen : Option Bytes → ℕ → Option ℕ
salt_bounded_strlen none max_len = some 0
salt_bounded_strlen (some value) max_len = bytes_before_nul value max_len

module _ (sodium : Sodium) where
  unfoldable pub salt_required_base64_output_len : ℕ → ℕ
  salt_required_base64_output_len message_len =
      if ltb (size_max - sodium.seal_bytes) message_len
      then size_max
      else (let sealed_len = (message_len + sodium.seal_bytes) % 2 ^ 64 in
          if ltb ((size_max - 1) / 4 * 3) sealed_len
          then size_max
          else sodium.encoded_len sealed_len)

  -- The status, and the error buffer that it leaves.
  unfoldable pub salt_validate_output_capacity : ℕ → ℕ → ErrorBuffer → Status × ErrorBuffer
  salt_validate_output_capacity message_len output_size e =
      let required = salt_required_base64_output_len message_len in
      if required == size_max || ltb output_size required
      then (salt_err_input, set_error (codes "output buffer too small") e)
      else (salt_ok, e)
