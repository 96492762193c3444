-- ===== src/Seal/Length/Exact.antt =====
-- src/salt.c: the lengths are exact, or the sentinel is returned.
use salt.Base.{
  ℕ, zero, suc, ◌+◌, ◌≤◌, ◌<◌, ◌≡◌, arith, ◌⊎◌, inl, inr, some, [], ◌∷◌, ltb, lt_or_le,
  if◌then◌else◌, Bytes, length, IsCstr, ◌++◌,
}
use salt.Status.{salt_ok, salt_err_input, codes, ErrorBuffer, set_error}
use salt.Seal.Length.{
  salt_validate_output_capacity, salt_required_base64_output_len, salt_bounded_strlen,
  bytes_before_nul,
}
use salt.Seal.Sodium.{Sodium, Documented, size_max, base64_len}

-- With a library that keeps its documentation, the required length is that of the base64 text of the
-- sealed box with its NUL, computed without wrapping, wherever that is below SIZE_MAX, and SIZE_MAX
-- everywhere else, for every `size_t`.
pub salt_required_base64_output_len-exact :
    (sodium : Sodium)
    → Documented sodium
    → (message_len : ℕ) → message_len ≤ size_max
    → salt_required_base64_output_len sodium message_len ≡ (
        if ltb (base64_len (message_len + sodium.seal_bytes)) size_max
        then base64_len (message_len + sodium.seal_bytes)
        else size_max)
unfolding salt_required_base64_output_len
salt_required_base64_output_len-exact sodium d m h =
    let fit = d.seal_bytes_fit in
    let exact = d.encoded_len_exact (m + sodium.seal_bytes) in
    elim (lt_or_le (base64_len (m + sodium.seal_bytes)) size_max) [
      | inl small ↦ ground (arith, exact (omega arith))
      | inr large ↦ ground arith
    ]

-- The smaller of the two.
abbrev pub at_most : ℕ → ℕ → ℕ
at_most bound n = if ltb n bound then n else bound

bytes_before_nul-cstr :
    (s back : Bytes) (bound : ℕ)
    → IsCstr s
    → bytes_before_nul (s ++ 0 ∷ back) bound ≡ some (at_most bound (length s))
unfolding bytes_before_nul
bytes_before_nul-cstr s back zero c = ground arith
bytes_before_nul-cstr [] back (suc n) c = ground arith
bytes_before_nul-cstr (x ∷ s) back (suc n) c =
    let rest = bytes_before_nul-cstr s back n c.1 in ground arith

-- Of a C string, the length as far as the bound; nothing behind its NUL is read.
pub salt_bounded_strlen-cstr :
    (s back : Bytes) (bound : ℕ)
    → IsCstr s
    → salt_bounded_strlen (some (s ++ 0 ∷ back)) bound ≡ some (at_most bound (length s))
unfolding salt_bounded_strlen
salt_bounded_strlen-cstr s back bound c = bytes_before_nul-cstr s back bound c

-- The capacity is accepted exactly where the text of the sealed box fits it, and the buffer is
-- touched only where it is refused.
pub salt_validate_output_capacity-fits :
    (sodium : Sodium)
    → Documented sodium
    → (message_len output_size : ℕ) (e : ErrorBuffer) → message_len ≤ size_max
    → output_size ≤ size_max
    → ((base64_len (message_len + sodium.seal_bytes) ≤ output_size)
        × (salt_validate_output_capacity sodium message_len output_size e ≡ (salt_ok, e)))
      ⊎ ((output_size < base64_len (message_len + sodium.seal_bytes))
          × (salt_validate_output_capacity sodium message_len output_size e
              ≡ (salt_err_input, set_error (codes "output buffer too small") e)))
unfolding salt_validate_output_capacity
salt_validate_output_capacity-fits sodium d m n e hm hn =
    let exact = salt_required_base64_output_len-exact sodium d m hm in
    elim (lt_or_le n (base64_len (m + sodium.seal_bytes))) [
      | inl small ↦ inr (small, ground arith)
      | inr fits ↦ inl (fits, ground arith)
    ]
