-- ===== src/Seal/Zeroing/Cstring.antt =====
-- src/salt.c: the calls on a key that is a C string.
use salt.Base.{◌+◌, ◌≡◌, refl, some, ◌∷◌, ◌++◌, Bytes, length, IsCstr, ◌>>=◌}
use salt.Seal.Box.{Input, Frame, salt_seal_base64, salt_seal_base64_keylen}
use salt.Seal.Length.{salt_bounded_strlen}
use salt.Seal.Key.{max_public_key_b64_len}
use salt.Seal.Length.Exact.{at_most, salt_bounded_strlen-cstr}
use salt.Seal.Sodium.{Sodium}
use salt.Seal.Zeroing.{
  salt_seal_base64_with_plaintext_zeroing, salt_seal_base64_with_plaintext_zeroing_keylen,
}

module _ (sodium : Sodium) (a : Input) (f : Frame) (key back : Bytes) (c : IsCstr key)
    (at_key : a.public_key_b64 ≡ some (key ++ 0 ∷ back)) where
  -- The length that is passed on: that of the string, but never more than one above a key's.
  abbrev pub with_strlen : Input
  with_strlen = record a {
    public_key_b64_len = at_most (max_public_key_b64_len sodium + 1) (length key);
  }

  -- On a key that is a C string, the calls without a key length do what those with one do at the length
  -- of the string, bounded by one more than that of a padded key; nothing behind the NUL is read.
  pub salt_seal_base64-keylen :
      (salt_seal_base64 sodium a f ≡ salt_seal_base64_keylen sodium with_strlen f)
      × (salt_seal_base64_with_plaintext_zeroing sodium a f
          ≡ salt_seal_base64_with_plaintext_zeroing_keylen sodium with_strlen f)
  unfolding salt_seal_base64 salt_seal_base64_with_plaintext_zeroing
  salt_seal_base64-keylen =
      let e = salt_bounded_strlen-cstr key back (max_public_key_b64_len sodium + 1) c in
      let e' : salt_bounded_strlen a.public_key_b64 (max_public_key_b64_len sodium + 1)
          ≡ some (at_most (max_public_key_b64_len sodium + 1) (length key)) =
        rw at_key e in
      (rw (e', ◌>>=◌) refl, rw (e', ◌>>=◌) refl)
