-- ===== src/Seal/Zeroing.antt =====
-- src/salt.c: `salt_seal_base64_with_plaintext_zeroing_keylen` and
-- `salt_seal_base64_with_plaintext_zeroing`.
pub mod Outcome
pub mod Cstring
use salt.Base.{
  ℕ, ◌+◌, ◌&&◌, Option, none, some, ◌++◌, Bytes, drop, window, leb, ltb, if◌then◌else◌, ◌>>=◌,
}
use salt.Seal.Box.{Input, Frame, reset, salt_seal_base64_keylen}
use salt.Seal.Key.{max_public_key_b64_len}
use salt.Seal.Length.{salt_bounded_strlen}
use salt.Seal.Sodium.{Sodium}
use salt.Status.{Status, salt_err_input, salt_max_message_len, codes, set_error}

-- The status, the frame, and the caller's array at `message`.
abbrev pub ZeroingRun : Type 0
ZeroingRun = Option (Status × Frame × Option Bytes)

module _ (sodium : Sodium) where
  -- `sodium_memzero(message, message_len)`
  unfoldable pub zero_message : ℕ → Bytes → Option Bytes
  zero_message message_len message = do
    secret ← window message_len message
    some (sodium.memzero secret ++ drop message_len message)

  unfoldable pub salt_seal_base64_with_plaintext_zeroing_keylen : Input → Frame → ZeroingRun
  unfolding zero_message
  salt_seal_base64_with_plaintext_zeroing_keylen a f0 =
      let f = reset f0 in
      elim a.message [
        | none ↦ some (
          salt_err_input,
          record f { error = set_error (codes "invalid null argument") f.error },
          none,
        )
        | some message ↦ do
          sealed ← salt_seal_base64_keylen sodium a f
          if ltb 0 a.message_len && leb a.message_len salt_max_message_len
              then (do
                message' ← zero_message a.message_len message
                some (sealed.0, sealed.1, some message'))
              else some (sealed.0, sealed.1, some message)
      ]

  unfoldable pub salt_seal_base64_with_plaintext_zeroing : Input → Frame → ZeroingRun
  unfolding salt_seal_base64_with_plaintext_zeroing_keylen
  salt_seal_base64_with_plaintext_zeroing a f = do
    len ← salt_bounded_strlen a.public_key_b64 (max_public_key_b64_len sodium + 1)
    salt_seal_base64_with_plaintext_zeroing_keylen (record a { public_key_b64_len = len }) f
