-- ===== src/Seal/Box/Succeeds.antt =====
-- src/salt.c, `salt_seal_base64_keylen`: what is enough for SALT_OK.
use salt.Base.{◌≤◌, ◌<◌, ◌≡◌, refl, arith, inl, inr, true, false, some, Bytes, take, Gives}
use salt.Seal.Box.{Input, Frame, Run, is_null, salt_seal_base64_keylen}
use salt.Seal.Box.Contract.{
  Given, Reason, null_argument, message_length, no_key, no_library, key_length, key_encoding,
  no_capacity, no_memory, not_sealed, not_encoded, Outcome, failed, sealed, Sealed, sealed_len,
}
use salt.Seal.Box.Outcome.{salt_seal_base64_keylen-Outcome}
use salt.Seal.Key.{max_public_key_b64_len}
use salt.Seal.Key.Outcome.{IsKey, IsKey-NoKey}
use salt.Seal.Sodium.{Sodium, Documented, ciphertext_buffer, base64_len}
use salt.Status.{Status, salt_ok, salt_max_message_len}

-- Arguments in their ranges, a key that decodes, room for the text, and a library and an allocator that
-- do not fail.
pub record Enough (sodium : Sodium) (a : Input) (before : Frame) : Type 0 where
  pub message : Bytes
  pub message_at : a.message ≡ some message
  pub message_min : 0 < a.message_len
  pub message_max : a.message_len ≤ salt_max_message_len
  pub key_array : Bytes
  pub key_at : a.public_key_b64 ≡ some key_array
  pub key_min : 0 < a.public_key_b64_len
  pub key_max : a.public_key_b64_len ≤ max_public_key_b64_len sodium
  pub key : Bytes
  pub decodes : IsKey sodium (take a.public_key_b64_len key_array) key
  pub output_array : Bytes
  pub output_at : before.output ≡ some output_array
  pub capacity : base64_len (sealed_len sodium a) ≤ a.output_size
  pub starts : sodium.init_fails ≡ false
  pub block : Bytes
  pub allocates : sodium.malloc ciphertext_buffer (sealed_len sodium a) ≡ some block
  pub seals : (c m k : Bytes) → (sodium.crypto_box_seal c m k).0 ≡ true
  pub encodes : (b64 box : Bytes) → (stored : Bytes) × (sodium.bin2base64 b64 box ≡ some stored)

module _ (sodium : Sodium) (a : Input) (before : Frame) (e : Enough sodium a before) where
  -- No reason to fail holds.
  cannot_fail : (status : Status) → Reason sodium a before.output status → ⊥
  cannot_fail s (null_argument null) =
      let m : is_null a.message ≡ false = rw e.message_at refl in
      let k : is_null a.public_key_b64 ≡ false = rw e.key_at refl in
      let o : is_null before.output ≡ false = rw e.output_at refl in cc (rw (m, k, o) at null)
  cannot_fail s (message_length (inl zero)) = absurd (omega (arith, zero, e.message_min))
  cannot_fail s (message_length (inr long)) = absurd (omega (arith, long, e.message_max))
  cannot_fail s (no_key zero) = absurd (omega (arith, zero, e.key_min))
  cannot_fail s (no_library fails) = cc (fails, e.starts)
  cannot_fail s (key_length long) = absurd (omega (arith, long, e.key_max))
  cannot_fail s (key_encoding array at fails) =
      let same : array ≡ e.key_array = cc (at, e.key_at) in
      IsKey-NoKey sodium (take a.public_key_b64_len e.key_array) e.key e.decodes (rw same at fails)
  cannot_fail s (no_capacity small) = absurd (omega (arith, small, e.capacity))
  cannot_fail s (no_memory fails) = cc (fails, e.allocates)
  cannot_fail s (not_sealed r fails) =
      cc (fails, e.seals r.block (take a.message_len r.message) r.key)
  cannot_fail s (not_encoded r ok array at fails) =
      let (text, encodes) =
        e.encodes (take a.output_size array)
          (sodium.crypto_box_seal r.block (take a.message_len r.message) r.key).1 in
      cc (fails, encodes)

  abbrev pub Seals : Status × Frame → Type 0
  Seals r = (r.0 ≡ salt_ok) × Sealed sodium a before r.1.output r.1.output_written

  Outcome-Seals : (run : Run) → Outcome sodium a before run → Gives Seals run
  Outcome-Seals run (failed {status = status} reason o w l) = absurd (cannot_fail status reason)
  Outcome-Seals run (sealed s l) = (refl, s)

  -- With a library that keeps its documentation, what a call needs of its arguments, lengths in
  -- their ranges, a key that decodes, room for the text, and a library and an allocator that do not
  -- fail, the call returns SALT_OK with the base64 text of the sealed box, and its NUL, at the
  -- front of the output.
  pub salt_seal_base64_keylen-Seals :
      Documented sodium
      → Given sodium a before
      → Gives Seals (salt_seal_base64_keylen sodium a before)
  salt_seal_base64_keylen-Seals d g =
      Outcome-Seals _ (salt_seal_base64_keylen-Outcome sodium d a before g)
