-- ===== src/Seal/Box.antt =====
-- src/salt.c: `salt_validate_seal_inputs`, `salt_secure_release`, `salt_seal_base64_keylen` and
-- `salt_seal_base64`. An access outside of an array, a NULL that is followed and a block that is freed
-- twice are faults, `none`.
pub mod Contract
pub mod Outcome
pub mod Steps
pub mod Succeeds
use salt.Base.{
  window, drop, cstr, ℕ, ◌+◌, ◌%◌, ◌^◌, Bool, true, false, ◌||◌, Option, none, some, [], ◌∷◌, ◌++◌,
  ◌==◌, ltb, if◌then◌else◌, Bytes, length, drop, leb, cstr, window, ◌>>=◌,
}
use salt.Seal.Key.{max_public_key_b64_len, decode_public_key}
use salt.Seal.Length.{salt_bounded_strlen, salt_validate_output_capacity}
use salt.Seal.Sodium.{Region, key_scratch, ciphertext_buffer, Sodium}
use salt.Status.{
  Status, salt_ok, salt_err_input, salt_err_crypto, salt_err_internal, is_ok, salt_max_message_len,
  codes, ErrorBuffer, set_error,
}

-- The block on the heap, with its contents; a freed one has those of the time of the `free`.
pub data Block : Type 0 where
  unallocated : Block
  live : Bytes → Block
  freed : Bytes → Block

-- What a call reads: pointers with the arrays that they are at, `none` where they are NULL.
pub record Input : Type 0 where
  pub message : Option Bytes
  pub message_len : ℕ
  pub public_key_b64 : Option Bytes
  pub public_key_b64_len : ℕ
  pub output_size : ℕ

-- What a call changes: the caller's buffers, and its own. `output_written` is `none` where the pointer
-- is NULL; `stack_wiped` counts the bytes that `sodium_stackzero` cleared.
pub record Frame : Type 0 where
  pub output : Option Bytes
  pub output_written : Option ℕ
  pub error : ErrorBuffer
  pub public_key : Bytes
  pub public_key_locked : Bool
  pub ciphertext : Block
  pub ciphertext_locked : Bool
  pub stack_wiped : ℕ

abbrev pub Run : Type 0
Run = Option (Status × Frame)

-- `if (output_written != NULL) *output_written = n`
abbrev pub set_written : ℕ → Option ℕ → Option ℕ
set_written n none = none
set_written n (some old) = some n

-- `*output_written` is set before the validation.
abbrev pub reset : Frame → Frame
reset f = record f { output_written = set_written 0 f.output_written }

abbrev pub is_null : Option Bytes → Bool
is_null none = true
is_null (some b) = false

abbrev pub end_with : Status → Bytes → Frame → Run
end_with status message f = some (status, record f { error = set_error message f.error })

unfoldable pub salt_validate_seal_inputs :
    Option Bytes → ℕ → Option Bytes → ℕ → Option Bytes → ErrorBuffer → Status × ErrorBuffer
salt_validate_seal_inputs message message_len public_key_b64 public_key_b64_len output e =
    if is_null message || is_null public_key_b64 || is_null output
    then (salt_err_input, set_error (codes "invalid null argument") e)
    else if message_len == 0 || ltb salt_max_message_len message_len
    then (
      salt_err_input,
      set_error (codes "plaintext length must be between 1 and 1048576 bytes") e,
    )
    else if public_key_b64_len == 0
    then (salt_err_input, set_error (codes "public key must not be empty") e)
    else (salt_ok, e)

-- `memcpy` of the text with its NUL to the front of the array.
abbrev pub overwrite : Bytes → Bytes → Option Bytes
overwrite bytes array =
    if ltb (length array) (length bytes) then none else some (bytes ++ drop (length bytes) array)

module _ (sodium : Sodium) where
  -- What the release leaves of the bytes that it is given.
  unfoldable pub release_region : Region → Bytes → Bool → Bytes
  release_region region buffer buffer_locked =
      if buffer_locked
      then (let unlocked = sodium.munlock region buffer in
          if unlocked.0 then unlocked.1 else sodium.memzero unlocked.1)
      else sodium.memzero buffer

  -- The array behind the release of its first `buffer_len` bytes.
  unfoldable pub salt_secure_release : Region → Bytes → ℕ → Bool → Option Bytes
  unfolding release_region
  salt_secure_release region buffer buffer_len buffer_locked = do
    front ← window buffer_len buffer
    some (release_region region front buffer_locked ++ drop buffer_len buffer)

  -- The variable `ciphertext_len` behind the check of the capacity.
  abbrev pub ciphertext_len : Input → ℕ
  ciphertext_len a = (a.message_len + sodium.seal_bytes) % 2 ^ 64

  -- From the base64 encoding to the label `cleanup`, with the output that is not NULL.
  unfoldable pub encode : Input → Bytes → Bytes → Frame → Run
  encode a output ciphertext f = do
    b64 ← window a.output_size output
    elim (sodium.bin2base64 b64 ciphertext) [
      | none ↦ end_with salt_err_internal (codes "failed to encode ciphertext") f
      | some stored ↦
          let output' = stored ++ drop a.output_size output in
          some (
            salt_ok,
            record f {
              output = some output';
              output_written = set_written (length (cstr output')) f.output_written;
            },
          )
    ]

  -- From the lock of the ciphertext.
  unfoldable pub seal : Input → Bytes → Bytes → Bytes → Frame → Run
  seal a message output block f = do
    let f' = record f { ciphertext_locked = sodium.mlock ciphertext_buffer }
    text ← window a.message_len message
    let sealed = sodium.crypto_box_seal block text f.public_key
    let f'' = record f' { ciphertext = live sealed.1 }
    if sealed.0
        then encode a output sealed.1 f''
        else end_with salt_err_crypto (codes "failed to encrypt sealed box") f''

  -- From the check of the capacity.
  unfoldable pub allocate : Input → Bytes → Bytes → Frame → Run
  unfolding seal
  allocate a message output f =
      let checked = salt_validate_output_capacity sodium a.message_len a.output_size f.error in
      let f' = record f { error = checked.1 } in
      if is_ok checked.0
      then (elim (sodium.malloc ciphertext_buffer (ciphertext_len a)) [
        | none ↦ end_with salt_err_internal (codes "failed to allocate ciphertext buffer") f'
        | some block ↦ seal a message output block (record f' { ciphertext = live block })
      ])
      else some (checked.0, f')

  -- From the lock of the key to the label.
  unfoldable pub body : Input → Bytes → Bytes → Frame → Run
  unfolding allocate
  body a message output f = do
    decoded ← decode_public_key sodium a.public_key_b64 a.public_key_b64_len f.public_key
    let f' = record f { public_key_locked = sodium.mlock key_scratch; public_key = decoded.1 }
    if is_ok decoded.0
        then allocate a message output f'
        else end_with salt_err_input (codes "invalid public key encoding or length") f'

  -- `if (ciphertext != NULL) { salt_secure_release(...); free(ciphertext); }`
  abbrev pub release_block : Block → ℕ → Bool → Option Block
  release_block unallocated len locked = some unallocated
  release_block (live b) len locked = do
    released ← salt_secure_release ciphertext_buffer b len locked
    some (freed released)
  release_block (freed b) len locked = none

  -- What follows the label `cleanup`; `SALT_STACK_WIPE_BYTES` is 4096.
  unfoldable pub cleanup : Input → Status × Frame → Run
  cleanup a (status, f) = do
    public_key ←
        salt_secure_release key_scratch f.public_key sodium.public_key_bytes f.public_key_locked
    block ← release_block f.ciphertext (ciphertext_len a) f.ciphertext_locked
    some (status, record f { public_key = public_key; ciphertext = block; stack_wiped = 4096 })

  -- The pointers that the validation found not to be NULL.
  abbrev pub follow : Option Bytes → Option Bytes → (Bytes → Bytes → Run) → Run
  follow (some message) (some output) next = next message output
  follow message output next = none

  -- From the validation, behind the reset of `*output_written`.
  unfoldable pub validated : Input → Frame → Run
  unfolding body cleanup
  validated a f =
      let checked =
        salt_validate_seal_inputs a.message a.message_len a.public_key_b64 a.public_key_b64_len
          f.output f.error in
      if is_ok checked.0
      then (if sodium.init_fails
          then end_with salt_err_crypto (codes "failed to initialize libsodium") f
          else follow a.message f.output (λ message output. body a message output f >>= cleanup a))
      else some (checked.0, record f { error = checked.1 })

  unfoldable pub salt_seal_base64_keylen : Input → Frame → Run
  unfolding validated
  salt_seal_base64_keylen a f = validated a (reset f)

  -- The key's length is bounded by one byte more than a key has.
  unfoldable pub salt_seal_base64 : Input → Frame → Run
  unfolding salt_seal_base64_keylen
  salt_seal_base64 a f = do
    len ← salt_bounded_strlen a.public_key_b64 (max_public_key_b64_len sodium + 1)
    salt_seal_base64_keylen (record a { public_key_b64_len = len }) f
