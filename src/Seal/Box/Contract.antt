-- ===== src/Seal/Box/Contract.antt =====
-- src/salt.c, `salt_seal_base64_keylen`: the terms in which a call's outcome is described.
use salt.Base.{
  ℕ, ◌+◌, ◌^◌, ◌≤◌, ◌<◌, ◌≡◌, ◌⊎◌, Bool, true, false, ◌||◌, Option, none, some, ◌∷◌, ◌++◌, Bytes,
  length, take, drop, wiped, IsCstr,
}
use salt.Seal.Box.{unallocated, freed, Input, Frame, Run, is_null, set_written}
use salt.Seal.Key.{max_public_key_b64_len}
use salt.Seal.Key.Outcome.{IsKey, NoKey}
use salt.Seal.Sodium.{ciphertext_buffer, Sodium, base64_len}
use salt.Status.{
  Status, salt_ok, salt_err_input, salt_err_crypto, salt_err_internal, salt_max_message_len,
}

-- The array at a pointer has at least `n` bytes.
abbrev pub Holds : ℕ → Option Bytes → Type 0
Holds n none = Unit
Holds n (some b) = n ≤ length b

module _ (sodium : Sodium) (a : Input) where
  -- The sizes that the caller gives, those of the arrays, and the state of the call's own buffers.
  pub record Given (f : Frame) : Type 0 where
    pub message_holds : Holds a.message_len a.message
    pub key_holds : Holds a.public_key_b64_len a.public_key_b64
    pub output_holds : Holds a.output_size f.output
    pub output_size_fits : a.output_size < 2 ^ 64
    pub scratch_size : length f.public_key ≡ sodium.public_key_bytes
    pub no_block : f.ciphertext ≡ unallocated

  abbrev pub sealed_len : ℕ
  sealed_len = a.message_len + sodium.seal_bytes

  -- What stands when the box is to be sealed: the secret, the key and the block.
  pub record Ready : Type 0 where
    pub message : Bytes
    pub message_at : a.message ≡ some message
    pub message_min : 0 < a.message_len
    pub message_max : a.message_len ≤ salt_max_message_len
    pub key_array : Bytes
    pub key_at : a.public_key_b64 ≡ some key_array
    pub key : Bytes
    pub key_max : a.public_key_b64_len ≤ max_public_key_b64_len sodium
    pub decodes : IsKey sodium (take a.public_key_b64_len key_array) key
    pub capacity : base64_len sealed_len ≤ a.output_size
    pub block : Bytes
    pub allocates : sodium.malloc ciphertext_buffer sealed_len ≡ some block

  -- `crypto_box_seal` on the bytes that the caller means by the message and its length.
  abbrev pub box_of : Ready → Bool × Bytes
  box_of r = sodium.crypto_box_seal r.block (take a.message_len r.message) r.key

  -- Why a call fails, with the status that it returns.
  pub data Reason (output : Option Bytes) : Status → Type 0 where
    null_argument :
        (is_null a.message || is_null a.public_key_b64 || is_null output) ≡ true
        → Reason output salt_err_input
    message_length :
        (a.message_len ≡ 0) ⊎ (salt_max_message_len < a.message_len) → Reason output salt_err_input
    no_key : a.public_key_b64_len ≡ 0 → Reason output salt_err_input
    no_library : sodium.init_fails ≡ true → Reason output salt_err_crypto
    key_length : max_public_key_b64_len sodium < a.public_key_b64_len → Reason output salt_err_input
    key_encoding :
        (array : Bytes)
        → a.public_key_b64 ≡ some array
        → NoKey sodium (take a.public_key_b64_len array)
        → Reason output salt_err_input
    no_capacity : a.output_size < base64_len sealed_len → Reason output salt_err_input
    no_memory : sodium.malloc ciphertext_buffer sealed_len ≡ none → Reason output salt_err_internal
    not_sealed : (r : Ready) → (box_of r).0 ≡ false → Reason output salt_err_crypto
    not_encoded :
        (r : Ready)
        → (box_of r).0 ≡ true
        → (array : Bytes) → output ≡ some array
        → sodium.bin2base64 (take a.output_size array) (box_of r).1 ≡ none
        → Reason output salt_err_internal

  -- A secret that was sealed: `output` and `written` are those that the call leaves.
  pub record Sealed (before : Frame) (output : Option Bytes) (written : Option ℕ) : Type 0 where
    pub ready : Ready
    pub seals : (box_of ready).0 ≡ true
    pub text : Bytes
    pub is_base64 : text ≡ sodium.base64 (box_of ready).1
    pub text_size : length text + 1 ≡ base64_len sealed_len
    pub text_IsCstr : IsCstr text
    pub output_array : Bytes
    pub output_at : before.output ≡ some output_array
    -- what the library leaves behind the NUL, up to `output_size`
    pub back : Bytes
    pub back_size : length (text ++ 0 ∷ back) ≡ a.output_size
    pub stores : output ≡ some ((text ++ 0 ∷ back) ++ drop a.output_size output_array)
    pub reports : written ≡ set_written (length text) before.output_written

-- No secret is left: the scratch for the key was not reached, or is wiped like the block, which was
-- freed once, and the stack.
pub data Released (before after : Frame) : Type 0 where
  not_reached :
      after.public_key ≡ before.public_key → after.ciphertext ≡ unallocated → Released before after
  wiped_key :
      after.public_key ≡ wiped (length before.public_key)
      → after.ciphertext ≡ unallocated
      → after.stack_wiped ≡ 4096
      → Released before after
  wiped_both :
      (n : ℕ)
      → after.public_key ≡ wiped (length before.public_key)
      → after.ciphertext ≡ freed (wiped n)
      → after.stack_wiped ≡ 4096
      → Released before after

-- The outcomes of a call.
pub data Outcome (sodium : Sodium) (a : Input) (before : Frame) : Run → Type 0 where
  failed :
      {status : Status} {after : Frame}
      → Reason sodium a before.output status
      → after.output ≡ before.output
      → after.output_written ≡ set_written 0 before.output_written
      → Released before after
      → Outcome sodium a before (some (status, after))
  sealed :
      {after : Frame}
      → Sealed sodium a before after.output after.output_written
      → Released before after
      → Outcome sodium a before (some (salt_ok, after))
