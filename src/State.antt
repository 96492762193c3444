-- ===== src/State.antt =====
-- src/cli/state.h and src/cli/state.c: the state of a run, its initialization and its cleanup. A wipe
-- outside of a buffer is a fault, `none`.
pub mod Cleanup
pub mod Invariant
pub mod Resolve
use salt.Base.{
  ℕ, zero, suc, ◌+◌, Bool, true, false, Option, none, some, List, [], ◌∷◌, ◌++◌, if◌then◌else◌,
  Bytes, take, drop, window, wiped, cstr, ◌>>=◌,
}
use salt.Output.Emit.{OutputMode, text}
use salt.Parse.KeyInput.{KeyFormat, auto}
use salt.Seal.Sodium.{Sodium, state_buffer}
use salt.Status.{
  salt_max_key_input_len, salt_max_key_id_len, salt_github_secret_max_value_len, ErrorBuffer,
}

-- `struct salt_cli_state`. A `const char *` is the C string at it and a `char *` the block at it, `none`
-- for NULL; `message` is the bytes at the pointer. `freed` is no field of the structure: it is the heap's
-- record of what was in the blocks of a run that were freed, the last one first.
pub record CliState : Type 0 where
  pub key_option : Option Bytes
  pub key_id_option : Option Bytes
  pub output_mode : OutputMode
  pub key_format : KeyFormat
  pub show_help : Bool
  pub show_version : Bool
  pub plaintext_arg : Option Bytes
  pub plaintext_from_stdin : Bool
  pub key_from_stdin : Bool
  pub stdin_key : Option Bytes
  pub stdin_plaintext : Option Bytes
  pub argv_plaintext_copy : Option Bytes
  pub argv_plaintext_cap : ℕ
  pub trimmed_key_input : Option Bytes
  pub trimmed_key_input_cap : ℕ
  pub parsed_key_b64 : Bytes
  pub parsed_key_id : Bytes
  pub parsed_has_key_id : Bool
  pub effective_key_id : Option Bytes
  pub message : Option Bytes
  pub message_len : ℕ
  pub output : Option Bytes
  pub output_cap : ℕ
  pub output_written : ℕ
  pub fixed_buffers_locked : Bool
  pub error : ErrorBuffer
  pub freed : List Bytes

-- `(struct salt_cli_state){0}`
abbrev pub zeroed : List Bytes → CliState
zeroed freed = record {
  key_option = none;
  key_id_option = none;
  output_mode = text;
  key_format = auto;
  show_help = false;
  show_version = false;
  plaintext_arg = none;
  plaintext_from_stdin = false;
  key_from_stdin = false;
  stdin_key = none;
  stdin_plaintext = none;
  argv_plaintext_copy = none;
  argv_plaintext_cap = 0;
  trimmed_key_input = none;
  trimmed_key_input_cap = 0;
  parsed_key_b64 = wiped (salt_max_key_input_len + 1);
  parsed_key_id = wiped (salt_max_key_id_len + 1);
  parsed_has_key_id = false;
  effective_key_id = none;
  message = none;
  message_len = 0;
  output = none;
  output_cap = 0;
  output_written = 0;
  fixed_buffers_locked = false;
  error = record { size = 256; text = [] };
  freed = freed;
}

-- The results of the locks are ignored.
unfoldable pub salt_cli_state_init : List Bytes → CliState
salt_cli_state_init freed = record (zeroed freed) {
  output_mode = text;
  key_format = auto;
  fixed_buffers_locked = true;
}

-- The first byte of the option's value is not NUL.
abbrev pub is_filled : Bytes → Bool
is_filled [] = false
is_filled (c ∷ cs) = true

unfoldable pub salt_cli_resolve_effective_key_id : CliState → CliState
salt_cli_resolve_effective_key_id s =
    let otherwise =
      if s.parsed_has_key_id
      then record s { effective_key_id = some (cstr s.parsed_key_id) }
      else s in
    elim s.key_id_option [
      | none ↦ otherwise
      | some id ↦ if is_filled id then record s { effective_key_id = some id } else otherwise
    ]

-- `char error[256]`, whose bytes behind the message are taken for zeros: nothing reads them.
abbrev pub error_array : ErrorBuffer → Bytes
error_array e = take 256 (e.text ++ wiped 256)

module _ (sodium : Sodium) where
  -- On `len` bytes of the buffer, whose contents it leaves.
  unfoldable pub salt_cli_secure_unlock_region : Bytes → ℕ → Option Bytes
  salt_cli_secure_unlock_region buffer zero = some buffer
  salt_cli_secure_unlock_region buffer (suc n) = do
    region ← window (suc n) buffer
    let unlocked = sodium.munlock state_buffer region
    let left = if unlocked.0 then unlocked.1 else sodium.memzero unlocked.1
    some (left ++ drop (suc n) buffer)

  -- What is freed behind the call.
  unfoldable pub salt_cli_secure_free_region : Option Bytes → ℕ → List Bytes → Option (List Bytes)
  unfolding salt_cli_secure_unlock_region
  salt_cli_secure_free_region none len freed = some freed
  salt_cli_secure_free_region (some buffer) len freed = do
    left ← salt_cli_secure_unlock_region buffer len
    some (left ∷ freed)

  abbrev pub unlock_fixed : Bool → Bytes → ℕ → Option Bytes
  unlock_fixed locked buffer len =
      if locked then salt_cli_secure_unlock_region buffer len else some buffer

  -- The fixed buffers are wiped where they are locked, and the structure is zeroed in any case.
  unfoldable pub salt_cli_state_cleanup : CliState → Option CliState
  unfolding salt_cli_secure_free_region salt_cli_secure_unlock_region
  salt_cli_state_cleanup s = do
    freed₁ ← salt_cli_secure_free_region s.output s.output_cap s.freed
    freed₂ ← salt_cli_secure_free_region s.stdin_key (salt_max_key_input_len + 1) freed₁
    freed₃ ←
        salt_cli_secure_free_region s.stdin_plaintext (salt_github_secret_max_value_len + 1) freed₂
    freed₄ ← salt_cli_secure_free_region s.argv_plaintext_copy s.argv_plaintext_cap freed₃
    freed₅ ← salt_cli_secure_free_region s.trimmed_key_input s.trimmed_key_input_cap freed₄
    key ← unlock_fixed s.fixed_buffers_locked s.parsed_key_b64 (salt_max_key_input_len + 1)
    key_id ← unlock_fixed s.fixed_buffers_locked s.parsed_key_id (salt_max_key_id_len + 1)
    error ← unlock_fixed s.fixed_buffers_locked (error_array s.error) 256
    some (zeroed freed₅)
