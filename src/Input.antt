-- ===== src/Input.antt =====
-- src/cli/input.c: `cli_secure_release_buffer` and `cli_input_read_stream_limited`. An access outside of
-- the buffer is a fault, `none`.
pub mod Load
pub mod Outcome
use salt.Base.{
  ℕ, ◌+◌, ◌-◌, Bool, true, false, Option, none, some, ◌∷◌, ◌==◌, ltb, if◌then◌else◌, Bytes, length,
  store, window, drop, ◌++◌, ◌>>=◌,
}
use salt.Seal.Box.{Block, live, freed, overwrite}
use salt.Seal.Sodium.{stdin_buffer, Sodium, size_max}
use salt.Status.{
  Status, salt_ok, salt_err_input, salt_err_internal, salt_err_io, salt_err_signal, codes,
  ErrorBuffer, set_error,
}

-- What the environment answers in a call: the bytes that `fread` stores, `ferror` behind it, `fgetc`
-- with `none` for EOF, `ferror` behind that, whether `ungetc` fails, and whether the flag of the signal
-- handler is set at the two places where it is polled.
pub record Source : Type 0 where
  pub read : Bytes
  pub read_fails : Bool
  pub next : Option ℕ
  pub probe_fails : Bool
  pub ungetc_fails : Bool
  pub interrupted_before : Bool
  pub interrupted_after : Bool

-- The buffer of the call, whether `*output` points to it, `*output_len`, and the error buffer.
pub record Reader : Type 0 where
  pub block : Block
  pub delivered : Bool
  pub output_len : ℕ
  pub error : ErrorBuffer

abbrev pub Run : Type 0
Run = Option (Status × Reader)

abbrev pub refuse : Status → Bytes → Reader → Run
refuse status message r = some (status, record r { error = set_error message r.error })

module _ (sodium : Sodium) where
  -- The block behind `free`, of which `len` bytes were released.
  unfoldable pub cli_secure_release_buffer : Bytes → ℕ → Option Block
  cli_secure_release_buffer buffer len = do
    front ← window len buffer
    let unlocked = sodium.munlock stdin_buffer front
    some (freed ((if unlocked.0 then unlocked.1 else sodium.memzero unlocked.1) ++ drop len buffer))

  -- `(void)salt_cli_set_error(...); cli_secure_release_buffer(...); return status`
  abbrev pub give_up : ℕ → Status → Bytes → Bytes → Reader → Run
  give_up max_len status message buffer r = do
    block ← cli_secure_release_buffer buffer (max_len + 1)
    refuse status message (record r { block = block })

  -- `buffer[bytes_read] = '\0'` and what follows it.
  abbrev pub finish : ℕ → Bytes → Reader → Run
  finish bytes_read buffer r = do
    buffer' ← store buffer bytes_read 0
    some (salt_ok, record r { block = live buffer'; delivered = true; output_len = bytes_read })

  -- Behind `next_char = fgetc(in_stream)`.
  abbrev pub probed : Source → ℕ → ℕ → Bytes → Reader → Option ℕ → Run
  probed source max_len bytes_read buffer r none =
      if source.probe_fails
      then give_up max_len salt_err_io (codes "failed to read from stdin") buffer r
      else finish bytes_read buffer r
  probed source max_len bytes_read buffer r (some next_char) =
      if source.ungetc_fails
      then give_up max_len salt_err_io (codes "failed to restore stdin after size probe") buffer r
      else give_up max_len salt_err_input (codes "stdin input exceeds maximum length") buffer r

  -- From the size probe, on a buffer into which `bytes_read` bytes were read.
  unfoldable pub probe : Source → ℕ → ℕ → Bytes → Reader → Run
  unfolding cli_secure_release_buffer
  probe source max_len bytes_read buffer r =
      if bytes_read == max_len
      then probed source max_len bytes_read buffer r source.next
      else finish bytes_read buffer r

  -- From `fread`, on the buffer that was allocated.
  unfoldable pub receive : Source → ℕ → Bytes → Reader → Run
  unfolding probe cli_secure_release_buffer
  receive source max_len buffer r = do
    buffer' ← overwrite source.read buffer
    if source.interrupted_after
        then give_up max_len salt_err_signal (codes "operation interrupted") buffer' r
        else if source.read_fails
        then give_up max_len salt_err_io (codes "failed to read from stdin") buffer' r
        else probe source max_len (length source.read) buffer' r

  -- `null` where one of the pointers is NULL.
  unfoldable pub cli_input_read_stream_limited : Source → Bool → ℕ → Reader → Run
  unfolding receive
  cli_input_read_stream_limited source null max_len r =
      if null
      then refuse salt_err_input (codes "invalid stream arguments") r
      else if ltb (size_max - 1) max_len
      then refuse salt_err_internal (codes "input size overflow") r
      else if source.interrupted_before
      then refuse salt_err_signal (codes "operation interrupted") r
      else elim (sodium.malloc stdin_buffer (max_len + 1)) [
        | none ↦ refuse salt_err_internal (codes "failed to allocate input buffer") r
        | some buffer ↦ receive source max_len buffer (record r { block = live buffer })
      ]
