-- ===== src/Input/Load.antt =====
-- src/cli/input.c: `cli_bounded_strlen`, `salt_cli_report_state_error`,
-- `salt_cli_load_plaintext_from_argv`, `salt_cli_input_load_key_input` and
-- `salt_cli_input_load_plaintext`. `interrupted` is the flag of the signal handler where it is polled
-- behind the loading.
pub mod Buffers
pub mod Keeps
pub mod Result
use salt.Args.{Cli, Run, report}
use salt.Base.{
  ℕ, ◌+◌, ◌-◌, Bool, true, false, Option, none, some, List, [], ◌∷◌, ◌++◌, ◌==◌, ltb, if◌then◌else◌,
  Bytes, length, take, store, cstr, ◌>>=◌,
}
use salt.Diagnostics.{salt_cli_report_stream_status, salt_cli_set_error}
use salt.Input.{Source, Reader, cli_input_read_stream_limited}
use salt.Parse.KeyInput.{copy_bytes, salt_cli_parse_key_input}
use salt.Parse.KeyObject.{Parser, first_is_nul}
use salt.Parse.Whitespace.{salt_cli_trim_whitespace_inplace}
use salt.Seal.Box.{Block, unallocated, live, freed}
use salt.Seal.Sodium.{Sodium, argv_buffer, trimmed_buffer, size_max}
use salt.State.{CliState}
use salt.Status.{
  Status, salt_ok, salt_err_input, salt_err_internal, salt_err_signal, is_ok,
  salt_max_key_input_len, salt_max_key_id_len, salt_github_secret_max_value_len, codes, ErrorBuffer,
}

-- On a C string, whose NUL `memchr` finds within the bound or not.
unfoldable pub cli_bounded_strlen : Bytes → ℕ → ℕ
cli_bounded_strlen value max_len = if ltb (length value) max_len then length value else max_len

-- The error buffer of the report is NULL.
unfoldable pub salt_cli_report_state_error : Status → Cli → Status × Cli
salt_cli_report_state_error rc w =
    let message = codes "error: " ++ (w.state.error.text ++ codes "\n") in
    let r =
      salt_cli_report_stream_status w.err_stream (record { size = 0; text = [] }) rc message in
    (r.0, record w { err_stream = r.1 })

-- `if (rc != SALT_OK) return salt_cli_report_state_error(...)`, and what follows.
abbrev pub or_report : Status → Cli → (Cli → Run) → Run
or_report rc w next = if is_ok rc then next w else some (salt_cli_report_state_error rc w)

-- `salt_cli_check_interrupted` with its report.
unfoldable pub check : Bool → Cli → Status × Cli
unfolding salt_cli_report_state_error
check interrupted w =
    if interrupted
    then (let e =
          salt_cli_set_error w.state.error (codes "operation interrupted") salt_err_signal in
        salt_cli_report_state_error e.0 (record w { state = record w.state { error = e.1 } }))
    else (salt_ok, w)

-- The caller's pointer behind a read of a stream, and the heap's record.
abbrev pub delivered_block : Block → Option Bytes
delivered_block (live b) = some b
delivered_block unallocated = none
delivered_block (freed b) = none

abbrev pub note_freed : Block → List Bytes → List Bytes
note_freed (freed b) blocks = b ∷ blocks
note_freed (live b) blocks = blocks
note_freed unallocated blocks = blocks

abbrev pub reader : CliState → Reader
reader s = record { block = unallocated; delivered = false; output_len = 0; error = s.error }

module _ (sodium : Sodium) where
  -- The branch of `state->key_from_stdin`.
  unfoldable pub read_key : Source → Cli → Run
  unfolding salt_cli_report_state_error report
  read_key source w = do
    done ← cli_input_read_stream_limited sodium source false salt_max_key_input_len (reader w.state)
    let block = done.1.block
    let w' = record w {
      state = record w.state {
        freed = note_freed block w.state.freed;
        stdin_key = if done.1.delivered then delivered_block block else w.state.stdin_key;
        error = done.1.error;
      };
    }
    or_report done.0 w' (λ w''. do
      buffer ← w''.state.stdin_key
      trimmed ← salt_cli_trim_whitespace_inplace buffer (done.1.output_len + 1)
      let state' = record w''.state { stdin_key = some trimmed }
      empty ← first_is_nul trimmed
      if empty
          then some (
              report salt_err_input (codes "error: key input from stdin is empty\n")
                (record w'' { state = state' }))
          else some
              (salt_ok, record w'' { state = record state' { key_option = some (cstr trimmed) } }))

  -- The parse of the trimmed copy; `field` is the parser's array for the names.
  unfoldable pub parse_trimmed : Bytes → Bool → Bytes → Cli → Run
  unfolding check
  parse_trimmed field interrupted trimmed w = do
    parsed ←
        salt_cli_parse_key_input field (some (cstr trimmed)) w.state.key_format
          w.state.parsed_key_b64 (salt_max_key_input_len + 1) w.state.parsed_key_id
          (salt_max_key_id_len + 1) w.state.parsed_has_key_id w.state.error
    let p = parsed.1
    let w' = record w {
      state = record w.state {
        parsed_key_b64 = p.fields.key_b64;
        parsed_key_id = p.fields.key_id;
        parsed_has_key_id = p.has_key_id;
        error = p.error;
      };
    }
    or_report parsed.0 w' (λ w''. some (check interrupted w''))

  -- The copy of `state->key_option` without the whitespace around it.
  unfoldable pub copy_key : Bytes → Bool → Cli → Run
  unfolding parse_trimmed report cli_bounded_strlen
  copy_key field interrupted w = do
    key ← w.state.key_option
    let key_copy_len = cli_bounded_strlen key (salt_max_key_input_len + 1)
    if ltb salt_max_key_input_len key_copy_len
        then some (
            report salt_err_input (codes "error: key input exceeds maximum length (16384 bytes)\n")
              w)
        else elim (sodium.malloc trimmed_buffer (key_copy_len + 1)) [
          | none ↦ some (
              report salt_err_internal (codes "internal error: failed to allocate key buffer\n")
                (record w { state = record w.state { trimmed_key_input = none } }))
          | some buffer ↦ do
            copied ← copy_bytes (take key_copy_len key) 0 buffer
            closed ← store copied key_copy_len 0
            trimmed ← salt_cli_trim_whitespace_inplace closed (key_copy_len + 1)
            parse_trimmed field interrupted trimmed (record w {
              state = record w.state {
                trimmed_key_input = some trimmed;
                trimmed_key_input_cap = key_copy_len + 1;
              };
            })
        ]

  unfoldable pub salt_cli_input_load_key_input : Bytes → Source → Bool → Cli → Run
  unfolding read_key copy_key
  salt_cli_input_load_key_input field source interrupted w =
      if w.state.key_from_stdin
      then (do
        done ← read_key source w
        if is_ok done.0 then copy_key field interrupted done.1 else some done)
      else copy_key field interrupted w

  -- The argument itself is zeroed behind the copy.
  unfoldable pub salt_cli_load_plaintext_from_argv : Cli → Run
  unfolding report cli_bounded_strlen
  salt_cli_load_plaintext_from_argv w = do
    plaintext_arg ← w.state.plaintext_arg
    let arg_len = cli_bounded_strlen plaintext_arg (salt_github_secret_max_value_len + 1)
    if ltb salt_github_secret_max_value_len arg_len
        then some (
            report salt_err_input
              (codes
                "error: plaintext exceeds maximum length (49152 bytes; GitHub Actions caps secret values at 48 KB)\n")
              w)
        else if ltb (size_max - 1) arg_len
        then some (report salt_err_input (codes "error: plaintext size overflow\n") w)
        else elim (sodium.malloc argv_buffer (arg_len + 1)) [
          | none ↦ some (
              report salt_err_internal
                (codes "internal error: failed to allocate plaintext buffer\n")
                (record w {
                  state = record w.state {
                    argv_plaintext_cap = arg_len + 1;
                    argv_plaintext_copy = none;
                  };
                }))
          | some buffer ↦ do
            copied ← copy_bytes (take arg_len plaintext_arg) 0 buffer
            closed ← store copied arg_len 0
            some (
              salt_ok,
              record w {
                state = record w.state {
                  argv_plaintext_cap = arg_len + 1;
                  argv_plaintext_copy = some closed;
                  plaintext_arg = some (sodium.memzero plaintext_arg);
                  message = some closed;
                  message_len = arg_len;
                };
              },
            )
        ]

  -- The branch of `state->plaintext_from_stdin`.
  unfoldable pub read_plaintext : Source → Cli → Run
  unfolding salt_cli_report_state_error
  read_plaintext source w = do
    done ←
        cli_input_read_stream_limited sodium source false salt_github_secret_max_value_len
          (record (reader w.state) { output_len = w.state.message_len })
    let block = done.1.block
    let w' = record w {
      state = record w.state {
        freed = note_freed block w.state.freed;
        stdin_plaintext =
            if done.1.delivered then delivered_block block else w.state.stdin_plaintext;
        message_len = done.1.output_len;
        error = done.1.error;
      };
    }
    or_report done.0 w' (λ w''.
        some (
          salt_ok,
          record w'' { state = record w''.state { message = w''.state.stdin_plaintext } },
        ))

  unfoldable pub salt_cli_input_load_plaintext : Source → Bool → Cli → Run
  unfolding salt_cli_load_plaintext_from_argv read_plaintext check report
  salt_cli_input_load_plaintext source interrupted w = do
    done ←
        if w.state.plaintext_from_stdin
        then read_plaintext source w
        else salt_cli_load_plaintext_from_argv w
    if is_ok done.0
        then (let polled = check interrupted done.1 in
            if is_ok polled.0
            then (if polled.1.state.message_len == 0
                then some
                    (report salt_err_input (codes "error: plaintext must not be empty\n") polled.1)
                else some polled)
            else some polled)
        else some done
