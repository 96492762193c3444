-- ===== src/Prepare.antt =====
-- src/cli/prepare.c: `salt_cli_prepare_output`, with the sealing of src/salt.c behind the hook.
pub mod Keeps
pub mod Result
use salt.Args.{Cli, Run, report}
use salt.Base.{ℕ, Bool, false, Option, none, some, ◌==◌, if◌then◌else◌, Bytes, ◌>>=◌}
use salt.Input.Load.{or_report, check, note_freed}
use salt.Seal.Box.{Input, Frame, unallocated, salt_seal_base64}
use salt.Seal.Length.{salt_required_base64_output_len}
use salt.Seal.Sodium.{Sodium, output_buffer}
use salt.State.{CliState, salt_cli_resolve_effective_key_id}
use salt.Status.{salt_err_internal, is_ok, codes}

-- The call of the sealing; the length of the key is that of the string in the array.
abbrev pub seal_input : ℕ → CliState → Input
seal_input output_size s = record {
  message = s.message;
  message_len = s.message_len;
  public_key_b64 = some s.parsed_key_b64;
  public_key_b64_len = 0;
  output_size = output_size;
}

-- Its outputs, and its own buffers: `scratch` is the array for the decoded key.
abbrev pub seal_frame : Bytes → CliState → Frame
seal_frame scratch s = record {
  output = s.output;
  output_written = some s.output_written;
  error = s.error;
  public_key = scratch;
  public_key_locked = false;
  ciphertext = unallocated;
  ciphertext_locked = false;
  stack_wiped = 0;
}

abbrev pub written_count : Option ℕ → ℕ
written_count none = 0
written_count (some n) = n

-- The state behind the sealing.
abbrev pub take_frame : Frame → CliState → CliState
take_frame f s = record s {
  freed = note_freed f.ciphertext s.freed;
  output = f.output;
  output_written = written_count f.output_written;
  error = f.error;
}

module _ (sodium : Sodium) where
  -- From the sealing, with the output that is allocated.
  unfoldable pub seal_message : Bytes → Bool → ℕ → Cli → Run
  unfolding check report
  seal_message scratch interrupted output_size w = do
    sealed ← salt_seal_base64 sodium (seal_input output_size w.state) (seal_frame scratch w.state)
    let w' = record w { state = take_frame sealed.1 w.state }
    or_report sealed.0 w' (λ w''.
        let polled = check interrupted w'' in
        if is_ok polled.0
        then (if polled.1.state.output_written == 0
            then some (report salt_err_internal (codes "error: produced empty output\n") polled.1)
            else some polled)
        else some polled)

  unfoldable pub salt_cli_prepare_output : Bytes → Bool → Cli → Run
  unfolding seal_message report
  salt_cli_prepare_output scratch interrupted w =
      let w' = record w { state = salt_cli_resolve_effective_key_id w.state } in
      let output_size = salt_required_base64_output_len sodium w'.state.message_len in
      if output_size == 0
      then some (report salt_err_internal (codes "internal error: output size overflow\n") w')
      else elim (sodium.malloc output_buffer output_size) [
        | none ↦ some (
            report salt_err_internal (codes "internal error: failed to allocate output buffer\n")
              (record w' { state = record w'.state { output = none } }))
        | some buffer ↦ seal_message scratch interrupted output_size (record w' {
          state = record w'.state { output = some buffer; output_cap = output_size };
        })
      ]
