-- ===== src/Input/Load/Result.antt =====
-- src/cli/input.c: what the loaders load.
pub mod Key
pub mod Parsed
pub mod Plaintext
use salt.Args.{Cli, report}
use salt.Base.{
  ◌≡◌, refl, ℕ, ◌<◌, Bool, true, false, Option, none, some, Bytes, inl, inr, length, take,
}
use salt.Diagnostics.{salt_cli_report_stream_status, salt_cli_report_stream_status-status}
use salt.Input.Load.{salt_cli_report_state_error}
use salt.Output.Emit.{OutputMode}
use salt.State.{CliState}
use salt.Status.{Status, salt_err_io, is_ok, ErrorBuffer}
use salt.Stdio.{Stream}

-- What the plaintext's loader and the preparation leave alone.
abbrev pub KeyPart : Type 0
KeyPart = OutputMode × Option Bytes × Bytes × Bytes × Bool × Option Bytes

abbrev pub key_part : CliState → KeyPart
key_part s = (
  s.output_mode, s.key_id_option, s.parsed_key_b64, s.parsed_key_id, s.parsed_has_key_id,
  s.effective_key_id,
)

abbrev pub Untouched : Cli → Cli → Type 0
Untouched w v = (key_part v.state ≡ key_part w.state) × (v.out_stream ≡ w.out_stream)

-- A report of an error is an error, also where the stream fails.
pub report-is_error :
    (stream : Stream) (e : ErrorBuffer) (rc : Status) (message : Bytes)
    → is_ok rc ≡ false
    → is_ok (salt_cli_report_stream_status stream e rc message).0 ≡ false
report-is_error stream e rc message bad =
    elim (salt_cli_report_stream_status-status stream e rc message) [
      | inl same ↦ rw same bad
      | inr io ↦ rw io refl
    ]

-- An error is no success.
pub of_error : {A : Type 0} (status : Status) → is_ok status ≡ true → is_ok status ≡ false → A
of_error status ok bad = absurd (cc (bad, ok))
