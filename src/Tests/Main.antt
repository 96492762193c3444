-- ===== src/Tests/Main.antt =====
-- src/main.c at concrete inputs.
use salt.Args.{Cli, Getopt}
use salt.Base.{
  ℕ, zero, suc, ◌≡◌, refl, sym, arith, true, false, Option, none, some, List, [], ◌∷◌, Bytes, take,
  Gives,
}
use salt.Input.{Source}
use salt.Input.Outcome.{Reads}
use salt.Main.{
  Environment, pointers, main, salt_cli_has_valid_argv_shape, salt_cli_run_with_streams,
  salt_cli_run_with_streams_internal,
}
use salt.Main.Clean.{Promised, Ended, salt_cli_run_with_streams_internal-Ended}
use salt.Main.Served.{RunServes, initialized, salt_cli_run_with_streams_internal-Served}
use salt.Signals.{Process}
use salt.State.{salt_cli_state_init}
use salt.Status.{Status, salt_ok, salt_err_input, codes, salt_github_secret_max_value_len}
use salt.Stdio.{Stream}
use salt.Tests.Args.{silent, got}
use salt.Tests.Seal.{small, small-Documented}
use salt.Tests.Signals.{numbers, numbers-Documented, process}

abbrev pub unread : Source
unread = record {
  read = [];
  read_fails = false;
  next = none;
  probe_fails = false;
  ungetc_fails = false;
  interrupted_before = false;
  interrupted_after = false;
}

abbrev pub piped : Source
piped = record unread { read = codes "xy" }

-- The vector has its options in front, and is left as it is.
abbrev in_order : List Bytes → Getopt
in_order argv = record { options = got b'k' (codes " abc") ∷ []; argv = argv; optind = 3 }

-- salt -k abc, with a secret of two bytes in the pipe.
abbrev env : Environment
env = record {
  version = codes "0.0.0";
  getopt_long = in_order;
  key_source = unread;
  plaintext_source = piped;
  field = codes "01234567890123456789012345678901";
  scratch = codes "???";
  sigemptyset_ok = true;
  interrupted_by_key = false;
  interrupted_by_plaintext = false;
  interrupted_by_seal = false;
}

unfoldable pub world : Cli
unfolding salt_cli_state_init
world = record { state = salt_cli_state_init []; out_stream = silent; err_stream = silent }

abbrev arguments : List (Option Bytes)
arguments = some (codes "salt") ∷ some (codes "-k") ∷ some (codes " abc") ∷ []

abbrev argv : Option (List (Option Bytes))
argv = some arguments

pub silence :
    (source : Source) → source.read ≡ [] → source.next ≡ none → (n : ℕ) → Reads source n []
silence source e f n = record {
  stores_at_most = rw e (omega arith);
  reads_front = λ ok. rw e (sym (take-nil n));
  next_byte = λ c h g. absurd (cc (f, g));
  next_end = λ h g ok. omega arith;
}
  where
    take-nil : (n : ℕ) → take {A = ℕ} n [] ≡ []
    take-nil zero = refl
    take-nil (suc n) = refl

pub piped-Reads : Reads piped salt_github_secret_max_value_len (codes "xy")
piped-Reads = record {
  stores_at_most = omega arith;
  reads_front = λ ok. refl;
  next_byte = λ c h g. absurd (cc g);
  next_end = λ h g ok. omega arith;
}

env-Promised : Promised small env [] (codes "xy")
env-Promised = record {
  options_given = λ argv. (refl, tt);
  key_reads = silence unread refl refl _;
  plaintext_reads = piped-Reads;
  field_room = omega arith;
  scratch_size = refl;
  keys_fit = omega arith;
}

salt_cli_run_with_streams_internal-Ended_example :
    Gives
      (Ended small small-Documented env []
        (codes "xy")
        env-Promised
        numbers
        numbers-Documented
        true
        world
        process)
      (salt_cli_run_with_streams_internal small env numbers argv true true world process)
unfolding world salt_cli_has_valid_argv_shape
salt_cli_run_with_streams_internal-Ended_example =
    salt_cli_run_with_streams_internal-Ended small small-Documented env [] (codes "xy") env-Promised
      numbers numbers-Documented argv true true world process tt refl refl

salt_cli_run_with_streams_internal-Served_example :
    Gives
      (RunServes small env []
        (codes "xy")
        small-Documented
        env-Promised
        (λ argv. refl)
        numbers
        numbers-Documented
        (pointers arguments)
        (initialized world))
      (salt_cli_run_with_streams_internal small env numbers argv true true world process)
unfolding world salt_cli_has_valid_argv_shape
salt_cli_run_with_streams_internal-Served_example =
    salt_cli_run_with_streams_internal-Served small env [] (codes "xy") small-Documented
      env-Promised (λ argv. refl) numbers numbers-Documented argv true true world process tt refl
      refl

-- The status, and what is on the two output streams.
abbrev seen : Option (Status × Cli × Process (ℕ × ℕ) ℕ) → Option (Status × Bytes × Bytes)
seen none = none
seen (some r) = some (r.0, r.1.out_stream.written, r.1.err_stream.written)

main_seals :
    seen (main small env numbers true true argv world process)
    ≡ some (salt_ok, codes "AAAAAAAA\n", [])
unfolding world salt.Main.salt_cli_has_valid_argv_shape salt.Main.usage_text salt.Main.print_usage
    salt.Main.print_version salt.Main.write_diagnostic salt.Main.emit salt.Main.encrypt
    salt.Main.serve salt.Main.install_failed salt.Main.start
    salt.Main.salt_cli_run_with_streams_internal salt.Main.salt_cli_run_with_streams salt.Main.main
    salt.Signals.salt_cli_signal_handler salt.Signals.salt_cli_ensure_signal_handlers
    salt.Signals.salt_cli_restore_signal_handlers salt.Signals.salt_cli_check_interrupted
    salt.Signals.salt_cli_reset_interrupted salt.Args.salt_cli_invalid_option_token
    salt.Args.salt_cli_bounded_strlen salt.Args.report salt.Args.output_option
    salt.Args.format_option salt.Args.salt_cli_handle_option salt.Args.parse_options
    salt.Args.choose_sources salt.Args.usage_error salt.Args.check_rest salt.Args.check_arguments
    salt.Args.salt_cli_args_parse_arguments salt.State.salt_cli_state_init
    salt.State.salt_cli_resolve_effective_key_id salt.State.salt_cli_secure_unlock_region
    salt.State.salt_cli_secure_free_region salt.State.salt_cli_state_cleanup
    salt.Input.Load.cli_bounded_strlen salt.Input.Load.salt_cli_report_state_error
    salt.Input.Load.check salt.Input.Load.read_key salt.Input.Load.parse_trimmed
    salt.Input.Load.copy_key salt.Input.Load.salt_cli_input_load_key_input
    salt.Input.Load.salt_cli_load_plaintext_from_argv salt.Input.Load.read_plaintext
    salt.Input.Load.salt_cli_input_load_plaintext
    salt.Parse.KeyInput.salt_cli_should_parse_key_as_json salt.Parse.KeyInput.copy_bytes
    salt.Parse.KeyInput.salt_cli_copy_base64_key_input salt.Parse.KeyInput.salt_cli_parse_key_input
    salt.Parse.Whitespace.cli_is_ascii_ws salt.Parse.Whitespace.skip_ws
    salt.Parse.Whitespace.memchr_nul salt.Parse.Whitespace.scan_start
    salt.Parse.Whitespace.shift_down salt.Parse.Whitespace.scan_end salt.Parse.Whitespace.terminate
    salt.Parse.Whitespace.salt_cli_trim_whitespace_inplace salt.Input.cli_secure_release_buffer
    salt.Input.probe salt.Input.receive salt.Input.cli_input_read_stream_limited
    salt.Prepare.seal_message salt.Prepare.salt_cli_prepare_output salt.Seal.Length.bytes_before_nul
    salt.Seal.Length.salt_bounded_strlen salt.Seal.Length.salt_required_base64_output_len
    salt.Seal.Length.salt_validate_output_capacity salt.Seal.Box.salt_validate_seal_inputs
    salt.Seal.Box.salt_secure_release salt.Seal.Box.encode salt.Seal.Box.seal salt.Seal.Box.allocate
    salt.Seal.Box.body salt.Seal.Box.cleanup salt.Seal.Box.validated
    salt.Seal.Box.salt_seal_base64_keylen salt.Seal.Box.salt_seal_base64 salt.Seal.Key.try_variants
    salt.Seal.Key.decode_public_key salt.Output.Emit.requires_key_id salt.Output.Emit.invalid_utf8
    salt.Output.Emit.open_document salt.Output.Emit.between_fields
    salt.Output.Emit.salt_cli_emit_output salt.Output.Writer.write_failed
    salt.Output.Writer.cli_stream_write_error salt.Output.Writer.cli_stream_put
    salt.Output.Writer.cli_stream_flush salt.Diagnostics.salt_cli_set_error
    salt.Diagnostics.salt_cli_flush_stream salt.Diagnostics.salt_cli_write_stream
    salt.Diagnostics.salt_cli_report_stream_status salt.Stdio.write salt.Stdio.fflush
    salt.Status.set_error
main_seals = refl
