-- ===== src/Main.antt =====
-- src/main.c: the usage, the version, and the run of the program over the other parts.
pub mod Clean
pub mod Result
pub mod Served
use salt.Args.{Cli, Getopt, salt_cli_args_parse_arguments}
use salt.Base.{
  ℕ, Bool, true, false, not, ◌&&◌, ◌||◌, Option, none, some, List, [], ◌∷◌, ◌++◌, if◌then◌else◌,
  Bytes, cstr, ◌>>=◌,
}
use salt.Diagnostics.{Report, salt_cli_set_error, salt_cli_write_stream}
use salt.Input.{Source}
use salt.Input.Load.{salt_cli_input_load_key_input, salt_cli_input_load_plaintext}
use salt.Output.Emit.{salt_cli_emit_output}
use salt.Prepare.{salt_cli_prepare_output}
use salt.Seal.Sodium.{Sodium}
use salt.Signals.{
  Sigaction, Process, salt_cli_ensure_signal_handlers, salt_cli_restore_signal_handlers,
  salt_cli_reset_interrupted,
}
use salt.State.{salt_cli_state_init, salt_cli_state_cleanup}
use salt.Status.{
  Status, salt_ok, salt_err_input, salt_err_internal, salt_err_io, is_ok, codes, ErrorBuffer,
}
use salt.Stdio.{Stream, write}

-- An argument vector that a shell can give: `none` for a NULL in it.
abbrev pub all_given : List (Option Bytes) → Bool
all_given [] = true
all_given (none ∷ rest) = false
all_given (some a ∷ rest) = all_given rest

-- The first argument is given and not empty.
abbrev pub has_program : List (Option Bytes) → Bool
has_program [] = false
has_program (none ∷ rest) = false
has_program (some [] ∷ rest) = false
has_program (some (c ∷ cs) ∷ rest) = true

-- `argv` is `none` where it is NULL, and else the list of its first `argc` pointers.
unfoldable pub salt_cli_has_valid_argv_shape : Option (List (Option Bytes)) → Bool
salt_cli_has_valid_argv_shape none = false
salt_cli_has_valid_argv_shape (some argv) = has_program argv && all_given argv

abbrev pub name_of : Option Bytes → Bytes
name_of none = []
name_of (some program) = program

abbrev pub concat : List Bytes → Bytes
concat [] = []
concat (part ∷ parts) = part ++ concat parts

-- The text of the usage, in which the program's name stands four times.
unfoldable pub usage_text : Bytes → Bytes
usage_text program = concat (
    codes "usage: "
    ∷ program
    ∷ codes " [OPTIONS] [PLAINTEXT]\n\n"
    ∷ codes "Encrypt plaintext using libsodium sealed boxes for GitHub secrets.\n\nOptions:\n"
    ∷ codes "  -k, --key VALUE         Public key input (base64, JSON key object, or '-')\n"
    ∷ codes "  -i, --key-id ID         Key ID override/inject for JSON output\n"
    ∷ codes "  -o, --output FORMAT     Output format: text|json (default: text)\n"
    ∷ codes "  -f, --key-format MODE   Key format: auto|base64|json (default: auto)\n"
    ∷ codes "  -h, --help              Show this help text and exit\n"
    ∷ codes "  -V, --version           Show version information and exit\n\nInput rules:\n"
    ∷ codes "  PLAINTEXT omitted or '-' reads plaintext from stdin.\n"
    ∷ codes "  --key - reads key input from stdin.\n"
    ∷ codes "  Key and plaintext cannot both be read from stdin in one invocation.\n\nSecurity:\n"
    ∷ codes "  Sensitive plaintext should be passed via stdin; positional arguments\n"
    ∷ codes "  are visible in process listings (ps, /proc/<pid>/cmdline).\n\nExamples:\n  "
    ∷ program
    ∷ codes " -k '<base64-public-key>' 'hello'\n  "
    ∷ program
    ∷ codes " -o json -k '{\"key_id\":\"123\",\"key\":\"<base64-public-key>\"}' 'hello'\n"
    ∷ codes "  echo 'hello' | "
    ∷ program
    ∷ codes " -o json -k '{\"key_id\":\"123\",\"key\":\"<base64-public-key>\"}' -\n"
    ∷ [])

unfoldable pub print_usage : Stream → Option Bytes → ErrorBuffer → Report
unfolding usage_text
print_usage stream program e =
    salt_cli_write_stream stream e (codes "failed to write help output")
      (usage_text (name_of program))

-- `version` is the macro `SALT_VERSION`, which the build defines.
abbrev pub version_text : Bytes → Bytes
version_text version = codes "salt " ++ (version ++ codes "\n")

unfoldable pub print_version : Bytes → Stream → ErrorBuffer → Report
print_version version stream e =
    salt_cli_write_stream stream e (codes "failed to write version output") (version_text version)

-- What a run meets: the version of the build, what `getopt_long` makes of a vector, the two reads of the
-- standard input, the uninitialised arrays of the parser and of the sealing, the result of
-- `sigemptyset`, and the flag of the signal handler behind each of the three phases.
pub record Environment : Type 0 where
  pub version : Bytes
  pub getopt_long : List Bytes → Getopt
  pub key_source : Source
  pub plaintext_source : Source
  pub field : Bytes
  pub scratch : Bytes
  pub sigemptyset_ok : Bool
  pub interrupted_by_key : Bool
  pub interrupted_by_plaintext : Bool
  pub interrupted_by_seal : Bool

abbrev pub CliRun : Type 0
CliRun = Option (Status × Cli)

-- `salt_cli_write_stream(err_stream, NULL, 0U, "failed to write diagnostic", "error: %s\n", state.error)`
unfoldable pub write_diagnostic : Cli → Status × Cli
write_diagnostic w =
    let r =
      salt_cli_write_stream w.err_stream (record { size = 0; text = [] })
        (codes "failed to write diagnostic")
        (codes "error: " ++ (w.state.error.text ++ codes "\n")) in
    (r.0, record w { err_stream = r.1 })

-- A status that is reported, unless the error stream fails.
abbrev pub report_or_io : Status → Cli → Status × Cli
report_or_io rc w =
    let r = write_diagnostic w in if is_ok r.0 then (rc, r.1) else (salt_err_io, r.1)

-- `rc = f(...); if (rc != SALT_OK) goto cleanup;`
infixl 5 ◌or_cleanup◌
abbrev pub ◌or_cleanup◌ : CliRun → (Cli → CliRun) → CliRun
m or_cleanup next = m >>= (λ r. if is_ok r.0 then next r.1 else some r)

abbrev pub pointers : List (Option Bytes) → List Bytes
pointers [] = []
pointers (none ∷ rest) = pointers rest
pointers (some a ∷ rest) = a ∷ pointers rest

-- The output to the stream.
unfoldable pub emit : Cli → CliRun
unfolding write_diagnostic
emit w = do
  output ← w.state.output
  let r =
      salt_cli_emit_output w.state.output_mode (cstr output) w.state.effective_key_id
        (record { stream = w.out_stream; error = w.state.error })
  let w' = record w { state = record w.state { error = r.1.error }; out_stream = r.1.stream }
  some (if is_ok r.0 then (r.0, w') else report_or_io r.0 w')

module _ (sodium : Sodium) (env : Environment) where
  -- From the loading of the key to the label `cleanup`.
  unfoldable pub encrypt : Cli → CliRun
  unfolding emit
  encrypt w =
      salt_cli_input_load_key_input sodium env.field env.key_source env.interrupted_by_key w
      or_cleanup (λ w₁.
          salt_cli_input_load_plaintext sodium env.plaintext_source env.interrupted_by_plaintext w₁)
      or_cleanup (λ w₂. salt_cli_prepare_output sodium env.scratch env.interrupted_by_seal w₂)
      or_cleanup emit

  -- From the parse of the arguments to the label.
  unfoldable pub serve : List Bytes → Cli → CliRun
  unfolding encrypt write_diagnostic
  serve argv w = do
    r ←
        salt_cli_args_parse_arguments print_usage (print_version env.version) (env.getopt_long argv)
          w
    let asked = r.1.state.show_help || r.1.state.show_version
    if not (is_ok r.0) || asked
        then some (r.0, if asked && not (is_ok r.0) then (write_diagnostic r.1).1 else r.1)
        else encrypt r.1

  -- A failed installation of the handlers.
  unfoldable pub install_failed : Cli → Status × Cli
  unfolding write_diagnostic
  install_failed w =
      let e =
        salt_cli_set_error w.state.error (codes "failed to install signal handlers")
          salt_err_internal in
      report_or_io e.0 (record w { state = record w.state { error = e.1 } })

  module _ {T D : Type 0} (a : Sigaction T D) where
    -- Up to the label, with the variables of src/cli/signal.c.
    unfoldable pub start :
        Bool → List Bytes → Cli → Process T D → Option (Status × Cli × Process T D)
    unfolding serve install_failed
    start manage_signals argv w p =
        let installed =
          if manage_signals
          then salt_cli_ensure_signal_handlers a env.sigemptyset_ok p
          else (salt_ok, p) in
        if is_ok installed.0
        then (do r ← serve argv w; some (r.0, r.1, salt_cli_reset_interrupted a installed.1))
        else (let r = install_failed w in some (r.0, r.1, installed.1))

    -- `streams_given` where none of the three streams is NULL. `SALT_CLI_STACK_WIPE_BYTES` of the stack
    -- are cleared behind the cleanup.
    unfoldable pub salt_cli_run_with_streams_internal :
        Option (List (Option Bytes))
        → Bool
        → Bool
        → Cli
        → Process T D
        → Option (Status × Cli × Process T D)
    unfolding start
    salt_cli_run_with_streams_internal argv streams_given manage_signals w p =
        if salt_cli_has_valid_argv_shape argv && streams_given
        then (do
          given ← argv
          done ←
              start manage_signals (pointers given)
                (record w { state = salt_cli_state_init w.state.freed }) p
          state ← salt_cli_state_cleanup sodium done.1.state
          some (
            done.0,
            record done.1 { state = state },
            if manage_signals then salt_cli_restore_signal_handlers a done.2 else done.2,
          ))
        else some (salt_err_input, w, p)

    unfoldable pub salt_cli_run_with_streams :
        Option (List (Option Bytes))
        → Bool
        → Cli
        → Process T D
        → Option (Status × Cli × Process T D)
    salt_cli_run_with_streams argv streams_given =
        salt_cli_run_with_streams_internal argv streams_given false

    -- On the standard input.
    unfoldable pub salt_cli_run :
        Option (List (Option Bytes))
        → Bool
        → Cli
        → Process T D
        → Option (Status × Cli × Process T D)
    salt_cli_run argv streams_given = salt_cli_run_with_streams_internal argv streams_given false

    unfoldable pub salt_cli_run_with_streams_signal_handlers :
        Option (List (Option Bytes))
        → Bool
        → Cli
        → Process T D
        → Option (Status × Cli × Process T D)
    salt_cli_run_with_streams_signal_handlers argv streams_given =
        salt_cli_run_with_streams_internal argv streams_given true

    -- `no_core` and `not_dumpable` where `setrlimit` and `prctl` returned 0.
    unfoldable pub main :
        Bool
        → Bool
        → Option (List (Option Bytes))
        → Cli
        → Process T D
        → Option (Status × Cli × Process T D)
    unfolding salt_cli_run_with_streams_internal
    main no_core not_dumpable argv w p =
        if not no_core
        then some (
          salt_err_internal,
          record w {
            err_stream = (write (codes "error: failed to disable core dumps\n") w.err_stream).1;
          },
          p,
        )
        else if not not_dumpable
        then some (
          salt_err_internal,
          record w {
            err_stream =
                (write (codes "error: failed to disable process dumpability\n") w.err_stream).1;
          },
          p,
        )
        else salt_cli_run_with_streams_internal argv true true w p
