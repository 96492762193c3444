-- ===== src/Tests/Args.antt =====
-- src/cli/args.c at concrete inputs.
use salt.Base.{ℕ, ◌≡◌, refl, false, Option, none, some, List, [], ◌∷◌, ◌++◌, Bytes}
use salt.Args.{Got, Getopt, Cli, salt_cli_args_parse_arguments, salt_cli_handle_option}
use salt.Diagnostics.{Report, salt_cli_report_stream_status}
use salt.Output.Emit.{json}
use salt.State.{salt_cli_state_init}
use salt.Status.{Status, salt_ok, salt_err_input, codes, ErrorBuffer}
use salt.Stdio.{Stream, write, fflush}

abbrev pub silent : Stream
silent = record { written = []; plan = []; failed = false }

abbrev start : Cli
unfolding salt_cli_state_init
start = record { state = salt_cli_state_init []; out_stream = silent; err_stream = silent }

abbrev usage : Stream → Option Bytes → ErrorBuffer → Report
usage s name e = (salt_ok, record s { written = s.written ++ codes "usage" }, e)

abbrev version : Stream → ErrorBuffer → Report
version s e = (salt_ok, s, e)

abbrev pub got : ℕ → Bytes → Got
got opt arg = record { argv = []; opt = opt; optarg = some arg; optopt = 0; optind = 1 }

-- salt SECRET -k KEY -o json, with the vector as it is permuted.
abbrev argv : List Bytes
argv = codes "salt" ∷ codes "-k" ∷ codes "KEY" ∷ codes "-o" ∷ codes "json" ∷ codes "SECRET" ∷ []

abbrev options : List Got
options = got b'k' (codes "KEY") ∷ got b'o' (codes "json") ∷ []

abbrev parsed : List Got → ℕ → Getopt
parsed options optind = record { options = options; argv = argv; optind = optind }

arguments_run :
    salt_cli_args_parse_arguments usage version (parsed options 5) start
    ≡ some (
      salt_ok,
      record start {
        state = record start.state {
          key_option = some (codes "KEY");
          output_mode = json;
          plaintext_arg = some (codes "SECRET");
        };
      },
    )
unfolding salt_cli_args_parse_arguments salt_cli_handle_option salt_cli_state_init
arguments_run = refl

abbrev status_of : Option (Status × Cli) → Option Status
status_of none = none
status_of (some r) = some r.0

-- No key, two positional arguments, and the key and the plaintext from the standard input.
refusals :
    (status_of (salt_cli_args_parse_arguments usage version (parsed [] 5) start)
      ≡ some salt_err_input)
    × (status_of (salt_cli_args_parse_arguments usage version (parsed options 4) start)
        ≡ some salt_err_input)
    × (status_of
          (salt_cli_args_parse_arguments usage version (parsed (got b'k' (codes "-") ∷ []) 6) start)
        ≡ some salt_err_input)
unfolding salt_cli_args_parse_arguments salt_cli_report_stream_status write fflush
    salt_cli_handle_option salt_cli_state_init
refusals = (refl, refl, refl)
