-- ===== src/Args.antt =====
-- src/cli/args.c: `salt_cli_invalid_option_token`, `salt_cli_bounded_strlen`, `salt_cli_handle_option`
-- and `salt_cli_args_parse_arguments`. What `getopt_long` returns is a parameter: the list of its
-- results up to -1, the vector as it has permuted it, and the `optind` that it leaves in that. A NULL that
-- is followed is a fault, `none`.
pub mod Contract
pub mod Handled
pub mod Keeps
pub mod Loop
pub mod Options
pub mod Outcome
use salt.Base.{
  ℕ, zero, suc, ◌+◌, ◌-◌, Bool, true, false, ◌&&◌, ◌||◌, Option, none, some, List, [], ◌∷◌, ◌++◌,
  ◌==◌, ltb, leb, if◌then◌else◌, Bytes, length, drop, get_elem?, strcmp_eq, ◌>>=◌,
}
use salt.Diagnostics.{Report, salt_cli_report_stream_status}
use salt.Output.Emit.{OutputMode, text, json}
use salt.Parse.KeyInput.{KeyFormat}
use salt.State.{CliState}
use salt.Status.{
  Status, salt_ok, salt_err_input, salt_err_io, is_ok, salt_max_key_id_len, codes, ErrorBuffer,
}
use salt.Stdio.{Stream}

-- One result of `getopt_long`, with the globals that it sets and the vector as it has permuted it by then.
pub record Got : Type 0 where
  pub argv : List Bytes
  pub opt : ℕ
  pub optarg : Option Bytes
  pub optopt : ℕ
  pub optind : ℕ

-- What `getopt_long` makes of a vector: its results, and the vector and the `optind` behind the last one.
pub record Getopt : Type 0 where
  pub options : List Got
  pub argv : List Bytes
  pub optind : ℕ

pub record Cli : Type 0 where
  pub state : CliState
  pub out_stream : Stream
  pub err_stream : Stream

abbrev pub Run : Type 0
Run = Option (Status × Cli)

-- `argv` is the list of the `argc` arguments, as they stand.
unfoldable pub salt_cli_invalid_option_token : List Bytes → ℕ → Bytes
salt_cli_invalid_option_token argv optind =
    if ltb 0 optind && leb optind (length argv)
    then (elim (get_elem? argv (optind - 1)) [ none ↦ codes "<unknown>" | some token ↦ token ])
    else codes "<unknown>"

-- On a C string.
unfoldable pub salt_cli_bounded_strlen : Bytes → ℕ → ℕ
salt_cli_bounded_strlen value zero = 0
salt_cli_bounded_strlen [] (suc n) = 0
salt_cli_bounded_strlen (c ∷ cs) (suc n) = suc (salt_cli_bounded_strlen cs n)

-- `return salt_cli_report_stream_status(err_stream, ..., rc, ...)`
unfoldable pub report : Status → Bytes → Cli → Status × Cli
report rc message w =
    let r = salt_cli_report_stream_status w.err_stream w.state.error rc message in
    (r.0, record w { state = record w.state { error = r.2 }; err_stream = r.1 })

abbrev pub set_format : KeyFormat → Cli → Run
set_format format w = some (salt_ok, record w { state = record w.state { key_format = format } })

abbrev pub set_mode : OutputMode → Cli → Run
set_mode mode w = some (salt_ok, record w { state = record w.state { output_mode = mode } })

-- `case 'o'` and `case 'f'`
unfoldable pub output_option : Bytes → Cli → Run
unfolding report
output_option arg w =
    if strcmp_eq arg (codes "text")
    then set_mode text w
    else if strcmp_eq arg (codes "json")
    then set_mode json w
    else some (
        report salt_err_input
          (codes "error: invalid output format '" ++ (arg ++ codes "' (expected text|json)\n")) w)

unfoldable pub format_option : Bytes → Cli → Run
unfolding report
format_option arg w =
    if strcmp_eq arg (codes "auto")
    then set_format KeyFormat.auto w
    else if strcmp_eq arg (codes "base64")
    then set_format KeyFormat.base64 w
    else if strcmp_eq arg (codes "json")
    then set_format KeyFormat.json w
    else some (
        report salt_err_input
          (codes "error: invalid key format '" ++ (arg ++ codes "' (expected auto|base64|json)\n"))
          w)

-- `optopt != 0`
abbrev pub is_set : ℕ → Bool
is_set zero = false
is_set (suc n) = true

unfoldable pub salt_cli_handle_option : Got → Cli → Run
unfolding output_option format_option report salt_cli_invalid_option_token
salt_cli_handle_option g w =
    if g.opt == b'k'
    then some (salt_ok, record w { state = record w.state { key_option = g.optarg } })
    else if g.opt == b'i'
    then some (salt_ok, record w { state = record w.state { key_id_option = g.optarg } })
    else if g.opt == b'o'
    then g.optarg >>= (λ arg. output_option arg w)
    else if g.opt == b'f'
    then g.optarg >>= (λ arg. format_option arg w)
    else if g.opt == b'h'
    then some (salt_ok, record w { state = record w.state { show_help = true } })
    else if g.opt == b'V'
    then some (salt_ok, record w { state = record w.state { show_version = true } })
    else if g.opt == b':'
    then some (
        report salt_err_input
          (codes "error: option requires an argument: -" ++ (g.optopt ∷ codes "\n")) w)
    else if is_set g.optopt
    then some
        (report salt_err_input (codes "error: invalid option: -" ++ (g.optopt ∷ codes "\n")) w)
    else some (
        report salt_err_input
          (codes "error: invalid option: "
            ++ (salt_cli_invalid_option_token g.argv g.optind ++ codes "\n"))
          w)

-- The loop over the results of `getopt_long`.
unfoldable pub parse_options : List Got → Cli → Run
parse_options [] w = some (salt_ok, w)
parse_options (g ∷ gs) w = do
  r ← salt_cli_handle_option g w
  let rest = parse_options gs r.1
  if is_ok r.0 then rest else some r

-- `strcmp(p, "-") == 0`
abbrev pub is_dash : Bytes → Bool
is_dash s = strcmp_eq s (codes "-")

-- `state->plaintext_arg == NULL || strcmp(state->plaintext_arg, "-") == 0`
abbrev pub from_stdin : Option Bytes → Bool
from_stdin none = true
from_stdin (some s) = is_dash s

abbrev pub is_io : Status → Bool
is_io salt_err_io = true
is_io _ = false

-- `state->key_id_option != NULL`, with a length that is too large.
abbrev pub key_id_too_long : Option Bytes → Bool
key_id_too_long none = false
key_id_too_long (some id) =
    ltb salt_max_key_id_len (salt_cli_bounded_strlen id (salt_max_key_id_len + 1))

-- Behind the positional arguments: where the key and the plaintext come from.
unfoldable pub choose_sources : Bytes → Cli → Status × Cli
unfolding report
choose_sources key w =
    let key_stdin = is_dash key in
    let plaintext_stdin = from_stdin w.state.plaintext_arg in
    let w' = record w {
      state = record w.state { key_from_stdin = key_stdin; plaintext_from_stdin = plaintext_stdin };
    } in
    if key_stdin && plaintext_stdin
    then report salt_err_input (codes "error: key and plaintext cannot both be read from stdin\n")
        w'
    else (salt_ok, w')

-- `if (optind < argc) state->plaintext_arg = argv[optind++]`, and the arguments behind it.
abbrev pub take_positional : List Bytes → CliState → CliState × List Bytes
take_positional [] s = (s, [])
take_positional (a ∷ rest) s = (record s { plaintext_arg = some a }, rest)

module _ (usage_writer : Stream → Option Bytes → ErrorBuffer → Report)
    (version_writer : Stream → ErrorBuffer → Report) where
  -- A message and the usage, on the error stream.
  unfoldable pub usage_error : Bytes → List Bytes → Cli → Status × Cli
  unfolding report
  usage_error message argv w =
      let r = report salt_err_input message w in
      if is_io r.0
      then r
      else (let u = usage_writer r.1.err_stream (get_elem? argv 0) r.1.state.error in
          let w' = record r.1 { state = record r.1.state { error = u.2 }; err_stream = u.1 } in
          if is_ok u.0 then (salt_err_input, w') else (u.0, w'))

  -- From the check of the key id, with the arguments from `optind` on.
  unfoldable pub check_rest : List Bytes → List Bytes → Bytes → Cli → Status × Cli
  unfolding usage_error choose_sources report
  check_rest argv positional key w =
      if key_id_too_long w.state.key_id_option
      then report salt_err_input (codes "error: --key-id/-i exceeds maximum length (256 bytes)\n") w
      else (let taken = take_positional positional w.state in
          let w' = record w { state = taken.0 } in
          elim taken.1 [
            | [] ↦ choose_sources key w'
            | a ∷ more ↦ usage_error (codes "error: too many positional arguments\n") argv w'
          ])

  unfoldable pub check_arguments : List Bytes → List Bytes → Cli → Status × Cli
  unfolding check_rest usage_error report
  check_arguments argv positional w =
      if w.state.show_help
      then (let u = usage_writer w.out_stream (get_elem? argv 0) w.state.error in
          (u.0, record w { state = record w.state { error = u.2 }; out_stream = u.1 }))
      else if w.state.show_version
      then (let u = version_writer w.out_stream w.state.error in
          (u.0, record w { state = record w.state { error = u.2 }; out_stream = u.1 }))
      else elim w.state.key_option [
        | none ↦ usage_error (codes "error: --key/-k is required\n") argv w
        | some key ↦ elim key [
          | [] ↦ report salt_err_input (codes "error: --key/-k value must not be empty\n") w
          | c ∷ cs ↦ check_rest argv positional (c ∷ cs) w
        ]
      ]

  -- On what `getopt_long` makes of the vector.
  unfoldable pub salt_cli_args_parse_arguments : Getopt → Cli → Run
  unfolding parse_options check_arguments
  salt_cli_args_parse_arguments g w = do
    r ← parse_options g.options w
    if is_ok r.0 then some (check_arguments g.argv (drop g.optind g.argv) r.1) else some r
