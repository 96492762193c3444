-- ===== src/Args/Keeps.antt =====
-- src/cli/args.c: the invariant of the state behind the parser of the arguments.
use salt.Args.{
  Got, Getopt, Cli, Run, is_dash, from_stdin, is_io, is_set, key_id_too_long, report, output_option,
  format_option, salt_cli_handle_option, parse_options, choose_sources, take_positional,
  usage_error, check_rest, check_arguments, salt_cli_args_parse_arguments,
}
use salt.Base.{
  Bool, true, false, ◌&&◌, Option, none, some, List, [], ◌∷◌, ◌==◌, Bytes, drop, get_elem?,
  strcmp_eq, if◌then◌else◌, ◌>>=◌, Every, Every-bind, Every-choice,
}
use salt.Diagnostics.{Report}
use salt.State.Invariant.{Inv}
use salt.Status.{Status, salt_err_input, is_ok, codes, ErrorBuffer}
use salt.Stdio.{Stream}

abbrev pub InvAfter : Status × Cli → Type 0
InvAfter r = Inv r.1.state

abbrev Keeps : Run → Type 0
Keeps = Every InvAfter

output_option-Inv : (arg : Bytes) (w : Cli) → Inv w.state → Keeps (output_option arg w)
unfolding output_option
output_option-Inv arg w h =
    Every-choice InvAfter (strcmp_eq arg (codes "text")) _ _ h
      (Every-choice InvAfter (strcmp_eq arg (codes "json")) _ _ h h)

format_option-Inv : (arg : Bytes) (w : Cli) → Inv w.state → Keeps (format_option arg w)
unfolding format_option
format_option-Inv arg w h = Every-choice InvAfter (strcmp_eq arg (codes "auto")) _ _ h (
    Every-choice InvAfter (strcmp_eq arg (codes "base64")) _ _ h
      (Every-choice InvAfter (strcmp_eq arg (codes "json")) _ _ h h))

followed-Inv : (p : Option Bytes) (f : Bytes → Run) → ((a : Bytes) → Keeps (f a)) → Keeps (p >>= f)
followed-Inv none f h = tt
followed-Inv (some a) f h = h a

salt_cli_handle_option-Inv : (g : Got) (w : Cli) → Inv w.state → Keeps (salt_cli_handle_option g w)
unfolding salt_cli_handle_option
salt_cli_handle_option-Inv g w h = Every-choice InvAfter (g.opt == b'k') _ _ h (
    Every-choice InvAfter (g.opt == b'i') _ _ h (
      Every-choice InvAfter (g.opt == b'o') _ _
        (followed-Inv g.optarg _ (λ arg. output_option-Inv arg w h))
        (Every-choice InvAfter (g.opt == b'f') _ _
          (followed-Inv g.optarg _ (λ arg. format_option-Inv arg w h))
          (Every-choice InvAfter (g.opt == b'h') _ _ h (
            Every-choice InvAfter (g.opt == b'V') _ _ h (
              Every-choice InvAfter (g.opt == b':') _ _ h
                (Every-choice InvAfter (is_set g.optopt) _ _ h h)))))))

parse_options-Inv : (options : List Got) (w : Cli) → Inv w.state → Keeps (parse_options options w)
unfolding parse_options
parse_options-Inv [] w h = h
parse_options-Inv (g ∷ gs) w h =
    Every-bind InvAfter InvAfter _ _ (salt_cli_handle_option-Inv g w h)
      (λ r k. Every-choice InvAfter (is_ok r.0) _ _ (parse_options-Inv gs r.1 k) k)

-- Of a choice between results.
choice-Inv :
    (b : Bool) (x y : Status × Cli) → InvAfter x → InvAfter y → InvAfter (if b then x else y)
choice-Inv true x y h k = h
choice-Inv false x y h k = k

choose_sources-Inv : (key : Bytes) (w : Cli) → Inv w.state → InvAfter (choose_sources key w)
unfolding choose_sources
choose_sources-Inv key w h = choice-Inv (is_dash key && from_stdin w.state.plaintext_arg) _ _ h h

module _ (usage_writer : Stream → Option Bytes → ErrorBuffer → Report)
    (version_writer : Stream → ErrorBuffer → Report) where
  usage_error-Inv :
      (message : Bytes) (argv : List Bytes) (w : Cli)
      → Inv w.state
      → InvAfter (usage_error usage_writer version_writer message argv w)
  unfolding usage_error
  usage_error-Inv message argv w h =
      let r = report salt_err_input message w in
      let k : Inv r.1.state = h in
      let u = usage_writer r.1.err_stream (get_elem? argv 0) r.1.state.error in
      let w' = record r.1 { state = record r.1.state { error = u.2 }; err_stream = u.1 } in
      choice-Inv (is_io r.0) r (if is_ok u.0 then (salt_err_input, w') else (u.0, w')) k
        (choice-Inv (is_ok u.0) (salt_err_input, w') (u.0, w') k k)

  check_rest-Inv :
      (argv positional : List Bytes) (key : Bytes) (w : Cli)
      → Inv w.state
      → InvAfter (check_rest usage_writer version_writer argv positional key w)
  unfolding check_rest
  check_rest-Inv argv positional key w h =
      choice-Inv (key_id_too_long w.state.key_id_option) _ _ h (by_positional positional)
    where
      by_positional :
          (positional : List Bytes)
          → InvAfter (
              let taken = take_positional positional w.state in
              let w' = record w { state = taken.0 } in
              elim taken.1 [
                | [] ↦ choose_sources key w'
                | a ∷ more ↦
                    usage_error usage_writer version_writer
                      (codes "error: too many positional arguments\n")
                      argv
                      w'
              ])
      by_positional [] = choose_sources-Inv key w h
      by_positional (a ∷ []) =
          choose_sources-Inv key (record w { state = record w.state { plaintext_arg = some a } }) h
      by_positional (a ∷ b ∷ rest) =
          usage_error-Inv _ argv (record w { state = record w.state { plaintext_arg = some a } }) h

  check_arguments-Inv :
      (argv positional : List Bytes) (w : Cli)
      → Inv w.state
      → InvAfter (check_arguments usage_writer version_writer argv positional w)
  unfolding check_arguments
  check_arguments-Inv argv positional w h =
      let u = usage_writer w.out_stream (get_elem? argv 0) w.state.error in
      let v = version_writer w.out_stream w.state.error in
      let helped : Status × Cli =
        (u.0, record w { state = record w.state { error = u.2 }; out_stream = u.1 }) in
      let versioned : Status × Cli =
        (v.0, record w { state = record w.state { error = v.2 }; out_stream = v.1 }) in
      let ended = by_key w.state.key_option in
      choice-Inv w.state.show_help helped _ h (choice-Inv w.state.show_version versioned _ h ended)
    where
      by_key :
          (key : Option Bytes)
          → InvAfter (elim key [
            | none ↦
                usage_error usage_writer version_writer
                  (codes "error: --key/-k is required\n")
                  argv
                  w
            | some key ↦ elim key [
              | [] ↦ report salt_err_input (codes "error: --key/-k value must not be empty\n") w
              | c ∷ cs ↦ check_rest usage_writer version_writer argv positional (c ∷ cs) w
            ]
          ])
      by_key none = usage_error-Inv _ argv w h
      by_key (some []) = h
      by_key (some (c ∷ cs)) = check_rest-Inv argv positional (c ∷ cs) w h

  -- Whatever the options are, the parser keeps the buffers and the message of the state.
  pub salt_cli_args_parse_arguments-Inv :
      (g : Getopt) (w : Cli)
      → Inv w.state
      → Keeps (salt_cli_args_parse_arguments usage_writer version_writer g w)
  unfolding salt_cli_args_parse_arguments
  salt_cli_args_parse_arguments-Inv g w h =
      Every-bind InvAfter InvAfter _ _ (parse_options-Inv g.options w h) (λ r k.
        Every-choice InvAfter (is_ok r.0) _ _
          (check_arguments-Inv g.argv (drop g.optind g.argv) r.1 k) k)
