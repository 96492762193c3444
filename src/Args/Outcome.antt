-- ===== src/Args/Outcome.antt =====
-- src/cli/args.c, `salt_cli_args_parse_arguments`: what it accepts, what it answers and what it refuses.
use salt.Base.{
  ℕ, zero, suc, ◌+◌, ◌<◌, ◌≡◌, refl, sym, ap, ◌∙◌, arith, inl, inr, true, false, ◌&&◌, Option, none,
  some, List, [], ◌∷◌, ltb, Bool-cases, at_true, at_false, if◌then◌else◌, Bytes, length, drop,
  get_elem?, strcmp_eq_iff, ◌↔◌, Gives, ◌>>=◌,
}
use salt.Args.{
  Getopt, Cli, is_dash, from_stdin, is_io, key_id_too_long, report, choose_sources, take_positional,
  usage_error, check_rest, check_arguments, parse_options, salt_cli_args_parse_arguments,
  salt_cli_bounded_strlen,
}
use salt.Args.Contract.{
  IdFits, IsStdin, Operand, omitted, given, operands, unknown_option, no_key, empty_key,
  long_key_id, many_operands, both_from_stdin, Checked, helped, versioned, refused, ready,
}
use salt.Args.Handled.{report-refused}
use salt.Args.Loop.{HasArguments, Looped, took_all, stopped, parse_options-Looped}
use salt.Args.Options.{Choice, AllNamed, Chosen, last_key}
use salt.Diagnostics.{Report}
use salt.Status.{
  Status, salt_ok, salt_err_input, salt_err_crypto, salt_err_internal, salt_err_signal, salt_err_io,
  is_ok, codes, salt_max_key_id_len, ErrorBuffer,
}
use salt.Stdio.{Stream}

bounded_strlen-length :
    (s : Bytes) (n : ℕ) → salt_cli_bounded_strlen s n ≡ (if ltb (length s) n then length s else n)
unfolding salt_cli_bounded_strlen
bounded_strlen-length s zero = ground arith
bounded_strlen-length [] (suc n) = ground arith
bounded_strlen-length (c ∷ cs) (suc n) = ground (arith, bounded_strlen-length cs n)

key_id_too_long-length :
    (id : Option Bytes)
    → key_id_too_long id ≡ true
    → (value : Bytes) × (id ≡ some value) × (salt_max_key_id_len < length value)
key_id_too_long-length none h = absurd (cc h)
key_id_too_long-length (some id) h =
    (id, refl, ground (arith, bounded_strlen-length id (salt_max_key_id_len + 1)))

key_id-IdFits : (id : Option Bytes) → key_id_too_long id ≡ false → IdFits id
key_id-IdFits none h = tt
key_id-IdFits (some id) h = ground (arith, bounded_strlen-length id (salt_max_key_id_len + 1))

from_stdin-IsStdin : (p : Option Bytes) → (from_stdin p ≡ true) ↔ IsStdin p
from_stdin-IsStdin none = (λ e. tt, λ u. refl)
from_stdin-IsStdin (some a) = strcmp_eq_iff a (codes "-")

module _ (usage_writer : Stream → Option Bytes → ErrorBuffer → Report)
    (version_writer : Stream → ErrorBuffer → Report) where
  not_io : (s : Status) → is_io s ≡ true → is_ok s ≡ false
  not_io salt_err_io e = refl
  not_io salt_ok e = absurd (cc e)
  not_io salt_err_input e = refl
  not_io salt_err_crypto e = refl
  not_io salt_err_internal e = refl
  not_io salt_err_signal e = refl

  usage_error-refused :
      (message : Bytes) (argv : List Bytes) (w : Cli)
      → is_ok (usage_error usage_writer version_writer message argv w).0 ≡ false
  unfolding usage_error
  usage_error-refused message argv w =
      let r = report salt_err_input message w in
      let u = usage_writer r.1.err_stream (get_elem? argv 0) r.1.state.error in
      elim (Bool-cases (is_io r.0)) [
        | inl io ↦ at_true Bad _ _ _ io (not_io r.0 io)
        | inr other ↦ at_false Bad _ _ _ other (elim (Bool-cases (is_ok u.0)) [
          | inl ok ↦ at_true Bad _ _ _ ok refl
          | inr bad ↦ at_false Bad _ _ _ bad bad
        ])
      ]
    where
      Bad : Status × Cli → Type 0
      Bad r = is_ok r.0 ≡ false

  module _ (g : Getopt) (w : Cli) (cs : List Choice) (all : AllNamed g.options cs) where
    abbrev Ends : Status × Cli → Type 0
    Ends = Checked usage_writer version_writer g w

    -- What is known of the state behind the loop where neither the help nor the version is asked for.
    abbrev Unasked : Cli → Type 0
    Unasked v = Chosen cs w v × (v.state.show_help ≡ false) × (v.state.show_version ≡ false)

    abbrev with_plaintext : Option Bytes → Cli → Cli
    with_plaintext p v = record v { state = record v.state { plaintext_arg = p } }

    choose_sources-Checked :
        (key : Bytes) (p : Option Bytes) (v : Cli)
        → Unasked v
        → v.state.key_option ≡ some key
        → 0 < length key
        → key_id_too_long v.state.key_id_option ≡ false
        → Operand (operands g) w.state.plaintext_arg p
        → Ends (choose_sources key (with_plaintext p v))
    unfolding choose_sources
    choose_sources-Checked key p v (c, h, s) key_at filled fits operand =
        let dash = strcmp_eq_iff key (codes "-") in
        let stdin = from_stdin-IsStdin p in
        let meant : last_key cs w.state.key_option ≡ some key = sym c.0 ∙ key_at in
        let v' : Cli = record v {
          state = record v.state {
            plaintext_arg = p;
            key_from_stdin = is_dash key;
            plaintext_from_stdin = from_stdin p;
          };
        } in
        elim (Bool-cases (is_dash key && from_stdin p)) [
          | inl both ↦
              let k : key ≡ codes "-" = dash.0 (ground arith) in
              at_true Ends _ _ _ both (
                refused (report-refused _ v')
                  (both_from_stdin cs all (meant ∙ ap some k) p operand (stdin.0 (ground arith))))
          | inr one ↦ at_false Ends _ _ _ one (
              ready (record {
                choices = cs;
                named = all;
                no_help = sym c.4 ∙ h;
                no_version = sym c.5 ∙ s;
                show_no_help = h;
                show_no_version = s;
                key = key;
                key_meant = meant;
                key_given = key_at;
                key_not_empty = filled;
                key_id = c.1;
                key_id_fits = key_id-IdFits v.state.key_id_option fits;
                mode = c.2;
                format = c.3;
                operand = operand;
                key_source = dash;
                plaintext_source = stdin;
                one_from_stdin =
                    λ (e, f). let both : true ≡ false = rw (dash.1 e, stdin.1 f) at one in cc both;
                same_stream = c.8;
              }))
        ]

    check_rest-Checked :
        (rest : List Bytes) (key : Bytes) (v : Cli)
        → operands g ≡ rest
        → Unasked v
        → v.state.key_option ≡ some key
        → 0 < length key
        → Ends (check_rest usage_writer version_writer g.argv rest key v)
    unfolding check_rest
    check_rest-Checked rest key v o c key_at filled =
        elim (Bool-cases (key_id_too_long v.state.key_id_option)) [
          | inl long ↦
              let (id, at, size) = key_id_too_long-length v.state.key_id_option long in
              at_true Ends _ _ _ long
                (refused (report-refused _ v) (long_key_id cs all id (sym c.0.1 ∙ at) size))
          | inr fits ↦ at_false Ends _ _ _ fits (by_positional rest o fits)
        ]
      where
        by_positional :
            (rest : List Bytes)
            → operands g ≡ rest
            → key_id_too_long v.state.key_id_option ≡ false
            → Ends (
                let taken = take_positional rest v.state in
                let v' = record v { state = taken.0 } in
                elim taken.1 [
                  | [] ↦ choose_sources key v'
                  | a ∷ more ↦
                      usage_error usage_writer version_writer
                        (codes "error: too many positional arguments\n")
                        g.argv
                        v'
                ])
        by_positional [] o fits =
            choose_sources-Checked key v.state.plaintext_arg v c key_at filled fits
              (rw (o, c.0.6) omitted)
        by_positional (a ∷ []) o fits =
            choose_sources-Checked key (some a) v c key_at filled fits (rw o given)
        by_positional (a ∷ b ∷ more) o fits =
            refused (usage_error-refused _ g.argv (with_plaintext (some a) v))
              (many_operands a b more o)

    check_arguments-Checked :
        (v : Cli)
        → Chosen cs w v
        → Ends (check_arguments usage_writer version_writer g.argv (operands g) v)
    unfolding check_arguments
    check_arguments-Checked v c = elim (Bool-cases v.state.show_help) [
      | inl h ↦
          at_true Ends _ _ _ h (helped cs all (sym c.4 ∙ h) (rw (c.7, c.8) (refl, refl, refl)) h)
      | inr h ↦ at_false Ends _ _ _ h (elim (Bool-cases v.state.show_version) [
        | inl s ↦
            at_true Ends _ _ _ s
              (versioned cs all (sym c.4 ∙ h) (sym c.5 ∙ s) (rw (c.7, c.8) (refl, refl, refl)) s)
        | inr s ↦ at_false Ends _ _ _ s (by_key v.state.key_option refl (c, h, s))
      ])
    ]
      where
        by_key :
            (option : Option Bytes)
            → v.state.key_option ≡ option
            → Unasked v
            → Ends (elim option [
              | none ↦
                  usage_error usage_writer version_writer
                    (codes "error: --key/-k is required\n")
                    g.argv
                    v
              | some key ↦ elim key [
                | [] ↦ report salt_err_input (codes "error: --key/-k value must not be empty\n") v
                | c ∷ cs ↦ check_rest usage_writer version_writer g.argv (operands g) (c ∷ cs) v
              ]
            ])
        by_key none e u = refused (usage_error-refused _ g.argv v) (no_key cs all (sym u.0.0 ∙ e))
        by_key (some []) e u = refused (report-refused _ v) (empty_key cs all (sym u.0.0 ∙ e))
        by_key (some (x ∷ xs)) e u =
            check_rest-Checked (operands g) (x ∷ xs) v refl u e (omega arith)

  pub salt_cli_args_parse_arguments-Checked :
      (g : Getopt) (w : Cli)
      → HasArguments g.options
      → Gives
          (Checked usage_writer version_writer g w)
          (salt_cli_args_parse_arguments usage_writer version_writer g w)
  unfolding salt_cli_args_parse_arguments
  salt_cli_args_parse_arguments-Checked g w h =
      checked (parse_options g.options w) (parse_options-Looped g.options w h)
    where
      checked :
          (run : Option (Status × Cli))
          → Looped g.options w run
          → Gives (Checked usage_writer version_writer g w) (
              run >>= (λ r.
                if is_ok r.0
                then some
                    (check_arguments usage_writer version_writer g.argv (drop g.optind g.argv) r.1)
                else some r))
      checked _ (took_all {v = v} cs all c) = check_arguments-Checked g w cs all v c
      checked _ (stopped {r = r} none_of bad) =
          at_false (Gives (Checked usage_writer version_writer g w)) (is_ok r.0) _ _ bad
            (refused bad (unknown_option none_of))
