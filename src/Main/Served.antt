-- ===== src/Main/Served.antt =====
-- src/main.c: what a whole run did where it returned SALT_OK.
use salt.Args.{Cli, salt_cli_args_parse_arguments}
use salt.Args.Keeps.{InvAfter, salt_cli_args_parse_arguments-Inv}
use salt.Args.Contract.{Ready, Answers, Checked, helped, versioned, refused, ready}
use salt.Args.Outcome.{salt_cli_args_parse_arguments-Checked}
use salt.Base.{
  ◌∙◌, ap, ◌++◌, get_elem?, Gives-elim, ◌≡◌, refl, Bool, true, false, not, ◌&&◌, ◌||◌, Option, none,
  some, List, [], at_true, at_false, if◌then◌else◌, Bytes, Every-of_eq, Gives, Gives-bind,
  Gives-both, Gives-choice, Gives-map, ◌>>=◌,
}
use salt.Input.Load.Result.{of_error}
use salt.Main.{
  Environment, salt_cli_has_valid_argv_shape, pointers, name_of, usage_text, version_text,
  print_usage, print_version, write_diagnostic, encrypt, serve, install_failed, start,
  salt_cli_run_with_streams_internal,
}
use salt.Main.Clean.{Promised, Started, start-Started, from_ready, or_true}
use salt.Main.Result.{Encrypts, Succeeds, report_or_io-is_error, encrypt-Succeeds}
use salt.Diagnostics.{Report, salt_cli_set_error, salt_cli_write_stream-written}
use salt.Args.Options.{Choice, AllNamed, asks_help, asks_version}
use salt.Seal.Sodium.{Sodium, Documented}
use salt.Signals
use salt.Signals.{
  Sigaction, Process, salt_cli_ensure_signal_handlers, salt_cli_restore_signal_handlers,
}
use salt.State.{salt_cli_state_init, salt_cli_state_cleanup}
use salt.State.Cleanup.{salt_cli_state_cleanup-all}
use salt.State.Invariant.{Inv, AllWiped, salt_cli_state_init-Inv}
use salt.Status.{Status, salt_ok, salt_err_input, is_ok, codes}
use salt.Stdio.{Stream}

-- The arguments, where there are any, and the streams around a state that is initialized.
abbrev pub arguments : Option (List (Option Bytes)) → List Bytes
arguments none = []
arguments (some argv) = pointers argv

abbrev pub initialized : Cli → Cli
initialized w = record w { state = salt_cli_state_init w.state.freed }

-- `getopt_long` leaves the name of the program in its place.
abbrev pub KeepsProgram : Environment → Type 0
KeepsProgram env = (argv : List Bytes) → get_elem? (env.getopt_long argv).argv 0 ≡ get_elem? argv 0

module _ (sodium : Sodium) (env : Environment) (key_content plaintext_content : Bytes) where
  -- What a run did for its arguments, from a state `w` that is initialized: the help or the version was
  -- written, or the plaintext was encrypted.
  pub data Served (argv : List Bytes) (w : Cli) (out_stream : Stream) : Type 0 where
    gave_help :
        (cs : List Choice)
        → AllNamed (env.getopt_long argv).options cs
        → asks_help cs w.state.show_help ≡ true
        → out_stream.written ≡ w.out_stream.written ++ usage_text (name_of (get_elem? argv 0))
        → Served argv w out_stream
    gave_version :
        (cs : List Choice)
        → AllNamed (env.getopt_long argv).options cs
        → asks_help cs w.state.show_help ≡ false
        → asks_version cs w.state.show_version ≡ true
        → out_stream.written ≡ w.out_stream.written ++ version_text env.version
        → Served argv w out_stream
    encrypted :
        {v : Cli}
        → Ready (env.getopt_long argv) w v
        → Encrypts sodium env key_content plaintext_content v out_stream
        → Served argv w out_stream

  abbrev pub Serves : List Bytes → Cli → Status × Cli → Type 0
  Serves argv w r = is_ok r.0 ≡ true → Served argv w r.1.out_stream

  -- A diagnostic is not written to the output stream.
  diagnosed-out_stream :
      (b : Bool) (v : Cli) → (if b then (write_diagnostic v).1 else v).out_stream ≡ v.out_stream
  unfolding write_diagnostic
  diagnosed-out_stream true v = refl
  diagnosed-out_stream false v = refl

  -- What an answer leaves on the output stream, where its status is SALT_OK.
  answered-written :
      (u : Report) (before text : Bytes) (status : Status) (v : Cli) (b : Bool)
      → (is_ok u.0 ≡ true → u.1.written ≡ before ++ text)
      → Answers u (status, v)
      → is_ok status ≡ true
      → (if b then (write_diagnostic v).1 else v).out_stream.written ≡ before ++ text
  answered-written u before text status v b writes (same, stream, error) ok =
      ap (λ (t : Stream). t.written) (diagnosed-out_stream b v)
      ∙ (ap (λ (t : Stream). t.written) stream ∙ writes (rw same at ok))

  module _ (d : Documented sodium) (promised : Promised sodium env key_content plaintext_content)
      (keeps_program : KeepsProgram env) where
    print_usage-written :
        (argv : List Bytes) (w : Cli)
        → let u =
            print_usage w.out_stream (get_elem? (env.getopt_long argv).argv 0) w.state.error in
          is_ok u.0 ≡ true
          → u.1.written ≡ w.out_stream.written ++ usage_text (name_of (get_elem? argv 0))
    unfolding print_usage
    print_usage-written argv w ok =
        let n = (env.getopt_long argv).argv in
        salt_cli_write_stream-written w.out_stream w.state.error
          (codes "failed to write help output") (usage_text (name_of (get_elem? n 0))) ok
        ∙ ap (λ (p : Option Bytes). w.out_stream.written ++ usage_text (name_of p))
            (keeps_program argv)

    print_version-written :
        (w : Cli)
        → let u = print_version env.version w.out_stream w.state.error in
          is_ok u.0 ≡ true → u.1.written ≡ w.out_stream.written ++ version_text env.version
    unfolding print_version
    print_version-written w =
        salt_cli_write_stream-written w.out_stream w.state.error
          (codes "failed to write version output") (version_text env.version)

    abbrev Accepted : List Bytes → Cli → Status × Cli → Type 0
    Accepted argv w r =
        Checked print_usage (print_version env.version) (env.getopt_long argv) w r × InvAfter r

    serve-Serves :
        (argv : List Bytes) (w : Cli)
        → Inv w.state
        → Gives (Serves argv w) (serve sodium env argv w)
    unfolding serve
    serve-Serves argv w h =
        let g = env.getopt_long argv in
        let version = print_version env.version in
        let (r, e, c) =
          Gives-elim (Checked print_usage version g w)
            (salt_cli_args_parse_arguments print_usage version g w)
            (salt_cli_args_parse_arguments-Checked print_usage version g w
              (promised.options_given argv)) in
        let k =
          Every-of_eq InvAfter _ r e
            (salt_cli_args_parse_arguments-Inv print_usage version g w h) in
        rw (e, ◌>>=◌) (served r (c, k))
      where
        -- The run ends with the answer.
        ends_here :
            (status : Status) (v : Cli)
            → (v.state.show_help || v.state.show_version) ≡ true
            → (let asked = v.state.show_help || v.state.show_version in
                Serves argv w
                  (status, if asked && not (is_ok status) then (write_diagnostic v).1 else v))
            → Gives (Serves argv w) (
                let asked = v.state.show_help || v.state.show_version in
                if not (is_ok status) || asked
                then some
                    (status, if asked && not (is_ok status) then (write_diagnostic v).1 else v)
                else encrypt sodium env v)
        ends_here status v asked answer =
            at_true (Gives (Serves argv w))
              (not (is_ok status) || (v.state.show_help || v.state.show_version)) _ _
              (rw asked (or_true (not (is_ok status)))) answer

        served :
            (r : Status × Cli)
            → Accepted argv w r
            → Gives (Serves argv w) (
                let asked = r.1.state.show_help || r.1.state.show_version in
                if not (is_ok r.0) || asked
                then some (r.0, if asked && not (is_ok r.0) then (write_diagnostic r.1).1 else r.1)
                else encrypt sodium env r.1)
        served (status, v) (helped cs all asks answers shown, k) =
            ends_here status v (rw shown refl) (λ ok. gave_help cs all asks (
              answered-written _ w.out_stream.written _ status v _ (print_usage-written argv w)
                answers ok))
        served (status, v) (versioned cs all no_help asks answers shown, k) =
            ends_here status v (rw shown (or_true v.state.show_help)) (λ ok.
              gave_version cs all no_help asks (
                answered-written _ w.out_stream.written _ status v _ (print_version-written w)
                  answers ok))
        served (status, v) (refused bad reason, k) =
            at_true (Gives (Serves argv w))
              (not (is_ok status) || (v.state.show_help || v.state.show_version)) _ _ (rw bad refl)
              (λ ok. of_error _ ok bad)
        served (status, v) (ready r, k) =
            at_false (Gives (Serves argv w)) (v.state.show_help || v.state.show_version) _ _
              (rw (r.show_no_help, r.show_no_version) refl)
              (Gives-map (Succeeds sodium env key_content plaintext_content v) (Serves argv w) _
                (encrypt-Succeeds sodium env key_content plaintext_content d promised v
                  (rw r.key_given tt) (k, from_ready (env.getopt_long argv) w v r))
                (λ x s ok. encrypted r (s ok)))

    install_failed-is_error : (w : Cli) → is_ok (install_failed sodium env w).0 ≡ false
    unfolding install_failed salt_cli_set_error
    install_failed-is_error w = report_or_io-is_error _ _ refl

    module _ {T D : Type 0} (a : Sigaction T D) (kept : Signals.Documented a) where
      abbrev pub RunServes : List Bytes → Cli → Status × Cli × Process T D → Type 0
      RunServes argv w r = is_ok r.0 ≡ true → Served argv w r.1.out_stream

      start-RunServes :
          (manage : Bool) (argv : List Bytes) (w : Cli) (p : Process T D)
          → Inv w.state
          → Gives (RunServes argv w) (start sodium env a manage argv w p)
      unfolding start
      start-RunServes manage argv w p h =
          let installed =
            if manage
            then salt_cli_ensure_signal_handlers a env.sigemptyset_ok p
            else (salt_ok, p) in
          Gives-choice (RunServes argv w) (is_ok installed.0) _ _
            (Gives-bind (Serves argv w) (RunServes argv w) _ _ (serve-Serves argv w h) (λ r s. s))
            (λ ok. of_error _ ok (install_failed-is_error w))

      -- With a library, streams and a `sigaction` that keep their documentation, a `getopt_long`
      -- that sets `optarg` where its documentation says so and leaves the program's name in its
      -- place, arrays of the sizes that the code declares, and nothing saved of the signals, a run
      -- that returns SALT_OK did what its arguments ask for, as `getopt_long` reads them. All of
      -- its options are the program's. With --help among them, the usage text for the program's
      -- name was written to the output stream, and nothing else. With --version and no --help, it
      -- was the line with the version. With neither, the key, the key id, the output mode and the
      -- key format are those of the last options that give them, the plaintext is the one operand
      -- or the standard input, and what was written, all of it, is the text or the JSON document
      -- of the sealed box of exactly that plaintext for the key that was parsed from the key
      -- input.
      pub salt_cli_run_with_streams_internal-Served :
          (argv : Option (List (Option Bytes))) (streams_given manage_signals : Bool) (w : Cli)
          (p : Process T D)
          → AllWiped w.state.freed
          → p.saved_sigint ≡ none
          → p.saved_sigterm ≡ none
          → Gives (RunServes (arguments argv) (initialized w)) (
              salt_cli_run_with_streams_internal sodium env a argv streams_given manage_signals w p)
      unfolding salt_cli_run_with_streams_internal salt_cli_has_valid_argv_shape
      salt_cli_run_with_streams_internal-Served none streams_given manage w p h i t =
          λ ok. of_error salt_err_input ok refl
      salt_cli_run_with_streams_internal-Served (some given) streams_given manage w p h i t =
          Gives-choice (RunServes (pointers given) (initialized w))
            (salt_cli_has_valid_argv_shape (some given) && streams_given) _ _ ran
            (λ ok. of_error salt_err_input ok refl)
        where
          ran : Gives (RunServes (pointers given) (initialized w)) (do
            done ← start sodium env a manage (pointers given) (initialized w) p
            state ← salt_cli_state_cleanup sodium done.1.state
            some (
              done.0,
              record done.1 { state = state },
              if manage then salt_cli_restore_signal_handlers a done.2 else done.2,
            ))
          ran =
              let zero = salt_cli_state_init-Inv w.state.freed h in
              Gives-bind
                (λ r.
                  Started sodium d env key_content plaintext_content promised a kept manage p r
                  × RunServes (pointers given) (initialized w) r)
                (RunServes (pointers given) (initialized w)) _ _
                (Gives-both
                  (Started sodium d env key_content plaintext_content promised a kept manage p)
                  (RunServes (pointers given) (initialized w)) _
                  (start-Started sodium d env key_content plaintext_content promised a kept manage
                    (pointers given) (initialized w) p i t zero)
                  (start-RunServes manage (pointers given) (initialized w) p zero))
                (λ done (k, s).
                  rw (salt_cli_state_cleanup-all sodium d done.1.state k.0.0, ◌>>=◌) s)
