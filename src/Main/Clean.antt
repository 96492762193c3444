-- ===== src/Main/Clean.antt =====
-- src/main.c: what a run leaves behind, whatever its status.
use salt.Args.{Cli, Getopt, salt_cli_args_parse_arguments}
use salt.Args.Keeps.{InvAfter, salt_cli_args_parse_arguments-Inv}
use salt.Args.Loop.{HasArguments}
use salt.Args.Contract.{IsStdin, Ready, Checked, helped, versioned, refused, ready}
use salt.Args.Outcome.{salt_cli_args_parse_arguments-Checked}
use salt.Base.{
  ◌≤◌, ◌≡◌, refl, Bool, true, false, not, ◌&&◌, ◌||◌, Option, none, some, List, Bool-cases, inl,
  inr, at_true, at_false, if◌then◌else◌, Bytes, length, cstr, Every-of_eq, Gives, Gives-bind,
  Gives-choice, Gives-elim, ◌>>=◌,
}
use salt.Input.Load.Keeps.{Present, HasPlaintext, Kept, KeptAfter}
use salt.Input.Load.Keeps.Key.{salt_cli_input_load_key_input-Kept}
use salt.Input.Load.Keeps.Plaintext.{salt_cli_input_load_plaintext-Inv}
use salt.Input.Outcome.{Reads}
use salt.Main.{
  Environment, CliRun, salt_cli_has_valid_argv_shape, pointers, print_usage, print_version,
  write_diagnostic, report_or_io, ◌or_cleanup◌, emit, encrypt, serve, install_failed, start,
  salt_cli_run_with_streams_internal,
}
use salt.Output.Emit.{salt_cli_emit_output}
use salt.Parse.KeyObject.{field_size}
use salt.Prepare.Keeps.{Prepared, salt_cli_prepare_output-Prepared}
use salt.Seal.Key.{max_public_key_b64_len}
use salt.Seal.Sodium.{Sodium, Documented}
use salt.Diagnostics.{salt_cli_set_error}
use salt.Signals
use salt.Signals.{
  Sigaction, Process, salt_cli_ensure_signal_handlers, salt_cli_restore_signal_handlers,
  salt_cli_reset_interrupted,
}
use salt.Signals.Restored.{SameActions, salt_cli_restore_signal_handlers-ensure}
use salt.State.{zeroed, salt_cli_state_init, salt_cli_state_cleanup}
use salt.State.Cleanup.{salt_cli_state_cleanup-all}
use salt.State.Invariant.{AllWiped, Inv, salt_cli_state_init-Inv, all_wiped-AllWiped}
use salt.Status.{
  Status, salt_err_input, salt_err_internal, is_ok, codes, salt_max_key_input_len,
  salt_github_secret_max_value_len,
}

-- What the documentation of the calls promises of what a run meets, with the bytes that the two reads of
-- the standard input have in front of them, and the sizes of the arrays.
pub record Promised (sodium : Sodium) (env : Environment) (key_content plaintext_content : Bytes)
    : Type 0 where
  pub options_given : (argv : List Bytes) → HasArguments (env.getopt_long argv).options
  pub key_reads : Reads env.key_source salt_max_key_input_len key_content
  pub plaintext_reads :
      Reads env.plaintext_source salt_github_secret_max_value_len plaintext_content
  pub field_room : field_size ≤ length env.field
  pub scratch_size : length env.scratch ≡ sodium.public_key_bytes
  pub keys_fit : max_public_key_b64_len sodium ≤ salt_max_key_input_len

-- What follows a step that can end the run.
pub or_cleanup-Gives :
    (P Q : Status × Cli → Type 0) (m : CliRun) (next : Cli → CliRun)
    → Gives P m
    → ((r : Status × Cli) → P r → is_ok r.0 ≡ true → Gives Q (next r.1))
    → ((r : Status × Cli) → P r → is_ok r.0 ≡ false → Q r)
    → Gives Q (m or_cleanup next)
or_cleanup-Gives P Q m next h on_ok on_error = Gives-bind P Q m _ h (λ r p.
    elim (Bool-cases (is_ok r.0)) [
      | inl ok ↦ at_true (Gives Q) (is_ok r.0) _ _ ok (on_ok r p ok)
      | inr bad ↦ at_false (Gives Q) (is_ok r.0) _ _ bad (on_error r p bad)
    ])

choice-Inv :
    (b : Bool) (x y : Status × Cli) → InvAfter x → InvAfter y → InvAfter (if b then x else y)
choice-Inv true x y h k = h
choice-Inv false x y h k = k

report_or_io-Inv : (rc : Status) (w : Cli) → Inv w.state → InvAfter (report_or_io rc w)
unfolding write_diagnostic
report_or_io-Inv rc w h = let r = write_diagnostic w in choice-Inv (is_ok r.0) (rc, r.1) _ h h

pub emit-Inv : (w : Cli) → Present w.state.output → Inv w.state → Gives InvAfter (emit w)
unfolding emit
emit-Inv w there h =
    Gives-bind (λ (b : Bytes). Unit {0}) InvAfter w.state.output _ there
      (λ output u.
        let r =
          salt_cli_emit_output w.state.output_mode (cstr output) w.state.effective_key_id
            (record { stream = w.out_stream; error = w.state.error }) in
        let w' : Cli = record w {
          state = record w.state { error = r.1.error };
          out_stream = r.1.stream;
        } in
        choice-Inv (is_ok r.0) (r.0, w') (report_or_io r.0 w') h (report_or_io-Inv r.0 w' h))

pub or_true : (b : Bool) → (b || true) ≡ true
or_true true = refl
or_true false = refl

pub from_ready :
    (g : Getopt) (w v : Cli)
    → Ready g w v
    → HasPlaintext v.state.plaintext_from_stdin v.state.plaintext_arg
from_ready g w v r = by_arg v.state.plaintext_from_stdin v.state.plaintext_arg r.plaintext_source.1
  where
    by_arg : (b : Bool) (p : Option Bytes) → (IsStdin p → b ≡ true) → HasPlaintext b p
    by_arg true p h = tt
    by_arg false none h = absurd (cc (h tt))
    by_arg false (some a) h = tt

module _ (sodium : Sodium) (d : Documented sodium) (env : Environment)
    (key_content plaintext_content : Bytes)
    (promised : Promised sodium env key_content plaintext_content) where
  encrypt-Inv :
      (w : Cli) → Present w.state.key_option → Kept w.state → Gives InvAfter (encrypt sodium env w)
  unfolding encrypt
  encrypt-Inv w key_given h =
      or_cleanup-Gives Prepared InvAfter _ emit
        (or_cleanup-Gives InvAfter Prepared _ _
          (or_cleanup-Gives KeptAfter InvAfter _ _
            (salt_cli_input_load_key_input-Kept sodium d env.field promised.field_room
              env.interrupted_by_key env.key_source key_content promised.key_reads w key_given h)
            (λ r k ok.
              salt_cli_input_load_plaintext-Inv sodium d env.plaintext_source plaintext_content
                promised.plaintext_reads env.interrupted_by_plaintext r.1 k.1 k.0)
            (λ r k bad. k.0))
          (λ r k ok.
            salt_cli_prepare_output-Prepared sodium d promised.keys_fit env.scratch
              promised.scratch_size env.interrupted_by_seal r.1 k)
          (λ r k bad. (k, λ ok. absurd (cc (ok, bad)))))
        (λ r k ok. emit-Inv r.1 (k.1 ok) k.0) (λ r k bad. k.0)

  serve-Inv : (argv : List Bytes) (w : Cli) → Inv w.state → Gives InvAfter (serve sodium env argv w)
  unfolding serve write_diagnostic
  serve-Inv argv w h =
      let g = env.getopt_long argv in
      let version = print_version env.version in
      let (r, e, c) =
        Gives-elim (Checked print_usage version g w)
          (salt_cli_args_parse_arguments print_usage version g w)
          (salt_cli_args_parse_arguments-Checked print_usage version g w
            (promised.options_given argv)) in
      let k =
        Every-of_eq InvAfter _ r e (salt_cli_args_parse_arguments-Inv print_usage version g w h) in
      rw (e, ◌>>=◌) (served r c k)
    where
      answered :
          (b : Bool) (v w' : Cli) → Inv v.state → Inv w'.state → Inv (if b then v else w').state
      answered true v w' h k = h
      answered false v w' h k = k

      after :
          (status : Status) (v : Cli)
          → Inv v.state
          → Inv
              (if (v.state.show_help || v.state.show_version) && not (is_ok status)
                then (write_diagnostic v).1
                else v).state
      after status v k =
          answered ((v.state.show_help || v.state.show_version) && not (is_ok status))
            (write_diagnostic v).1 v k k

      served :
          (r : Status × Cli)
          → Checked print_usage (print_version env.version) (env.getopt_long argv) w r
          → InvAfter r
          → Gives InvAfter (
              let asked = r.1.state.show_help || r.1.state.show_version in
              if not (is_ok r.0) || asked
              then some (r.0, if asked && not (is_ok r.0) then (write_diagnostic r.1).1 else r.1)
              else encrypt sodium env r.1)
      served (status, v) (helped cs all asks answers shown) k =
          at_true (Gives InvAfter)
            (not (is_ok status) || (v.state.show_help || v.state.show_version)) _ _
            (rw shown (or_true (not (is_ok status)))) (after status v k)
      served (status, v) (versioned cs all no_help asks answers shown) k =
          at_true (Gives InvAfter)
            (not (is_ok status) || (v.state.show_help || v.state.show_version)) _ _
            (rw (shown, or_true v.state.show_help) (or_true (not (is_ok status))))
            (after status v k)
      served (status, v) (refused e reason) k =
          at_true (Gives InvAfter)
            (not (is_ok status) || (v.state.show_help || v.state.show_version)) _ _ (rw e refl)
            (after status v k)
      served (status, v) (ready r) k =
          Gives-choice InvAfter (v.state.show_help || v.state.show_version) _ _
            (answered ((v.state.show_help || v.state.show_version) && false) (write_diagnostic v).1
              v k k)
            (encrypt-Inv v (rw r.key_given tt) (k, from_ready (env.getopt_long argv) w v r))

  install_failed-Inv : (w : Cli) → Inv w.state → InvAfter (install_failed sodium env w)
  unfolding install_failed
  install_failed-Inv w h =
      let e =
        salt_cli_set_error w.state.error (codes "failed to install signal handlers")
          salt_err_internal in
      report_or_io-Inv e.0 (record w { state = record w.state { error = e.1 } }) h

  module _ {T D : Type 0} (a : Sigaction T D) (kept : Signals.Documented a) where
    -- The state is zero, every block that was freed was wiped in full, and the dispositions of the two
    -- signals are those before the run.
    abbrev pub Clean : Process T D → Status × Cli × Process T D → Type 0
    Clean p r =
        (r.1.state ≡ zeroed r.1.state.freed)
        × AllWiped r.1.state.freed
        × SameActions a kept r.2.table p.table

    -- What a run leaves, where its arguments are those of a program and where they are not.
    abbrev pub Ended : Bool → Cli → Process T D → Status × Cli × Process T D → Type 0
    Ended true w p r = Clean p r
    Ended false w p r = r ≡ (salt_err_input, w, p)

    -- The dispositions can be put back, where the run manages them.
    abbrev pub Restorable : Bool → Process T D → Process T D → Type 0
    Restorable true p q = SameActions a kept (salt_cli_restore_signal_handlers a q).table p.table
    Restorable false p q = SameActions a kept q.table p.table

    put_back :
        (manage : Bool) (p q : Process T D)
        → Restorable manage p q
        → SameActions a kept
            (if manage then salt_cli_restore_signal_handlers a q else q).table
            p.table
    put_back true p q h = h
    put_back false p q h = h

    abbrev pub Started : Bool → Process T D → Status × Cli × Process T D → Type 0
    Started manage p r = Inv r.1.state × Restorable manage p r.2

    pub start-Started :
        (manage : Bool) (argv : List Bytes) (w : Cli) (p : Process T D)
        → p.saved_sigint ≡ none
        → p.saved_sigterm ≡ none
        → Inv w.state
        → Gives (Started manage p) (start sodium env a manage argv w p)
    unfolding start salt_cli_restore_signal_handlers salt_cli_reset_interrupted
    start-Started false argv w p i t h =
        Gives-bind InvAfter (Started false p) _ _ (serve-Inv argv w h) (λ r k. (k, (refl, refl)))
    start-Started true argv w p i t h =
        let installed = salt_cli_ensure_signal_handlers a env.sigemptyset_ok p in
        let back = (salt_cli_restore_signal_handlers-ensure a kept env.sigemptyset_ok p i t).1.0 in
        Gives-choice (Started true p) (is_ok installed.0) _ _
          (Gives-bind InvAfter (Started true p) _ _ (serve-Inv argv w h) (λ r k. (k, back)))
          (install_failed-Inv w h, back)

    -- With a library, streams and a `sigaction` that keep their documentation, arrays of the sizes that
    -- the code declares, and nothing saved of the signals, a run faults nowhere. Where the arguments are
    -- not those of a program or a stream is NULL, it returns SALT_ERR_INPUT and changes nothing.
    -- Otherwise, whatever its status: the state is zero at the end, every block that was freed was wiped
    -- in full, and the dispositions of both signals are those before the run.
    pub salt_cli_run_with_streams_internal-Ended :
        (argv : Option (List (Option Bytes))) (streams_given manage_signals : Bool) (w : Cli)
        (p : Process T D)
        → AllWiped w.state.freed
        → p.saved_sigint ≡ none
        → p.saved_sigterm ≡ none
        → Gives
            (Ended (salt_cli_has_valid_argv_shape argv && streams_given) w p)
            (salt_cli_run_with_streams_internal sodium env a argv streams_given manage_signals w p)
    unfolding salt_cli_run_with_streams_internal salt_cli_has_valid_argv_shape
    salt_cli_run_with_streams_internal-Ended none streams_given manage w p h i t = refl
    salt_cli_run_with_streams_internal-Ended (some given) streams_given manage w p h i t =
        by_shape (salt_cli_has_valid_argv_shape (some given) && streams_given)
      where
        ran : Gives (Clean p) (do
          done ←
              start sodium env a manage
                (pointers given)
                (record w { state = salt_cli_state_init w.state.freed })
                p
          state ← salt_cli_state_cleanup sodium done.1.state
          some (
            done.0,
            record done.1 { state = state },
            if manage then salt_cli_restore_signal_handlers a done.2 else done.2,
          ))
        ran =
            Gives-bind (Started manage p) (Clean p) _ _
              (start-Started manage (pointers given)
                (record w { state = salt_cli_state_init w.state.freed }) p i t
                (salt_cli_state_init-Inv w.state.freed h))
              (λ done k.
                rw (salt_cli_state_cleanup-all sodium d done.1.state k.0.0, ◌>>=◌)
                  (refl, all_wiped-AllWiped done.1.state k.0, put_back manage p done.2 k.1))

        by_shape :
            (b : Bool)
            → Gives (Ended b w p) (
                if b
                then (do
                  done ←
                      start sodium env a manage
                        (pointers given)
                        (record w { state = salt_cli_state_init w.state.freed })
                        p
                  state ← salt_cli_state_cleanup sodium done.1.state
                  some (
                    done.0,
                    record done.1 { state = state },
                    if manage then salt_cli_restore_signal_handlers a done.2 else done.2,
                  ))
                else some (salt_err_input, w, p))
        by_shape true = ran
        by_shape false = refl
