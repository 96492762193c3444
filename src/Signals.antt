-- ===== src/Signals.antt =====
-- src/cli/signal.c: the handlers of SIGINT and SIGTERM and the flag that they set. `sigaction` is an
-- interface on the table of the process.
pub mod Restored
pub mod Steps
use salt.Base.{◌≡◌, Bool, true, false, Option, none, some, if◌then◌else◌}
use salt.Diagnostics.{salt_cli_set_error}
use salt.Status.{Status, salt_ok, salt_err_internal, salt_err_signal, codes, ErrorBuffer}

pub data Signal : Type 0 where
  sigint sigterm : Signal

-- `sigaction`: the disposition of a signal, and a call that sets it, `none` where it fails; and the
-- disposition with `salt_cli_signal_handler`.
pub record Sigaction (T D : Type 0) : Type 0 where
  pub current : Signal → T → D
  pub set : Signal → D → T → Option T
  pub handler : D

-- What the documentation promises: a call that succeeds sets the disposition of its signal and no other,
-- and what was the disposition of a signal can be set again.
pub record Documented {T D : Type 0} (a : Sigaction T D) : Type 0 where
  pub sets : (s : Signal) (x : D) (t t' : T) → a.set s x t ≡ some t' → a.current s t' ≡ x
  pub keeps_sigterm :
      (x : D) (t t' : T) → a.set sigint x t ≡ some t' → a.current sigterm t' ≡ a.current sigterm t
  pub keeps_sigint :
      (x : D) (t t' : T) → a.set sigterm x t ≡ some t' → a.current sigint t' ≡ a.current sigint t
  pub sets_again : (s : Signal) (t t' : T) → (t'' : T) × (a.set s (a.current s t) t' ≡ some t'')

-- The file's variables, and the table of the process; nothing is saved where the flag is not set.
pub record Process (T D : Type 0) : Type 0 where
  pub table : T
  pub interrupted : Bool
  pub saved_sigint : Option D
  pub saved_sigterm : Option D

module _ {T D : Type 0} (a : Sigaction T D) where
  unfoldable pub salt_cli_signal_handler : Process T D → Process T D
  salt_cli_signal_handler p = record p { interrupted = true }

  -- `(void)sigaction(s, &saved, NULL)`
  abbrev pub set_anyway : Signal → D → T → T
  set_anyway s x t = elim (a.set s x t) [ none ↦ t | some t' ↦ t' ]

  -- `sigemptyset_ok` where `sigemptyset` returned 0.
  unfoldable pub salt_cli_ensure_signal_handlers : Bool → Process T D → Status × Process T D
  salt_cli_ensure_signal_handlers sigemptyset_ok p =
      if sigemptyset_ok
      then (elim (a.set sigint a.handler p.table) [
        | none ↦ (salt_err_internal, p)
        | some t ↦
            let old_sigint = a.current sigint p.table in
            elim (a.set sigterm a.handler t) [
              | none ↦ (
                salt_err_internal,
                record p { table = set_anyway sigint old_sigint t; saved_sigint = none },
              )
              | some t' ↦ (
                salt_ok,
                record p {
                  table = t';
                  saved_sigint = some old_sigint;
                  saved_sigterm = some (a.current sigterm t);
                },
              )
            ]
      ])
      else (salt_err_internal, p)

  abbrev pub put_back : Signal → Option D → T → T
  put_back s none t = t
  put_back s (some x) t = set_anyway s x t

  unfoldable pub salt_cli_restore_signal_handlers : Process T D → Process T D
  salt_cli_restore_signal_handlers p = record p {
    table = put_back sigterm p.saved_sigterm (put_back sigint p.saved_sigint p.table);
    saved_sigint = none;
    saved_sigterm = none;
  }

  unfoldable pub salt_cli_check_interrupted : Process T D → ErrorBuffer → Status × ErrorBuffer
  salt_cli_check_interrupted p e =
      if p.interrupted
      then salt_cli_set_error e (codes "operation interrupted") salt_err_signal
      else (salt_ok, e)

  unfoldable pub salt_cli_reset_interrupted : Process T D → Process T D
  salt_cli_reset_interrupted p = record p { interrupted = false }
