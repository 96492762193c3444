-- ===== src/Tests/Signals.antt =====
-- src/cli/signal.c at a concrete table.
use salt.Base.{ℕ, ◌≡◌, refl, sym, ap, true, false, none, some}
use salt.Signals.{
  salt_cli_signal_handler, Signal, sigint, sigterm, Sigaction, Documented, Process,
  salt_cli_ensure_signal_handlers, salt_cli_restore_signal_handlers,
}
use salt.Signals.Steps.{Tracks, installs, arrives, done, more, Steps-restored}
use salt.Signals.Restored.{SameActions, Installed, PutBack, salt_cli_restore_signal_handlers-ensure}

-- A table of two numbers; the handler is 7.
abbrev pub numbers : Sigaction (ℕ × ℕ) ℕ
numbers = record {
  current = λ s t. elim s [ sigint ↦ t.0 | sigterm ↦ t.1 ];
  set = λ s x t. elim s [ sigint ↦ some (x, t.1) | sigterm ↦ some (t.0, x) ];
  handler = 7;
}

numbers-sets :
    (s : Signal) (x : ℕ) (t t' : ℕ × ℕ) → numbers.set s x t ≡ some t' → numbers.current s t' ≡ x
numbers-sets sigint x t t' e = let f : (x, t.1) ≡ t' = cc e in ap (λ (u : ℕ × ℕ). u.0) (sym f)
numbers-sets sigterm x t t' e = let f : (t.0, x) ≡ t' = cc e in ap (λ (u : ℕ × ℕ). u.1) (sym f)

numbers-sets_again :
    (s : Signal) (t t' : ℕ × ℕ)
    → (t'' : ℕ × ℕ) × (numbers.set s (numbers.current s t) t' ≡ some t'')
numbers-sets_again sigint t t' = (_, refl)
numbers-sets_again sigterm t t' = (_, refl)

pub numbers-Documented : Documented numbers
numbers-Documented = record {
  sets = numbers-sets;
  keeps_sigterm = λ x t t' e. let f : (x, t.1) ≡ t' = cc e in ap (λ (u : ℕ × ℕ). u.1) (sym f);
  keeps_sigint = λ x t t' e. let f : (t.0, x) ≡ t' = cc e in ap (λ (u : ℕ × ℕ). u.0) (sym f);
  sets_again = numbers-sets_again;
}

abbrev pub process : Process (ℕ × ℕ) ℕ
process = record { table = (1, 2); interrupted = false; saved_sigint = none; saved_sigterm = none }

salt_cli_restore_signal_handlers-ensure_example :
    Installed numbers numbers-Documented process
      (salt_cli_ensure_signal_handlers numbers true process)
    × PutBack numbers numbers-Documented process
        (salt_cli_ensure_signal_handlers numbers true process)
salt_cli_restore_signal_handlers-ensure_example =
    salt_cli_restore_signal_handlers-ensure numbers numbers-Documented true process refl refl

restore_runs :
    salt_cli_restore_signal_handlers numbers
      (salt_cli_ensure_signal_handlers numbers true process).1
    ≡ process
unfolding salt_cli_ensure_signal_handlers salt_cli_restore_signal_handlers
restore_runs = refl

-- The handlers are installed, and a signal arrives.
abbrev hit : Process (ℕ × ℕ) ℕ
hit = salt_cli_signal_handler numbers (salt_cli_ensure_signal_handlers numbers true process).1

Steps-restored_example :
    Tracks numbers numbers-Documented process.table hit
    × SameActions numbers numbers-Documented
        (salt_cli_restore_signal_handlers numbers hit).table
        process.table
Steps-restored_example =
    Steps-restored numbers numbers-Documented refl refl
      (more (more done (installs true refl refl)) arrives)
