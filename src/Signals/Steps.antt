-- ===== src/Signals/Steps.antt =====
-- src/cli/signal.c: the process as the file's functions and the arrival of signals change it, in any
-- order in which the program can call them.
use salt.Base.{◌≡◌, refl, ◌∙◌, inl, inr, Bool, none, some, Option-cases, true, false}
use salt.Signals.{
  sigint, sigterm, Sigaction, Documented, Process, set_anyway, salt_cli_signal_handler,
  salt_cli_ensure_signal_handlers, salt_cli_restore_signal_handlers, salt_cli_reset_interrupted,
}
use salt.Signals.Restored.{SameActions, set_anyway-sets, sigint-keeps, sigterm-keeps}

module _ {T D : Type 0} (a : Sigaction T D) where
  -- One step. The handlers are installed where nothing is saved; a signal arrives at any time.
  pub data Step : Process T D → Process T D → Type 0 where
    installs :
        {p : Process T D} (sigemptyset_ok : Bool)
        → p.saved_sigint ≡ none
        → p.saved_sigterm ≡ none
        → Step p (salt_cli_ensure_signal_handlers a sigemptyset_ok p).1
    arrives : {p : Process T D} → Step p (salt_cli_signal_handler a p)
    resets : {p : Process T D} → Step p (salt_cli_reset_interrupted a p)
    restores : {p : Process T D} → Step p (salt_cli_restore_signal_handlers a p)

  pub data Steps : Process T D → Process T D → Type 0 where
    done : {p : Process T D} → Steps p p
    more : {p q r : Process T D} → Steps p q → Step q r → Steps p r

module _ {T D : Type 0} (a : Sigaction T D) (d : Documented a) where
  -- Nothing is saved and the dispositions are the first ones; or the first ones are saved, both of them.
  pub data Tracks (first : T) (p : Process T D) : Type 0 where
    untouched :
        p.saved_sigint ≡ none
        → p.saved_sigterm ≡ none
        → SameActions a d p.table first
        → Tracks first p
    saved :
        p.saved_sigint ≡ some (a.current sigint first)
        → p.saved_sigterm ≡ some (a.current sigterm first)
        → Tracks first p

  -- Both are put back.
  both_back :
      (first t : T)
      → SameActions a d
          (set_anyway a sigterm
            (a.current sigterm first)
            (set_anyway a sigint (a.current sigint first) t))
          first
  both_back first t = (
    sigterm-keeps a d first (set_anyway a sigint (a.current sigint first) t)
        ∙ set_anyway-sets a d sigint first t,
    set_anyway-sets a d sigterm first (set_anyway a sigint (a.current sigint first) t),
  )

  restore-SameActions :
      (first : T) (p : Process T D)
      → Tracks first p
      → SameActions a d (salt_cli_restore_signal_handlers a p).table first
  unfolding salt_cli_restore_signal_handlers
  restore-SameActions first p (untouched i t same) = rw (i, t) same
  restore-SameActions first p (saved i t) = rw (i, t) (both_back first p.table)

  ensure-Tracks :
      (first : T) (ok : Bool) (p : Process T D)
      → p.saved_sigint ≡ none
      → p.saved_sigterm ≡ none
      → SameActions a d p.table first
      → Tracks first (salt_cli_ensure_signal_handlers a ok p).1
  unfolding salt_cli_ensure_signal_handlers
  ensure-Tracks first false p i t same = untouched i t same
  ensure-Tracks first true p i t same = elim (Option-cases (a.set sigint a.handler p.table)) [
    | inl e ↦ rw e (untouched i t same)
    | inr (u, e) ↦ rw e (elim (Option-cases (a.set sigterm a.handler u)) [
      | inl f ↦ rw f (
          untouched refl t (
            set_anyway-sets a d sigint p.table u ∙ same.0,
            sigint-keeps a d p.table u ∙ d.keeps_sigterm a.handler p.table u e ∙ same.1,
          ))
      | inr (v, f) ↦
          rw f (saved (rw same.0 refl) (rw (d.keeps_sigterm a.handler p.table u e, same.1) refl))
    ])
  ]

  Step-Tracks : (first : T) {p q : Process T D} → Step a p q → Tracks first p → Tracks first q
  unfolding salt_cli_signal_handler salt_cli_reset_interrupted salt_cli_restore_signal_handlers
  Step-Tracks first (installs ok i t) (untouched i' t' same) = ensure-Tracks first ok _ i t same
  Step-Tracks first (installs ok i t) (saved i' t') = absurd (cc (i, i'))
  Step-Tracks first arrives (untouched i t same) = untouched i t same
  Step-Tracks first arrives (saved i t) = saved i t
  Step-Tracks first resets (untouched i t same) = untouched i t same
  Step-Tracks first resets (saved i t) = saved i t
  Step-Tracks first (restores {p = p}) h = untouched refl refl (restore-SameActions first p h)

  Steps-Tracks : (first : T) {p q : Process T D} → Steps a p q → Tracks first p → Tracks first q
  Steps-Tracks first done h = h
  Steps-Tracks first (more steps step) h = Step-Tracks first step (Steps-Tracks first steps h)

  -- With a `sigaction` that keeps its documentation, and nothing saved at first: whatever installations,
  -- restorations, resets and signals follow one another, an installation only where nothing is saved, the
  -- saved dispositions are both of the first ones or none, with the first ones then in force; and a
  -- restoration at any such moment puts the first dispositions of both signals in force.
  pub Steps-restored :
      {p q : Process T D}
      → p.saved_sigint ≡ none
      → p.saved_sigterm ≡ none
      → Steps a p q
      → Tracks p.table q × SameActions a d (salt_cli_restore_signal_handlers a q).table p.table
  Steps-restored {p = p} {q = q} i t steps =
      let h = Steps-Tracks p.table steps (untouched i t (refl, refl)) in
      (h, restore-SameActions p.table q h)
