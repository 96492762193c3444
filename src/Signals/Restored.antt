-- ===== src/Signals/Restored.antt =====
-- src/cli/signal.c: the dispositions behind an installation and a restoration of the handlers.
use salt.Base.{◌≡◌, refl, ◌∙◌, ◌⊎◌, inl, inr, Bool, true, false, none, some, Option-cases}
use salt.Signals.{
  Signal, sigint, sigterm, Sigaction, Documented, Process, set_anyway,
  salt_cli_ensure_signal_handlers, salt_cli_restore_signal_handlers,
}
use salt.Status.{Status, salt_ok, salt_err_internal}

module _ {T D : Type 0} (a : Sigaction T D) (d : Documented a) where
  -- The dispositions of both signals are the same.
  abbrev pub SameActions : T → T → Type 0
  SameActions t u =
      (a.current sigint t ≡ a.current sigint u) × (a.current sigterm t ≡ a.current sigterm u)

  -- The handlers at the return: both are installed, or the dispositions are as they were.
  abbrev pub Installed : Process T D → Status × Process T D → Type 0
  Installed p r =
      ((r.0 ≡ salt_ok)
        × (a.current sigint r.1.table ≡ a.handler)
        × (a.current sigterm r.1.table ≡ a.handler))
      ⊎ ((r.0 ≡ salt_err_internal) × SameActions r.1.table p.table)

  -- And a restoration behind it.
  abbrev pub PutBack : Process T D → Status × Process T D → Type 0
  PutBack p r =
      SameActions (salt_cli_restore_signal_handlers a r.1).table p.table
      × (r.1.interrupted ≡ p.interrupted)

  -- A disposition that is put back is current, and the other signal's is kept.
  pub set_anyway-sets :
      (s : Signal) (t u : T) → a.current s (set_anyway a s (a.current s t) u) ≡ a.current s t
  set_anyway-sets s t u =
      let (u', e) = d.sets_again s t u in rw (e, set_anyway) (d.sets s (a.current s t) u u' e)

  pub sigint-keeps :
      (t u : T)
      → a.current sigterm (set_anyway a sigint (a.current sigint t) u) ≡ a.current sigterm u
  sigint-keeps t u =
      let (u', e) = d.sets_again sigint t u in
      rw (e, set_anyway) (d.keeps_sigterm (a.current sigint t) u u' e)

  pub sigterm-keeps :
      (t u : T)
      → a.current sigint (set_anyway a sigterm (a.current sigterm t) u) ≡ a.current sigint u
  sigterm-keeps t u =
      let (u', e) = d.sets_again sigterm t u in
      rw (e, set_anyway) (d.keeps_sigint (a.current sigterm t) u u' e)

  -- With nothing saved and a `sigaction` that keeps its documentation: the installation returns SALT_OK
  -- with the handler for both signals, or SALT_ERR_INTERNAL with the dispositions as they were; and the
  -- restoration behind it leaves the dispositions of both signals as they were before the installation,
  -- whatever that returned, and the flag alone.
  pub salt_cli_restore_signal_handlers-ensure :
      (sigemptyset_ok : Bool) (p : Process T D)
      → p.saved_sigint ≡ none
      → p.saved_sigterm ≡ none
      → Installed p (salt_cli_ensure_signal_handlers a sigemptyset_ok p)
        × PutBack p (salt_cli_ensure_signal_handlers a sigemptyset_ok p)
  unfolding salt_cli_ensure_signal_handlers salt_cli_restore_signal_handlers
  salt_cli_restore_signal_handlers-ensure false p i t =
      (inr (refl, (refl, refl)), rw (i, t) ((refl, refl), refl))
  salt_cli_restore_signal_handlers-ensure true p i t =
      elim (Option-cases (a.set sigint a.handler p.table)) [
        | inl e ↦ rw e (inr (refl, (refl, refl)), rw (i, t) ((refl, refl), refl))
        | inr (u, e) ↦ rw e (elim (Option-cases (a.set sigterm a.handler u)) [
          | inl f ↦ rw f (inr (refl, undone u e), rw t (undone u e, refl))
          | inr (v, f) ↦ rw f (
            inl (
              refl,
              d.keeps_sigint a.handler u v f ∙ d.sets sigint a.handler p.table u e,
              d.sets sigterm a.handler u v f,
            ),
            (
              (
                sigterm-keeps u (set_anyway a sigint (a.current sigint p.table) v)
                    ∙ set_anyway-sets sigint p.table v,
                set_anyway-sets sigterm u (set_anyway a sigint (a.current sigint p.table) v)
                    ∙ d.keeps_sigterm a.handler p.table u e,
              ),
              refl,
            ),
          )
        ])
      ]
    where
      undone :
          (u : T)
          → a.set sigint a.handler p.table ≡ some u
          → SameActions (set_anyway a sigint (a.current sigint p.table) u) p.table
      undone u e = (
        set_anyway-sets sigint p.table u,
        sigint-keeps p.table u ∙ d.keeps_sigterm a.handler p.table u e,
      )
