-- ===== src/Args/Handled.antt =====
-- src/cli/args.c: a step of the loop over the options.
use salt.Base.{
  ℕ, arith, ◌≡◌, ◌≢◌, refl, Bool, true, false, ◌&&◌, ◌||◌, ◌==◌, Option, none, some, Bool-cases,
  inl, inr, at_true, at_false, if◌then◌else◌, Bytes, strcmp_eq, strcmp_eq_iff, ap, ◌⊎◌, ◌>>=◌,
}
use salt.Args.{report, Got, Cli, Run, salt_cli_handle_option, output_option, format_option, is_set}
use salt.Args.Options.{
  Choice, key_is, key_id_is, mode_is, format_is, help_asked, version_asked, Names, key, key_id,
  output_text, output_json, format_auto, format_base64, format_json, help, version,
}
use salt.Diagnostics.{salt_cli_report_stream_status-status}
use salt.Status.{Status, salt_ok, salt_err_input, is_ok, codes}

-- Which options of the table take an argument.
abbrev pub takes_argument : ℕ → Bool
takes_argument opt = opt == b'k' || opt == b'i' || opt == b'o' || opt == b'f'

abbrev pub is_missing : Option Bytes → Bool
is_missing none = true
is_missing (some a) = false

-- What a choice sets.
abbrev pub set : Choice → Cli → Cli
set (key_is value) w = record w { state = record w.state { key_option = some value } }
set (key_id_is value) w = record w { state = record w.state { key_id_option = some value } }
set (mode_is mode) w = record w { state = record w.state { output_mode = mode } }
set (format_is format) w = record w { state = record w.state { key_format = format } }
set help_asked w = record w { state = record w.state { show_help = true } }
set version_asked w = record w { state = record w.state { show_version = true } }

-- A step of the loop takes an option that the program has, and ends the loop at any other one.
pub data Handled (opt : ℕ) (arg : Option Bytes) (w : Cli) : Run → Type 0 where
  taken : {c : Choice} → Names opt arg c → Handled opt arg w (some (salt_ok, set c w))
  unknown :
      {r : Status × Cli}
      → ((c : Choice) → ¬ Names opt arg c)
      → is_ok r.0 ≡ false
      → Handled opt arg w (some r)

-- The option is none of those of the program.
abbrev Other : ℕ → Type 0
Other opt = (opt ≢ b'k') × (opt ≢ b'i') × (opt ≢ b'o') × (opt ≢ b'f') × (opt ≢ b'h') × (opt ≢ b'V')

Other-Names : (opt : ℕ) (arg : Option Bytes) → Other opt → (c : Choice) → ¬ Names opt arg c
Other-Names opt arg o _ (key e a) = o.0 e
Other-Names opt arg o _ (key_id e a) = o.1 e
Other-Names opt arg o _ (output_text e a) = o.2 e
Other-Names opt arg o _ (output_json e a) = o.2 e
Other-Names opt arg o _ (format_auto e a) = o.3 e
Other-Names opt arg o _ (format_base64 e a) = o.3 e
Other-Names opt arg o _ (format_json e a) = o.3 e
Other-Names opt arg o _ (help e) = o.4 e
Other-Names opt arg o _ (version e) = o.5 e

-- Neither word of `-o`.
no_mode :
    (opt : ℕ) (arg : Bytes)
    → opt ≡ b'o'
    → ¬ (arg ≡ codes "text")
    → ¬ (arg ≡ codes "json")
    → (c : Choice) → ¬ Names opt (some arg) c
no_mode opt arg o t j _ (key e a) = absurd (omega (arith, o, e))
no_mode opt arg o t j _ (key_id e a) = absurd (omega (arith, o, e))
no_mode opt arg o t j _ (output_text e a) = t (cc a)
no_mode opt arg o t j _ (output_json e a) = j (cc a)
no_mode opt arg o t j _ (format_auto e a) = absurd (omega (arith, o, e))
no_mode opt arg o t j _ (format_base64 e a) = absurd (omega (arith, o, e))
no_mode opt arg o t j _ (format_json e a) = absurd (omega (arith, o, e))
no_mode opt arg o t j _ (help e) = absurd (omega (arith, o, e))
no_mode opt arg o t j _ (version e) = absurd (omega (arith, o, e))

-- No word of `-f`.
no_format :
    (opt : ℕ) (arg : Bytes)
    → opt ≡ b'f'
    → ¬ (arg ≡ codes "auto")
    → ¬ (arg ≡ codes "base64")
    → ¬ (arg ≡ codes "json")
    → (c : Choice) → ¬ Names opt (some arg) c
no_format opt arg o x y z _ (key e a) = absurd (omega (arith, o, e))
no_format opt arg o x y z _ (key_id e a) = absurd (omega (arith, o, e))
no_format opt arg o x y z _ (output_text e a) = absurd (omega (arith, o, e))
no_format opt arg o x y z _ (output_json e a) = absurd (omega (arith, o, e))
no_format opt arg o x y z _ (format_auto e a) = x (cc a)
no_format opt arg o x y z _ (format_base64 e a) = y (cc a)
no_format opt arg o x y z _ (format_json e a) = z (cc a)
no_format opt arg o x y z _ (help e) = absurd (omega (arith, o, e))
no_format opt arg o x y z _ (version e) = absurd (omega (arith, o, e))

-- `strcmp` tells two words apart.
strcmp_eq-cases :
    (a b : Bytes) → ((strcmp_eq a b ≡ true) × (a ≡ b)) ⊎ ((strcmp_eq a b ≡ false) × ¬ (a ≡ b))
strcmp_eq-cases a b = elim (Bool-cases (strcmp_eq a b)) [
  | inl same ↦ inl (same, (strcmp_eq_iff a b).0 same)
  | inr other ↦ inr (other, λ e. cc (other, (strcmp_eq_iff a b).1 e))
]

-- A report of an error is an error, also where the stream fails.
pub report-refused : (message : Bytes) (w : Cli) → is_ok (report salt_err_input message w).0 ≡ false
unfolding report
report-refused message w =
    elim (salt_cli_report_stream_status-status w.err_stream w.state.error salt_err_input message) [
      | inl e ↦ rw e refl
      | inr e ↦ rw e refl
    ]

output_option-Handled :
    (opt : ℕ) (arg : Bytes) (w : Cli) → opt ≡ b'o' → Handled opt (some arg) w (output_option arg w)
unfolding output_option
output_option-Handled opt arg w o = elim (strcmp_eq-cases arg (codes "text")) [
  | inl (t, e) ↦ at_true (Handled opt (some arg) w) _ _ _ t (taken (output_text o (ap some e)))
  | inr (t, e) ↦
      at_false (Handled opt (some arg) w) _ _ _ t (elim (strcmp_eq-cases arg (codes "json")) [
        | inl (j, f) ↦
            at_true (Handled opt (some arg) w) _ _ _ j (taken (output_json o (ap some f)))
        | inr (j, f) ↦
            at_false (Handled opt (some arg) w) _ _ _ j
              (unknown (no_mode opt arg o e f) (report-refused _ w))
      ])
]

format_option-Handled :
    (opt : ℕ) (arg : Bytes) (w : Cli) → opt ≡ b'f' → Handled opt (some arg) w (format_option arg w)
unfolding format_option
format_option-Handled opt arg w o = elim (strcmp_eq-cases arg (codes "auto")) [
  | inl (x, e) ↦ at_true (Handled opt (some arg) w) _ _ _ x (taken (format_auto o (ap some e)))
  | inr (x, e) ↦
      at_false (Handled opt (some arg) w) _ _ _ x (elim (strcmp_eq-cases arg (codes "base64")) [
        | inl (y, f) ↦
            at_true (Handled opt (some arg) w) _ _ _ y (taken (format_base64 o (ap some f)))
        | inr (y, f) ↦
            at_false (Handled opt (some arg) w) _ _ _ y (elim (strcmp_eq-cases arg (codes "json")) [
              | inl (z, g) ↦
                  at_true (Handled opt (some arg) w) _ _ _ z (taken (format_json o (ap some g)))
              | inr (z, g) ↦
                  at_false (Handled opt (some arg) w) _ _ _ z
                    (unknown (no_format opt arg o e f g) (report-refused _ w))
            ])
      ])
]

-- The argument of an option that takes one.
given :
    (opt : ℕ) (arg : Option Bytes)
    → (takes_argument opt && is_missing arg) ≡ false
    → takes_argument opt ≡ true
    → (value : Bytes) × (arg ≡ some value)
given opt none h t = let f : true ≡ false = rw t at h in absurd (cc f)
given opt (some value) h t = (value, refl)

pub salt_cli_handle_option-Handled :
    (g : Got) (w : Cli)
    → (takes_argument g.opt && is_missing g.optarg) ≡ false
    → Handled g.opt g.optarg w (salt_cli_handle_option g w)
unfolding salt_cli_handle_option
salt_cli_handle_option-Handled g w h = elim (Bool-cases (g.opt == b'k')) [
  | inl k ↦
      let e : g.opt ≡ b'k' = ground arith in
      let (value, at) = given g.opt g.optarg h (rw e refl) in
      at_true Ends _ _ _ k (rw at (taken (key e refl)))
  | inr k ↦ at_false Ends _ _ _ k (elim (Bool-cases (g.opt == b'i')) [
    | inl i ↦
        let e : g.opt ≡ b'i' = ground arith in
        let (value, at) = given g.opt g.optarg h (rw e refl) in
        at_true Ends _ _ _ i (rw at (taken (key_id e refl)))
    | inr i ↦ at_false Ends _ _ _ i (elim (Bool-cases (g.opt == b'o')) [
      | inl o ↦
          let e : g.opt ≡ b'o' = ground arith in
          let (value, at) = given g.opt g.optarg h (rw e refl) in
          at_true Ends _ _ _ o (rw (at, ◌>>=◌) (output_option-Handled g.opt value w e))
      | inr o ↦ at_false Ends _ _ _ o (elim (Bool-cases (g.opt == b'f')) [
        | inl f ↦
            let e : g.opt ≡ b'f' = ground arith in
            let (value, at) = given g.opt g.optarg h (rw e refl) in
            at_true Ends _ _ _ f (rw (at, ◌>>=◌) (format_option-Handled g.opt value w e))
        | inr f ↦ at_false Ends _ _ _ f (elim (Bool-cases (g.opt == b'h')) [
          | inl a ↦ at_true Ends _ _ _ a (taken (help (ground arith)))
          | inr a ↦ at_false Ends _ _ _ a (elim (Bool-cases (g.opt == b'V')) [
            | inl v ↦ at_true Ends _ _ _ v (taken (version (ground arith)))
            | inr v ↦ at_false Ends _ _ _ v (
                let other : Other g.opt = (
                  ground arith,
                  ground arith,
                  ground arith,
                  ground arith,
                  ground arith,
                  ground arith,
                ) in
                let none_of = Other-Names g.opt g.optarg other in
                choice-Handled (g.opt == b':') _ _ (unknown none_of (report-refused _ w)) (
                  choice-Handled (is_set g.optopt) _ _ (unknown none_of (report-refused _ w))
                    (unknown none_of (report-refused _ w))))
          ])
        ])
      ])
    ])
  ])
]
  where
    Ends : Run → Type 0
    Ends = Handled g.opt g.optarg w

    choice-Handled : (b : Bool) (x y : Run) → Ends x → Ends y → Ends (if b then x else y)
    choice-Handled true x y h k = h
    choice-Handled false x y h k = k
