-- ===== src/Args/Contract.antt =====
-- src/cli/args.c, `salt_cli_args_parse_arguments`: the terms in which a call's outcome is described.
use salt.Base.{
  ◌≤◌, ◌<◌, ◌≡◌, true, false, Option, none, some, List, [], ◌∷◌, Bytes, length, drop, get_elem?,
  ◌↔◌,
}
use salt.Args.{Getopt, Cli}
use salt.Args.Options.{
  Choice, AllNamed, last_key, last_key_id, last_mode, last_format, asks_help, asks_version,
}
use salt.Diagnostics.{Report}
use salt.Status.{Status, salt_ok, is_ok, codes, salt_max_key_id_len, ErrorBuffer}
use salt.Stdio.{Stream}

-- A key id, if there is one, is not longer than the limit.
abbrev pub IdFits : Option Bytes → Type 0
IdFits none = Unit
IdFits (some id) = length id ≤ salt_max_key_id_len

-- A plaintext that is left out or is "-" is read from the standard input.
abbrev pub IsStdin : Option Bytes → Type 0
IsStdin none = Unit
IsStdin (some a) = a ≡ codes "-"

-- The plaintext that the operands give: at most one, and without one what was there before.
pub data Operand : List Bytes → Option Bytes → Option Bytes → Type 0 where
  omitted : {before : Option Bytes} → Operand [] before before
  given : {a : Bytes} {before : Option Bytes} → Operand (a ∷ []) before (some a)

-- The operands, as `getopt_long` leaves them.
abbrev pub operands : Getopt → List Bytes
operands g = drop g.optind g.argv

-- The options that a run goes on with: `w` is what the call found and `v` what it leaves.
pub record Ready (g : Getopt) (w v : Cli) : Type 0 where
  pub choices : List Choice
  pub named : AllNamed g.options choices
  pub no_help : asks_help choices w.state.show_help ≡ false
  pub no_version : asks_version choices w.state.show_version ≡ false
  pub show_no_help : v.state.show_help ≡ false
  pub show_no_version : v.state.show_version ≡ false
  pub key : Bytes
  pub key_meant : last_key choices w.state.key_option ≡ some key
  pub key_given : v.state.key_option ≡ some key
  pub key_not_empty : 0 < length key
  pub key_id : v.state.key_id_option ≡ last_key_id choices w.state.key_id_option
  pub key_id_fits : IdFits v.state.key_id_option
  pub mode : v.state.output_mode ≡ last_mode choices w.state.output_mode
  pub format : v.state.key_format ≡ last_format choices w.state.key_format
  pub operand : Operand (operands g) w.state.plaintext_arg v.state.plaintext_arg
  pub key_source : (v.state.key_from_stdin ≡ true) ↔ (key ≡ codes "-")
  pub plaintext_source : (v.state.plaintext_from_stdin ≡ true) ↔ IsStdin v.state.plaintext_arg
  pub one_from_stdin : ¬ ((key ≡ codes "-") × IsStdin v.state.plaintext_arg)
  pub same_stream : v.out_stream ≡ w.out_stream

-- Why a call refuses its arguments.
pub data Refusal (g : Getopt) (w : Cli) : Type 0 where
  unknown_option : ((cs : List Choice) → ¬ AllNamed g.options cs) → Refusal g w
  no_key :
      (cs : List Choice)
      → AllNamed g.options cs
      → last_key cs w.state.key_option ≡ none
      → Refusal g w
  empty_key :
      (cs : List Choice)
      → AllNamed g.options cs
      → last_key cs w.state.key_option ≡ some []
      → Refusal g w
  long_key_id :
      (cs : List Choice)
      → AllNamed g.options cs
      → (id : Bytes) → last_key_id cs w.state.key_id_option ≡ some id
      → salt_max_key_id_len < length id
      → Refusal g w
  many_operands : (a b : Bytes) (more : List Bytes) → operands g ≡ a ∷ b ∷ more → Refusal g w
  both_from_stdin :
      (cs : List Choice)
      → AllNamed g.options cs
      → last_key cs w.state.key_option ≡ some (codes "-")
      → (plaintext : Option Bytes) → Operand (operands g) w.state.plaintext_arg plaintext
      → IsStdin plaintext
      → Refusal g w

-- The status, the output stream and the error buffer are those of a writer.
abbrev pub Answers : Report → Status × Cli → Type 0
Answers u r = (r.0 ≡ u.0) × (r.1.out_stream ≡ u.1) × (r.1.state.error ≡ u.2)

module _ (usage_writer : Stream → Option Bytes → ErrorBuffer → Report)
    (version_writer : Stream → ErrorBuffer → Report) where
  -- The help, the version, an error, or options to go on with.
  pub data Checked (g : Getopt) (w : Cli) : Status × Cli → Type 0 where
    helped :
        {r : Status × Cli} (cs : List Choice)
        → AllNamed g.options cs
        → asks_help cs w.state.show_help ≡ true
        → Answers (usage_writer w.out_stream (get_elem? g.argv 0) w.state.error) r
        → r.1.state.show_help ≡ true
        → Checked g w r
    versioned :
        {r : Status × Cli} (cs : List Choice)
        → AllNamed g.options cs
        → asks_help cs w.state.show_help ≡ false
        → asks_version cs w.state.show_version ≡ true
        → Answers (version_writer w.out_stream w.state.error) r
        → r.1.state.show_version ≡ true
        → Checked g w r
    refused : {r : Status × Cli} → is_ok r.0 ≡ false → Refusal g w → Checked g w r
    ready : {v : Cli} → Ready g w v → Checked g w (salt_ok, v)
