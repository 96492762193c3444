-- ===== src/Input/Load/Keeps.antt =====
-- src/cli/input.c: the invariant of the state behind the loaders.
pub mod Key
pub mod Plaintext
use salt.Args.{Cli, Run}
use salt.Args.Keeps.{InvAfter}
use salt.Base.{
  ℕ, ◌+◌, ◌-◌, ◌≤◌, ◌<◌, ◌≡◌, refl, sym, ap, ◌∙◌, arith, ◌⊎◌, inl, inr, Bool, true, false, Option,
  none, some, List, [], ◌∷◌, ◌++◌, ◌==◌, ltb, leb, Bool-cases, Option-cases, at_true, at_false,
  if◌then◌else◌, Bytes, length, length-append, length-take, take, store, cstr, wiped, IsCstr-cstr,
  Every, Every-of_eq, Gives, Gives-bind, Gives-choice, Gives-elim, Gives-intro, ◌>>=◌,
}
use salt.Input.{Source, Reader, cli_input_read_stream_limited}
use salt.Input.Load.{
  cli_bounded_strlen, salt_cli_report_state_error, or_report, check, delivered_block, note_freed,
  reader, read_key, parse_trimmed, copy_key, salt_cli_input_load_key_input,
  salt_cli_load_plaintext_from_argv, read_plaintext, salt_cli_input_load_plaintext,
}
use salt.Input.Load.Buffers.{trimmed-Gives, copy_bytes-closed, first_is_nul-Gives}
use salt.Input.Outcome.{
  Reads, Reason, null_argument, overflow, interrupted, no_memory, failed, too_long, Gone, Outcome,
  delivered, refused, cli_input_read_stream_limited-Outcome,
}
use salt.Parse.KeyObject.{first_is_nul, field_size}
use salt.Parse.Whitespace.{salt_cli_trim_whitespace_inplace}
use salt.Seal.Box.{Block, unallocated, live, freed}
use salt.Seal.Box.Contract.{Holds}
use salt.Seal.Sodium.{Sodium, Documented, trimmed_buffer, argv_buffer, size_max}
use salt.State.{CliState}
use salt.State.Cleanup.{Sized}
use salt.State.Invariant.{AllWiped, Inv, wiped-IsWiped}
use salt.Status.{
  Status, salt_ok, is_ok, salt_max_key_input_len, salt_max_key_id_len,
  salt_github_secret_max_value_len,
}

-- A pointer is not NULL.
abbrev pub Present : Option Bytes → Type 0
Present p = Gives (λ (b : Bytes). Unit {0}) p

-- The plaintext is read from the standard input, or is an argument.
abbrev pub HasPlaintext : Bool → Option Bytes → Type 0
HasPlaintext true p = Unit
HasPlaintext false p = Present p

-- What the loaders of the key keep.
abbrev pub Kept : CliState → Type 0
Kept s = Inv s × HasPlaintext s.plaintext_from_stdin s.plaintext_arg

abbrev pub KeptAfter : Status × Cli → Type 0
KeptAfter r = Kept r.1.state

pub note_freed-AllWiped :
    (n : ℕ) (block : Block) (blocks : List Bytes)
    → Gone n block
    → AllWiped blocks
    → AllWiped (note_freed block blocks)
note_freed-AllWiped n unallocated blocks g h = h
note_freed-AllWiped n (live b) blocks g h = h
note_freed-AllWiped n (freed b) blocks (inl e) h = absurd (cc e)
note_freed-AllWiped n (freed b) blocks (inr e) h =
    let f : b ≡ wiped (n + 1) = cc e in (rw f (wiped-IsWiped (n + 1)), h)

-- A read that was delivered, or that left nothing.
pub record Filled (max_len : ℕ) (content : Bytes) (r : Status × Reader) : Type 0 where
  pub ok : is_ok r.0 ≡ true
  pub fits : length content ≤ max_len
  pub back : Bytes
  pub block_at : r.1.block ≡ live (content ++ 0 ∷ back)
  pub size : length (content ++ 0 ∷ back) ≡ max_len + 1
  pub given : r.1.delivered ≡ true
  pub len_at : r.1.output_len ≡ length content

pub record Emptied (max_len : ℕ) (before : Reader) (r : Status × Reader) : Type 0 where
  pub bad : is_ok r.0 ≡ false
  pub gone : Gone max_len r.1.block
  pub not_given : r.1.delivered ≡ before.delivered
  pub same_len : r.1.output_len ≡ before.output_len

module _ {sodium : Sodium} {source : Source} {max_len : ℕ} {content : Bytes} where
  Reason-is_error :
      {null : Bool} {status : Status}
      → Reason sodium source null max_len content status
      → is_ok status ≡ false
  Reason-is_error (null_argument e) = refl
  Reason-is_error (overflow e) = refl
  Reason-is_error (interrupted e) = refl
  Reason-is_error (no_memory e) = refl
  Reason-is_error (failed e) = refl
  Reason-is_error (too_long e) = refl

  pub Outcome-Gives :
      {null : Bool} {before : Reader} {run : Option (Status × Reader)}
      → Outcome sodium source null max_len content before run
      → Gives (λ (r : Status × Reader). Filled max_len content r ⊎ Emptied max_len before r) run
  Outcome-Gives (delivered back fits at_block size given len) = inl (record {
    ok = refl;
    fits = fits;
    back = back;
    block_at = at_block;
    size = size;
    given = given;
    len_at = len;
  })
  Outcome-Gives (refused reason gone given len) =
      inr (record { bad = Reason-is_error reason; gone = gone; not_given = given; same_len = len })

-- The caller's buffer has its size behind a read.
pub buffer_given :
    (max_len : ℕ) (content : Bytes) (r : Status × Reader) (old : Option Bytes)
    (f : Filled max_len content r)
    → (if r.1.delivered then delivered_block r.1.block else old) ≡ some (content ++ 0 ∷ f.back)
buffer_given max_len content r old f =
    at_true (λ p. p ≡ some (content ++ 0 ∷ f.back)) r.1.delivered _ _ f.given (rw f.block_at refl)

pub buffer_kept :
    (max_len : ℕ) (before : Reader) (r : Status × Reader) (old : Option Bytes)
    → before.delivered ≡ false
    → Emptied max_len before r
    → (if r.1.delivered then delivered_block r.1.block else old) ≡ old
buffer_kept max_len before r old e f = rw (f.not_given, e) refl

pub Filled-AllWiped :
    (max_len : ℕ) (content : Bytes) (r : Status × Reader) (blocks : List Bytes)
    → Filled max_len content r
    → AllWiped blocks
    → AllWiped (note_freed r.1.block blocks)
Filled-AllWiped max_len content r blocks f h = rw f.block_at h
