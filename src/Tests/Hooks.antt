-- ===== src/Tests/Hooks.antt =====
-- src/cli/test_hooks.c at concrete hooks, numbers for the functions.
use salt.Base.{refl, ℕ, ◌≡◌, true, false, none, some}
use salt.Hooks.{
  Hooks, salt_cli_set_test_hooks, salt_cli_set_stream_test_hooks, salt_cli_reset_test_hooks,
  salt_cli_test_set_interrupted,
}
use salt.Signals
use salt.Signals.{Process}
use salt.Tests.Signals.{numbers, process}

abbrev libc : Hooks ℕ
libc = record {
  alloc_impl = 1;
  free_impl = 2;
  seal_impl = 3;
  required_output_len_impl = 4;
  fread_impl = 5;
  ferror_impl = 6;
  fgetc_impl = 7;
  ungetc_impl = 8;
}

-- A test with its own allocator and `fread`, in which a signal arrives.
abbrev used : Hooks ℕ
used =
    salt_cli_set_stream_test_hooks libc (some 50) none none none
      (salt_cli_set_test_hooks libc (some 10) none none libc)

abbrev hit : Process (ℕ × ℕ) ℕ
hit = salt_cli_test_set_interrupted true process

-- A reset puts every standard function back and clears the flag.
reset_run :
    (salt_cli_reset_test_hooks libc numbers (used, hit)).0 ≡ libc
    × ((salt_cli_reset_test_hooks libc numbers (used, hit)).1.interrupted ≡ false)
unfolding salt_cli_reset_test_hooks salt.Signals.salt_cli_reset_interrupted
reset_run = (refl, refl)
