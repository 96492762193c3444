-- ===== src/Hooks.antt =====
-- src/cli/test_hooks.c: the functions that the CLI calls through pointers, and the hooks of the tests.
-- `Code` is the type of what a function pointer points to.
use salt.Base.{Bool, Option, none, some}
use salt.Signals.{Sigaction, Process, salt_cli_reset_interrupted}

-- The file's variables.
pub record Hooks (Code : Type 0) : Type 0 where
  pub alloc_impl : Code
  pub free_impl : Code
  pub seal_impl : Code
  pub required_output_len_impl : Code
  pub fread_impl : Code
  pub ferror_impl : Code
  pub fgetc_impl : Code
  pub ungetc_impl : Code

-- `(hook != NULL) ? hook : standard`
abbrev pub or_standard : {Code : Type 0} → Option Code → Code → Code
or_standard none standard = standard
or_standard (some hook) standard = hook

-- `standard` has what the variables are initialized with: malloc, free, salt_seal_base64,
-- salt_required_base64_output_len, fread, ferror, fgetc and ungetc.
module _ {Code : Type 0} (standard : Hooks Code) where
  unfoldable pub salt_cli_set_test_hooks :
      Option Code → Option Code → Option Code → Hooks Code → Hooks Code
  salt_cli_set_test_hooks alloc_hook free_hook seal_hook h = record h {
    alloc_impl = or_standard alloc_hook standard.alloc_impl;
    free_impl = or_standard free_hook standard.free_impl;
    seal_impl = or_standard seal_hook standard.seal_impl;
  }

  unfoldable pub salt_cli_set_output_len_test_hook : Option Code → Hooks Code → Hooks Code
  salt_cli_set_output_len_test_hook output_len_hook h = record h {
    required_output_len_impl = or_standard output_len_hook standard.required_output_len_impl;
  }

  unfoldable pub salt_cli_set_stream_test_hooks :
      Option Code → Option Code → Option Code → Option Code → Hooks Code → Hooks Code
  salt_cli_set_stream_test_hooks fread_hook ferror_hook fgetc_hook ungetc_hook h = record h {
    fread_impl = or_standard fread_hook standard.fread_impl;
    ferror_impl = or_standard ferror_hook standard.ferror_impl;
    fgetc_impl = or_standard fgetc_hook standard.fgetc_impl;
    ungetc_impl = or_standard ungetc_hook standard.ungetc_impl;
  }

  unfoldable pub salt_cli_reset_stream_test_hooks : Hooks Code → Hooks Code
  unfolding salt_cli_set_stream_test_hooks
  salt_cli_reset_stream_test_hooks h = salt_cli_set_stream_test_hooks none none none none h

  -- The hooks, and the variables of src/cli/signal.c.
  unfoldable pub salt_cli_reset_test_hooks :
      {T D : Type 0} → Sigaction T D → Hooks Code × Process T D → Hooks Code × Process T D
  unfolding salt_cli_set_test_hooks salt_cli_reset_stream_test_hooks
  salt_cli_reset_test_hooks a (h, p) =
      let h₁ = salt_cli_set_test_hooks none none none h in
      let h₂ = record h₁ { required_output_len_impl = standard.required_output_len_impl } in
      (salt_cli_reset_stream_test_hooks h₂, salt_cli_reset_interrupted a p)

-- The flag that a signal sets, set by a test.
unfoldable pub salt_cli_test_set_interrupted : {T D : Type 0} → Bool → Process T D → Process T D
salt_cli_test_set_interrupted interrupted p = record p { interrupted = interrupted }
