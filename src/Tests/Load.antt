-- ===== src/Tests/Load.antt =====
-- The loaders of src/cli/input.c and src/cli/prepare.c at concrete states.
use salt.Args.{Cli}
use salt.Base.{◌+◌, refl, arith, true, false, some, [], ◌∷◌, ◌++◌, length-wiped, cstr, Gives}
use salt.Input.Load.{salt_cli_input_load_key_input, salt_cli_input_load_plaintext}
use salt.Input.Load.Keeps.{KeptAfter}
use salt.Input.Load.Keeps.Key.{salt_cli_input_load_key_input-Kept}
use salt.Input.Load.Keeps.Plaintext.{salt_cli_input_load_plaintext-Inv}
use salt.Args.Keeps.{InvAfter}
use salt.Input.Load.Result.Key.{salt_cli_input_load_key_input-KeyLoads}
use salt.Input.Load.Result.Parsed.{KeyLoads}
use salt.Input.Load.Result.Plaintext.{Loaded, NotEmpty, salt_cli_input_load_plaintext-Loads}
use salt.Parse.Whitespace.Trim.{trim}
use salt.Prepare.{salt_cli_prepare_output}
use salt.Prepare.Keeps.{Prepared, salt_cli_prepare_output-Prepared}
use salt.Prepare.Result.{Prepares, salt_cli_prepare_output-Prepares}
use salt.State.{zeroed}
use salt.State.Invariant.{Inv}
use salt.Status.{codes, salt_max_key_input_len, salt_max_key_id_len}
use salt.Tests.Args.{silent}
use salt.Tests.Main.{unread, piped, silence, piped-Reads}
use salt.Tests.Seal.{small, small-Documented}

-- salt -k abc, with a secret of two bytes in the pipe.
abbrev options : Cli
options = record {
  state = record (zeroed []) { key_option = some (codes " abc"); plaintext_from_stdin = true };
  out_stream = silent;
  err_stream = silent;
}

options-Inv : Inv options.state
options-Inv = (
  (
    tt,
    tt,
    tt,
    tt,
    tt,
    length-wiped (salt_max_key_input_len + 1),
    length-wiped (salt_max_key_id_len + 1),
  ),
  tt,
  tt,
)

salt_cli_input_load_key_input-Kept_example : Gives KeptAfter (
    salt_cli_input_load_key_input small
      (codes "01234567890123456789012345678901")
      unread
      false
      options)
salt_cli_input_load_key_input-Kept_example =
    salt_cli_input_load_key_input-Kept small small-Documented
      (codes "01234567890123456789012345678901") (omega arith) false unread []
      (silence unread refl refl _) options tt (options-Inv, tt)

salt_cli_input_load_plaintext-Inv_example :
    Gives InvAfter (salt_cli_input_load_plaintext small piped false options)
salt_cli_input_load_plaintext-Inv_example =
    salt_cli_input_load_plaintext-Inv small small-Documented piped (codes "xy") piped-Reads false
      options tt options-Inv

salt_cli_input_load_key_input-KeyLoads_example :
    Gives (KeyLoads (trim (cstr (codes " abc"))) options) (
      salt_cli_input_load_key_input small
        (codes "01234567890123456789012345678901")
        unread
        false
        options)
salt_cli_input_load_key_input-KeyLoads_example =
    salt_cli_input_load_key_input-KeyLoads small small-Documented
      (codes "01234567890123456789012345678901") (omega arith) false unread []
      (silence unread refl refl _) options tt (length-wiped (salt_max_key_input_len + 1))
      (length-wiped (salt_max_key_id_len + 1))

salt_cli_input_load_plaintext-Loads_example :
    Gives
      (NotEmpty small small-Documented piped (codes "xy") piped-Reads options)
      (salt_cli_input_load_plaintext small piped false options)
salt_cli_input_load_plaintext-Loads_example =
    salt_cli_input_load_plaintext-Loads small small-Documented piped (codes "xy") piped-Reads false
      options tt

-- A message of two bytes.
abbrev loaded : Cli
loaded = record options {
  state = record options.state { message = some (codes "xy" ++ 0 ∷ []); message_len = 2 };
}

loaded-Inv : Inv loaded.state
loaded-Inv = (
  (
    tt,
    tt,
    tt,
    tt,
    tt,
    length-wiped (salt_max_key_input_len + 1),
    length-wiped (salt_max_key_id_len + 1),
  ),
  tt,
  omega arith,
)

loaded-Loaded : Loaded (codes "xy") loaded.state
loaded-Loaded = record {
  buffer = codes "xy" ++ 0 ∷ [];
  message_at = refl;
  len = refl;
  holds = refl;
}

salt_cli_prepare_output-Prepares_example :
    Gives
      (Prepares small (codes "xy") loaded)
      (salt_cli_prepare_output small (codes "???") false loaded)
salt_cli_prepare_output-Prepares_example =
    salt_cli_prepare_output-Prepares small small-Documented (omega arith) (codes "???") refl
      (codes "xy") false loaded loaded-Inv loaded-Loaded

salt_cli_prepare_output-Prepared_example :
    Gives Prepared (salt_cli_prepare_output small (codes "???") false loaded)
salt_cli_prepare_output-Prepared_example =
    salt_cli_prepare_output-Prepared small small-Documented (omega arith) (codes "???") refl false
      loaded loaded-Inv
