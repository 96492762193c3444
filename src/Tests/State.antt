-- ===== src/Tests/State.antt =====
-- src/cli/state.c at concrete buffers.
use salt.Base.{◌+◌, ◌≡◌, refl, true, some, none, [], ◌∷◌, length-wiped}
use salt.State.{CliState, zeroed, salt_cli_state_cleanup, salt_cli_resolve_effective_key_id}
use salt.State.Cleanup.{WellSized, all_wiped, salt_cli_state_cleanup-all}
use salt.Status.{salt_max_key_input_len, salt_max_key_id_len, codes}
use salt.Tests.Seal.{small, small-Documented}

-- An output of two bytes, a copy of one byte, and locked fixed buffers.
abbrev used : CliState
used = record (zeroed []) {
  output = some (1 ∷ 2 ∷ []);
  output_cap = 2;
  argv_plaintext_copy = some (3 ∷ []);
  argv_plaintext_cap = 1;
  fixed_buffers_locked = true;
}

used-WellSized : WellSized used
used-WellSized = (
  refl,
  tt,
  tt,
  refl,
  tt,
  length-wiped (salt_max_key_input_len + 1),
  length-wiped (salt_max_key_id_len + 1),
)

salt_cli_state_cleanup-all_example :
    salt_cli_state_cleanup small used ≡ some (zeroed (all_wiped used))
salt_cli_state_cleanup-all_example =
    salt_cli_state_cleanup-all small small-Documented used used-WellSized

-- The option wins over the parsed key id, unless it is empty.
key_ids :
    ((salt_cli_resolve_effective_key_id (record used {
      key_id_option = some (codes "1");
      parsed_has_key_id = true;
    })).effective_key_id
      ≡ some (codes "1"))
    × ((salt_cli_resolve_effective_key_id (record used {
      key_id_option = some [];
      parsed_key_id = codes "2";
      parsed_has_key_id = true;
    })).effective_key_id
        ≡ some (codes "2"))
    × ((salt_cli_resolve_effective_key_id used).effective_key_id ≡ none)
unfolding salt_cli_resolve_effective_key_id
key_ids = (refl, refl, refl)
