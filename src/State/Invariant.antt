-- ===== src/State/Invariant.antt =====
-- src/cli/state.c: what holds of the state of a run between two steps.
use salt.Base.{
  ℕ, ◌+◌, ◌≡◌, sym, ap, Option, none, some, List, [], ◌∷◌, Bytes, length, length-wiped, wiped,
}
use salt.Seal.Box.Contract.{Holds}
use salt.State.{CliState, salt_cli_state_init}
use salt.State.Cleanup.{WellSized, with_wiped, all_wiped}
use salt.Status.{salt_max_key_input_len, salt_max_key_id_len}

abbrev pub IsWiped : Bytes → Type 0
IsWiped b = b ≡ wiped (length b)

-- Every block that was freed was wiped in full.
abbrev pub AllWiped : List Bytes → Type 0
AllWiped [] = Unit
AllWiped (b ∷ blocks) = IsWiped b × AllWiped blocks

-- Every buffer has the size that it is released with, every freed one was wiped, and the message is no
-- longer than what is at its pointer.
abbrev pub Inv : CliState → Type 0
Inv s = WellSized s × AllWiped s.freed × Holds s.message_len s.message

pub wiped-IsWiped : (n : ℕ) → IsWiped (wiped n)
wiped-IsWiped n = ap wiped (sym (length-wiped n))

pub salt_cli_state_init-Inv :
    (blocks : List Bytes) → AllWiped blocks → Inv (salt_cli_state_init blocks)
unfolding salt_cli_state_init
salt_cli_state_init-Inv blocks h = (
  (
    tt,
    tt,
    tt,
    tt,
    tt,
    length-wiped (salt_max_key_input_len + 1),
    length-wiped (salt_max_key_id_len + 1),
  ),
  h,
  tt,
)

with_wiped-AllWiped :
    (p : Option Bytes) (n : ℕ) (blocks : List Bytes)
    → AllWiped blocks
    → AllWiped (with_wiped p n blocks)
with_wiped-AllWiped none n blocks h = h
with_wiped-AllWiped (some b) n blocks h = (wiped-IsWiped n, h)

-- The blocks that a cleanup frees are wiped too.
pub all_wiped-AllWiped : (s : CliState) → Inv s → AllWiped (all_wiped s)
all_wiped-AllWiped s (sized, h, m) = with_wiped-AllWiped s.trimmed_key_input _ _ (
    with_wiped-AllWiped s.argv_plaintext_copy _ _ (
      with_wiped-AllWiped s.stdin_plaintext _ _
        (with_wiped-AllWiped s.stdin_key _ _ (with_wiped-AllWiped s.output _ _ h))))
