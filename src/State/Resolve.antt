-- ===== src/State/Resolve.antt =====
-- src/cli/state.c, `salt_cli_resolve_effective_key_id`.
use salt.Base.{
  ◌≡◌, refl, Bool, true, false, Option, none, some, [], ◌∷◌, if◌then◌else◌, Bytes, cstr,
}
use salt.State.{CliState, is_filled, salt_cli_resolve_effective_key_id}

-- The key id of the output: that of the options where it is not empty, else that of the key input, else
-- the old one.
abbrev pub resolved_id : Option Bytes → Bool → Bytes → Option Bytes → Option Bytes
resolved_id (some (c ∷ cs)) has_key_id key_id old = some (c ∷ cs)
resolved_id none true key_id old = some (cstr key_id)
resolved_id none false key_id old = old
resolved_id (some []) true key_id old = some (cstr key_id)
resolved_id (some []) false key_id old = old

pub salt_cli_resolve_effective_key_id-resolved :
    (s : CliState)
    → (salt_cli_resolve_effective_key_id s).effective_key_id
      ≡ resolved_id s.key_id_option s.parsed_has_key_id s.parsed_key_id s.effective_key_id
unfolding salt_cli_resolve_effective_key_id
salt_cli_resolve_effective_key_id-resolved s = by_option s.key_id_option s.parsed_has_key_id
  where
    by_option :
        (o : Option Bytes) (b : Bool)
        → (let otherwise : CliState =
              if b then record s { effective_key_id = some (cstr s.parsed_key_id) } else s in
            let resolved : CliState = elim o [
              | none ↦ otherwise
              | some id ↦
                  if is_filled id then record s { effective_key_id = some id } else otherwise
            ] in
            resolved.effective_key_id)
          ≡ resolved_id o b s.parsed_key_id s.effective_key_id
    by_option none true = refl
    by_option none false = refl
    by_option (some []) true = refl
    by_option (some []) false = refl
    by_option (some (c ∷ cs)) b = refl

-- The resolution of the key id changes that field only.
pub resolve-elim :
    (P : CliState → Type 0) (s : CliState)
    → P s
    → ((id : Option Bytes) → P (record s { effective_key_id = id }))
    → P (salt_cli_resolve_effective_key_id s)
unfolding salt_cli_resolve_effective_key_id
resolve-elim P s h k = by_option s.key_id_option
  where
    parsed :
        (b : Bool)
        → P (if b then record s { effective_key_id = some (cstr s.parsed_key_id) } else s)
    parsed true = k _
    parsed false = h

    by_option :
        (o : Option Bytes)
        → P (
            let otherwise =
              if s.parsed_has_key_id
              then record s { effective_key_id = some (cstr s.parsed_key_id) }
              else s in
            elim o [
              | none ↦ otherwise
              | some id ↦
                  if is_filled id then record s { effective_key_id = some id } else otherwise
            ])
    by_option none = parsed s.parsed_has_key_id
    by_option (some []) = parsed s.parsed_has_key_id
    by_option (some (c ∷ cs)) = k _
