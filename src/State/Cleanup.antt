-- ===== src/State/Cleanup.antt =====
-- src/cli/state.c, `salt_cli_state_cleanup`: the blocks that it frees and what it leaves.
use salt.Base.{
  ℕ, zero, suc, ◌+◌, ◌++◌, length-append, length-wiped, ◌≡◌, refl, arith, Bool, true, false, Option,
  none, some, List, [], ◌∷◌, append-nil, Bytes, length, take, window_total, length-take, wiped,
  ◌>>=◌,
}
use salt.Seal.Box.{release_region}
use salt.Seal.Box.Outcome.{release_region-wiped, drop-all}
use salt.Seal.Sodium.{Sodium, Documented, state_buffer}
use salt.State.{
  CliState, zeroed, error_array, salt_cli_secure_unlock_region, salt_cli_secure_free_region,
  unlock_fixed, salt_cli_state_cleanup,
}
use salt.Status.{
  salt_max_key_input_len, salt_max_key_id_len, salt_github_secret_max_value_len, ErrorBuffer,
}

-- A buffer that is allocated has the size that it is released with.
abbrev pub Sized : Option Bytes → ℕ → Type 0
Sized none n = Unit
Sized (some b) n = length b ≡ n

-- The sizes of all buffers are those that they are released with.
abbrev pub WellSized : CliState → Type 0
WellSized s =
    Sized s.output s.output_cap
    × Sized s.stdin_key (salt_max_key_input_len + 1)
    × Sized s.stdin_plaintext (salt_github_secret_max_value_len + 1)
    × Sized s.argv_plaintext_copy s.argv_plaintext_cap
    × Sized s.trimmed_key_input s.trimmed_key_input_cap
    × (length s.parsed_key_b64 ≡ salt_max_key_input_len + 1)
    × (length s.parsed_key_id ≡ salt_max_key_id_len + 1)

-- The record of the heap with a block, if there is one, that was wiped in full.
abbrev pub with_wiped : Option Bytes → ℕ → List Bytes → List Bytes
with_wiped none n freed = freed
with_wiped (some b) n freed = wiped n ∷ freed

abbrev pub all_wiped : CliState → List Bytes
all_wiped s = with_wiped s.trimmed_key_input s.trimmed_key_input_cap (
    with_wiped s.argv_plaintext_copy s.argv_plaintext_cap (
      with_wiped s.stdin_plaintext (salt_github_secret_max_value_len + 1) (
        with_wiped s.stdin_key (salt_max_key_input_len + 1)
          (with_wiped s.output s.output_cap s.freed))))

error_array-size : (e : ErrorBuffer) → length (error_array e) ≡ 256
error_array-size e =
    length-take 256 (e.text ++ wiped 256)
      (omega (arith, length-append e.text (wiped 256), length-wiped 256))

module _ (sodium : Sodium) (d : Documented sodium) where
  unlock-wiped :
      (n : ℕ) (b : Bytes) → length b ≡ n → salt_cli_secure_unlock_region sodium b n ≡ some (wiped n)
  unfolding salt_cli_secure_unlock_region release_region
  unlock-wiped zero [] e = refl
  unlock-wiped zero (x ∷ b) e = absurd (omega arith)
  unlock-wiped (suc n) b e =
      let clean = release_region-wiped sodium d state_buffer (take (suc n) b) true in
      rw
        (
          window_total (suc n) b (omega arith),
          ◌>>=◌,
          clean,
          drop-all (suc n) b e,
          length-take (suc n) b (omega arith),
          append-nil (wiped (suc n)),
        )
        refl

  free-wiped :
      (p : Option Bytes) (n : ℕ) (freed : List Bytes)
      → Sized p n
      → salt_cli_secure_free_region sodium p n freed ≡ some (with_wiped p n freed)
  unfolding salt_cli_secure_free_region
  free-wiped none n freed e = refl
  free-wiped (some b) n freed e = rw (unlock-wiped n b e, ◌>>=◌) refl

  fixed-Returns :
      (locked : Bool) (b : Bytes) (n : ℕ)
      → length b ≡ n
      → (left : Bytes) × (unlock_fixed sodium locked b n ≡ some left)
  fixed-Returns true b n e = (wiped n, unlock-wiped n b e)
  fixed-Returns false b n e = (b, refl)

  -- With a library that keeps its documentation, and buffers of the sizes that they are released with, the
  -- cleanup faults nowhere: every block that is allocated is wiped in full and freed once, no other is,
  -- and the structure is zero behind it.
  pub salt_cli_state_cleanup-all :
      (s : CliState) → WellSized s → salt_cli_state_cleanup sodium s ≡ some (zeroed (all_wiped s))
  unfolding salt_cli_state_cleanup
  salt_cli_state_cleanup-all s w =
      let (k, ek) =
        fixed-Returns s.fixed_buffers_locked s.parsed_key_b64 (salt_max_key_input_len + 1) w.5 in
      let (i, ei) =
        fixed-Returns s.fixed_buffers_locked s.parsed_key_id (salt_max_key_id_len + 1) w.6 in
      let (e, ee) =
        fixed-Returns s.fixed_buffers_locked (error_array s.error) 256 (error_array-size s.error) in
      rw (free-wiped s.output s.output_cap s.freed w.0, ◌>>=◌)
        (rw (free-wiped s.stdin_key _ _ w.1, ◌>>=◌)
          (rw (free-wiped s.stdin_plaintext _ _ w.2, ◌>>=◌)
            (rw (free-wiped s.argv_plaintext_copy s.argv_plaintext_cap _ w.3, ◌>>=◌)
              (rw (free-wiped s.trimmed_key_input s.trimmed_key_input_cap _ w.4, ◌>>=◌)
                (rw (ek, ◌>>=◌) (rw (ei, ◌>>=◌) (rw (ee, ◌>>=◌) refl)))))))
