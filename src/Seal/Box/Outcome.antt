-- ===== src/Seal/Box/Outcome.antt =====
-- src/salt.c: all that a call of `salt_seal_base64_keylen` can do.
use salt.Base.{
  ℕ, zero, suc, [], ◌∷◌, sym, append-nil, window, drop, ◌≤◌, ◌<◌, ◌≡◌, refl, ap, ◌∙◌, arith, inl,
  inr, Bool, true, false, ◌||◌, ◌==◌, Option, none, some, Bytes, length, wiped, Bool-cases, at_true,
  at_false, ltb, if◌then◌else◌, ◌>>=◌,
}
use salt.Seal.Box.{
  Input, Frame, Run, is_null, set_written, end_with, follow, body, cleanup, ciphertext_len,
  release_region, salt_secure_release, salt_validate_seal_inputs, validated,
  salt_seal_base64_keylen,
}
use salt.Seal.Box.Contract.{
  Given, Reason, null_argument, message_length, no_key, no_library, not_reached, wiped_key,
  wiped_both, Outcome, failed, sealed,
}
use salt.Seal.Box.Steps.{Ended, failing, sealing, body-Ended}
use salt.Seal.Sodium.{Region, key_scratch, ciphertext_buffer, Sodium, Documented}
use salt.Status.{
  Status, ErrorBuffer, is_ok, salt_ok, salt_err_input, salt_err_crypto, salt_max_message_len, codes,
}

-- A released buffer is wiped, whether it was locked or not and whether it could be unlocked.
pub release_region-wiped :
    (sodium : Sodium)
    → Documented sodium
    → (r : Region) (buffer : Bytes) (locked : Bool)
    → release_region sodium r buffer locked ≡ wiped (length buffer)
unfolding release_region
release_region-wiped sodium d r buffer false = d.memzero_wipes buffer
release_region-wiped sodium d r buffer true = elim (Bool-cases (sodium.munlock r buffer).0) [
  | inl yes_zero ↦
      at_true (λ x. x ≡ wiped (length buffer)) _ _ _ yes_zero (d.munlock_wipes r buffer yes_zero)
  | inr no_zero ↦
      at_false (λ x. x ≡ wiped (length buffer)) _ _ _ no_zero
        (d.memzero_wipes (sodium.munlock r buffer).1 ∙ ap wiped (d.munlock_length r buffer))
]

pub window-all : (n : ℕ) (b : Bytes) → length b ≡ n → window n b ≡ some b
window-all zero [] e = refl
window-all zero (x ∷ b) e = absurd (omega arith)
window-all (suc n) [] e = absurd (omega arith)
window-all (suc n) (x ∷ b) e = rw (window-all n b (omega arith)) refl

pub drop-all : (n : ℕ) (b : Bytes) → length b ≡ n → drop n b ≡ []
drop-all zero [] e = refl
drop-all zero (x ∷ b) e = absurd (omega arith)
drop-all (suc n) [] e = refl
drop-all (suc n) (x ∷ b) e = drop-all n b (omega arith)

-- The release of a whole array.
salt_secure_release-wiped :
    (sodium : Sodium)
    → Documented sodium
    → (r : Region) (buffer : Bytes) (n : ℕ) (locked : Bool) → length buffer ≡ n
    → salt_secure_release sodium r buffer n locked ≡ some (wiped n)
unfolding salt_secure_release
salt_secure_release-wiped sodium d r buffer n locked e =
    rw (window-all n buffer e, drop-all n buffer e, ◌>>=◌)
      (ap some (append-nil _ ∙ (release_region-wiped sodium d r buffer locked ∙ ap wiped e)))

not_null : (p : Option Bytes) → is_null p ≡ false → (b : Bytes) × (p ≡ some b)
not_null none h = ground arith
not_null (some b) h = (b, refl)

follow-some :
    (sodium : Sodium) (x y : Option Bytes) (m o : Bytes) (next : Bytes → Bytes → Run)
    → x ≡ some m
    → y ≡ some o
    → follow sodium x y next ≡ next m o
follow-some sodium x y m o next at_x at_y = rw (at_x, at_y) refl

module _ (sodium : Sodium) (d : Documented sodium) (a : Input) (before : Frame) where
  wipes :
      (f : Frame)
      → length f.public_key ≡ sodium.public_key_bytes
      → salt_secure_release sodium key_scratch f.public_key sodium.public_key_bytes
          f.public_key_locked
        ≡ some (wiped sodium.public_key_bytes)
  wipes f l = salt_secure_release-wiped sodium d key_scratch f.public_key _ f.public_key_locked l

  wipes_block :
      (f : Frame) (b : Bytes)
      → length b ≡ ciphertext_len sodium a
      → salt_secure_release sodium ciphertext_buffer b (ciphertext_len sodium a) f.ciphertext_locked
        ≡ some (wiped (ciphertext_len sodium a))
  wipes_block f b l = salt_secure_release-wiped sodium d ciphertext_buffer b _ f.ciphertext_locked l

  -- What is left at the label is released, and the caller's buffers stay as they are.
  cleanup-Outcome :
      length before.public_key ≡ sodium.public_key_bytes
      → (r : Run) → Ended sodium a before r
      → Outcome sodium a before (r >>= cleanup sodium a)
  unfolding cleanup
  cleanup-Outcome size _ (failing {f = f} reason o w l (inl c)) =
      rw (wipes f (l ∙ size), c, ◌>>=◌)
        (failed reason o w (wiped_key (ap wiped (sym size)) refl refl))
  cleanup-Outcome size _ (failing {f = f} reason o w l (inr (b, c, len))) =
      rw (wipes f (l ∙ size), c, wipes_block f b len, ◌>>=◌)
        (failed reason o w (wiped_both (ciphertext_len sodium a) (ap wiped (sym size)) refl refl))
  cleanup-Outcome size _ (sealing {f = f} s l b c len) =
      rw (wipes f (l ∙ size), c, wipes_block f b len, ◌>>=◌)
        (sealed s (wiped_both (ciphertext_len sodium a) (ap wiped (sym size)) refl refl))

  -- What the validation finds; the pointers that it accepts have arrays.
  data Validated (e : ErrorBuffer) : Status × ErrorBuffer → Type 0 where
    bad :
        {e' : ErrorBuffer}
        → Reason sodium a before.output salt_err_input
        → Validated e (salt_err_input, e')
    good :
        (m k o : Bytes)
        → a.message ≡ some m
        → a.public_key_b64 ≡ some k
        → before.output ≡ some o
        → 0 < a.message_len
        → a.message_len ≤ salt_max_message_len
        → 0 < a.public_key_b64_len
        → Validated e (salt_ok, e)

  salt_validate_seal_inputs-Validated :
      (e : ErrorBuffer)
      → Validated e (
          salt_validate_seal_inputs a.message a.message_len a.public_key_b64 a.public_key_b64_len
            before.output e)
  unfolding salt_validate_seal_inputs
  salt_validate_seal_inputs-Validated e =
      elim (Bool-cases (is_null a.message || is_null a.public_key_b64 || is_null before.output)) [
        | inl null ↦ at_true (Validated e) _ _ _ null (bad (null_argument null))
        | inr given ↦
            at_false (Validated e) _ _ _ given
              (elim (Bool-cases (a.message_len == 0 || ltb salt_max_message_len a.message_len)) [
                | inl out ↦ at_true (Validated e) _ _ _ out (bad (message_length (ground arith)))
                | inr fits ↦
                    at_false (Validated e) _ _ _ fits
                      (elim (Bool-cases (a.public_key_b64_len == 0)) [
                        | inl empty ↦
                            at_true (Validated e) _ _ _ empty (bad (no_key (ground arith)))
                        | inr some_key ↦ at_false (Validated e) _ _ _ some_key (
                            let (m, at_m) = not_null a.message (ground arith) in
                            let (k, at_k) = not_null a.public_key_b64 (ground arith) in
                            let (o, at_o) = not_null before.output (ground arith) in
                            good m k o at_m at_k at_o (ground arith) (ground arith) (ground arith))
                      ])
              ])
      ]

  -- With a library that keeps its documentation, arrays of at least the sizes that the caller
  -- gives, a `size_t` for `output_size` and no block, sealing faults nowhere. Either it returns one
  -- of the error statuses for a reason that holds, the output is as before and `*output_written` is
  -- 0; or it returns SALT_OK, the length of the message is allowed, the output starts with the
  -- base64 text of the sealed box under the decoded key with its NUL, its bytes behind
  -- `output_size` are as before, that text has the length of the base64 of the box, and
  -- `*output_written` is that length. What the library leaves behind the NUL, up to `output_size`,
  -- is not said. The scratch for the key, where it was reached, is wiped like the block, which is
  -- freed once, and the stack.
  pub salt_seal_base64_keylen-Outcome :
      Given sodium a before → Outcome sodium a before (salt_seal_base64_keylen sodium a before)
  unfolding salt_seal_base64_keylen validated
  salt_seal_base64_keylen-Outcome g =
      after_check g _ (salt_validate_seal_inputs-Validated before.error)
    where
      after_check :
          Given sodium a before
          → (r : Status × ErrorBuffer) → Validated before.error r
          → Outcome sodium a before (
              let f = record before { output_written = set_written 0 before.output_written } in
              if is_ok r.0
              then (if sodium.init_fails
                  then end_with salt_err_crypto (codes "failed to initialize libsodium") f
                  else follow sodium a.message f.output
                      (λ message output. body sodium a message output f >>= cleanup sodium a))
              else some (r.0, record f { error = r.1 }))
      after_check g _ (bad reason) = failed reason refl refl (not_reached refl g.no_block)
      after_check g _ (good m k o at_m at_k at_o min max some_key) =
          elim (Bool-cases sodium.init_fails) [
            | inl fails ↦
                at_true (Outcome sodium a before) _ _ _ fails
                  (failed (no_library fails) refl refl (not_reached refl g.no_block))
            | inr starts ↦ at_false (Outcome sodium a before) _ _ _ starts (
                rw
                  (follow-some sodium a.message before.output m o
                    (λ message output.
                      body sodium a message output
                        (record before { output_written = set_written 0 before.output_written })
                      >>= cleanup sodium a)
                    at_m at_o)
                  (cleanup-Outcome g.scratch_size _ (
                    body-Ended sodium a before d g o at_o m k at_m at_k min max
                      (record before { output_written = set_written 0 before.output_written })
                      (record { output_kept = refl; written_reset = refl; scratch_kept = refl })
                      g.no_block g.scratch_size some_key)))
          ]
