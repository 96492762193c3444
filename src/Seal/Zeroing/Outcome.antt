-- ===== src/Seal/Zeroing/Outcome.antt =====
-- src/salt.c, `salt_seal_base64_with_plaintext_zeroing_keylen`: the secret is gone when it returns.
use salt.Base.{
  ℕ, ◌≤◌, ◌≡◌, refl, ◌∙◌, ap, ◌&&◌, Option, none, some, ◌++◌, Bytes, length, drop, take,
  length-take, window_total, wiped, leb, ltb, Bool-cases, Option-cases, if◌then◌else◌, ◌>>=◌, inl,
  inr,
}
use salt.Seal.Box.{Input, Frame, Run, set_written, reset, validated, salt_seal_base64_keylen}
use salt.Seal.Box.Contract.{Given, Outcome, failed, sealed, null_argument, not_reached}
use salt.Seal.Box.Outcome.{salt_seal_base64_keylen-Outcome}
use salt.Seal.Sodium.{Sodium, Documented}
use salt.Seal.Zeroing.{ZeroingRun, zero_message, salt_seal_base64_with_plaintext_zeroing_keylen}
use salt.Seal.Box.Steps.{set_written-twice}
use salt.Status.{Status, set_error, codes, salt_err_input, salt_max_message_len}

-- The caller's array behind a call: an accepted number of bytes is wiped, and the rest is as before.
abbrev pub zeroed : ℕ → Option Bytes → Option Bytes
zeroed n none = none
zeroed n (some message) =
    if ltb 0 n && leb n salt_max_message_len then some (wiped n ++ drop n message) else some message

-- A call that does with the caller's buffers what a call without zeroing can do, and zeroes the secret.
pub record Zeroed (sodium : Sodium) (a : Input) (before : Frame) (r : ZeroingRun) : Type 0 where
  pub status : Status
  pub after : Frame
  pub returns : r ≡ some (status, after, zeroed a.message_len a.message)
  pub outcome : Outcome sodium a before (some (status, after))

-- Every outcome is a result.
Outcome-returns :
    (sodium : Sodium) (a : Input) (before : Frame) (r : Run)
    → Outcome sodium a before r
    → (s : Status × Frame) × (r ≡ some s) × Outcome sodium a before (some s)
Outcome-returns sodium a before _ (failed reason o w c) = (_, refl, failed reason o w c)
Outcome-returns sodium a before _ (sealed s c) = (_, refl, sealed s c)

module _ (sodium : Sodium) (d : Documented sodium) where
  zero_message-wiped :
      (n : ℕ) (message : Bytes)
      → n ≤ length message
      → zero_message sodium n message ≡ some (wiped n ++ drop n message)
  unfolding zero_message
  zero_message-wiped n message h =
      rw
        (window_total n message h, ◌>>=◌, d.memzero_wipes (take n message), length-take n message h)
        refl

  -- A second reset of the counter changes nothing.
  salt_seal_base64_keylen-reset :
      (a : Input) (f : Frame)
      → salt_seal_base64_keylen sodium a (reset f) ≡ salt_seal_base64_keylen sodium a f
  unfolding salt_seal_base64_keylen
  salt_seal_base64_keylen-reset a f =
      ap (λ w. validated sodium a (record f { output_written = w }))
        (set_written-twice 0 0 f.output_written)

  -- What follows the sealing.
  abbrev zero_after : Input → Bytes → Run → ZeroingRun
  zero_after a m r = do
    done ← r
    if ltb 0 a.message_len && leb a.message_len salt_max_message_len
        then (do
          message' ← zero_message sodium a.message_len m
          some (done.0, done.1, some message'))
        else some (done.0, done.1, some m)

  -- With a message that is not NULL, the call seals and then zeroes.
  zeroing-seals :
      (a : Input) (f : Frame) (m : Bytes)
      → a.message ≡ some m
      → salt_seal_base64_with_plaintext_zeroing_keylen sodium a f
        ≡ zero_after a m (salt_seal_base64_keylen sodium a (reset f))
  unfolding salt_seal_base64_with_plaintext_zeroing_keylen
  zeroing-seals a f m at_m = rw at_m refl

  -- With a library that keeps its documentation and what a call of `salt_seal_base64_keylen` needs of
  -- its arguments, the call with zeroing returns; its status and frame are an outcome of that call, and
  -- the bytes of a message of an allowed length are zero whatever the status, with the rest of the array
  -- as before.
  pub salt_seal_base64_with_plaintext_zeroing_keylen-Zeroed :
      (a : Input) (before : Frame)
      → Given sodium a before
      → Zeroed sodium a before (salt_seal_base64_with_plaintext_zeroing_keylen sodium a before)
  unfolding salt_seal_base64_with_plaintext_zeroing_keylen
  salt_seal_base64_with_plaintext_zeroing_keylen-Zeroed a before g = elim (Option-cases a.message) [
    | inl null ↦ record {
      status = salt_err_input;
      after = record before {
        output_written = set_written 0 before.output_written;
        error = set_error (codes "invalid null argument") before.error;
      };
      returns = rw null refl;
      outcome = failed (null_argument (rw null refl)) refl refl (not_reached refl g.no_block);
    }
    | inr (m, at_m) ↦
        let (s, e, o) =
          Outcome-returns sodium a before _ (salt_seal_base64_keylen-Outcome sodium d a before g) in
        let room : a.message_len ≤ length m = rw at_m at g.message_holds in
        record {
          status = s.0;
          after = s.1;
          returns =
              zeroing-seals a before m at_m
              ∙ tail s m a.message at_m e (zero_message-wiped a.message_len m room);
          outcome = o;
        }
  ]
    where
      tail :
          (s : Status × Frame) (m : Bytes) (p : Option Bytes)
          → p ≡ some m
          → salt_seal_base64_keylen sodium a before ≡ some s
          → zero_message sodium a.message_len m ≡ some (wiped a.message_len ++ drop a.message_len m)
          → zero_after a m (salt_seal_base64_keylen sodium a (reset before))
            ≡ some (s.0, s.1, zeroed a.message_len p)
      tail s m p at_p e z =
          rw (salt_seal_base64_keylen-reset a before ∙ e, ◌>>=◌, at_p, z)
            (elim (Bool-cases (ltb 0 a.message_len && leb a.message_len salt_max_message_len)) [
              | inl t ↦ rw (t, ◌>>=◌) refl
              | inr n ↦ rw n refl
            ])
