-- ===== src/Seal/Box/Steps.antt =====
-- src/salt.c, `salt_seal_base64_keylen`: its steps up to the label `cleanup`.
use salt.Base.{
  ℕ, ◌+◌, ◌%◌, ◌^◌, ◌≤◌, ◌<◌, ◌≡◌, refl, ◌∙◌, arith, ◌⊎◌, inl, inr, true, Option, none, some, ◌∷◌,
  ◌++◌, append_assoc, Bytes, length, length-take, take, drop, cstr-append, Bool-cases, at_true,
  at_false, window_total, Option-cases, if◌then◌else◌, ◌>>=◌,
}
use salt.Seal.Box.{
  Block, unallocated, live, Input, Frame, Run, set_written, end_with, encode, seal, ciphertext_len,
  allocate, body,
}
use salt.Seal.Box.Contract.{
  Given, sealed_len, Ready, box_of, Reason, no_capacity, no_memory, not_sealed, not_encoded,
  key_length, key_encoding, Sealed,
}
use salt.Seal.Key.{max_public_key_b64_len, decode_public_key}
use salt.Seal.Key.Outcome.{
  IsKey, KeyOutcome, accepted, refused_length, refused_text, decode_public_key-Outcome,
}
use salt.Seal.Length.{salt_validate_output_capacity}
use salt.Seal.Length.Exact.{salt_validate_output_capacity-fits}
use salt.Seal.Sodium.{ciphertext_buffer, key_scratch, Sodium, Documented}
use salt.Status.{
  is_ok, Status, salt_ok, salt_err_input, salt_err_crypto, salt_max_message_len, codes,
}

pub set_written-twice : (n m : ℕ) (w : Option ℕ) → set_written n (set_written m w) ≡ set_written n w
set_written-twice n m none = refl
set_written-twice n m (some k) = refl

module _ (sodium : Sodium) (a : Input) (before : Frame) where
  -- The block at the label: none yet, or one that is still to be freed.
  abbrev pub ToFree : Block → Type 0
  ToFree c = (c ≡ unallocated) ⊎ ((b : Bytes) × (c ≡ live b) × (length b ≡ ciphertext_len sodium a))

  -- How the label is reached.
  pub data Ended : Run → Type 0 where
    failing :
        {status : Status} {f : Frame}
        → Reason sodium a before.output status
        → f.output ≡ before.output
        → f.output_written ≡ set_written 0 before.output_written
        → length f.public_key ≡ length before.public_key
        → ToFree f.ciphertext
        → Ended (some (status, f))
    sealing :
        {f : Frame}
        → Sealed sodium a before f.output f.output_written
        → length f.public_key ≡ length before.public_key
        → (b : Bytes) → f.ciphertext ≡ live b
        → length b ≡ ciphertext_len sodium a
        → Ended (some (salt_ok, f))

  -- The caller's buffers at a step, which are as the call found them but for the reset.
  pub record Untouched (f : Frame) : Type 0 where
    pub output_kept : f.output ≡ before.output
    pub written_reset : f.output_written ≡ set_written 0 before.output_written
    pub scratch_kept : length f.public_key ≡ length before.public_key

  module _ (d : Documented sodium) (g : Given sodium a before) (o : Bytes)
      (at_o : before.output ≡ some o) where
    room : a.output_size ≤ length o
    room = rw at_o at g.output_holds

    -- The box has the length that the capacity was checked for.
    box_size : (r : Ready sodium a) → length (box_of sodium a r).1 ≡ sealed_len sodium a
    box_size r =
        d.seal_length r.block (take a.message_len r.message) r.key
        ∙ d.malloc_length ciphertext_buffer (sealed_len sodium a) r.block r.allocates

    box_len : (r : Ready sodium a) → length (box_of sodium a r).1 ≡ ciphertext_len sodium a
    box_len r = let max = r.message_max in let fit = d.seal_bytes_fit in box_size r ∙ omega arith

    encode-Ended :
        (r : Ready sodium a)
        → (box_of sodium a r).0 ≡ true
        → (f : Frame) → Untouched f
        → f.ciphertext ≡ live (box_of sodium a r).1
        → Ended (encode sodium a o (box_of sodium a r).1 f)
    unfolding encode
    encode-Ended r s f u c =
        let b64 = take a.output_size o in
        rw (window_total a.output_size o room, ◌>>=◌)
          (elim (Option-cases (sodium.bin2base64 b64 (box_of sodium a r).1)) [
            | inl e ↦ rw e (
                failing (not_encoded r s o at_o e) u.output_kept u.written_reset u.scratch_kept
                  (inr (_, c, box_len r)))
            | inr (stored, e) ↦
                let size = box_size r in
                let wide = length-take a.output_size o room in
                let (back, holds, kept) =
                  d.bin2base64_stores b64 (box_of sodium a r).1 stored (rw (size, wide) r.capacity)
                    e in
                let fits = d.base64_text (box_of sodium a r).1 in
                let text = sodium.base64 (box_of sodium a r).1 in
                rw (e, holds)
                  (sealing
                    (record {
                      ready = r;
                      seals = s;
                      text = text;
                      is_base64 = refl;
                      text_size = rw size at fits.1;
                      text_IsCstr = fits.0;
                      output_array = o;
                      output_at = at_o;
                      back = back;
                      back_size = rw holds at kept ∙ wide;
                      stores = refl;
                      reports =
                          rw
                            (
                              append_assoc text (0 ∷ back) (drop a.output_size o),
                              cstr-append text (back ++ drop a.output_size o) fits.0,
                              u.written_reset,
                            )
                            (set_written-twice (length text) 0 before.output_written);
                    })
                    u.scratch_kept _ c (box_len r))
          ])

    seal-Ended :
        (r : Ready sodium a)
        → (f : Frame) → Untouched f
        → f.public_key ≡ r.key
        → Ended (seal sodium a r.message o r.block f)
    unfolding seal
    seal-Ended r f u k =
        let message_room : a.message_len ≤ length r.message = rw r.message_at at g.message_holds in
        let f' : Frame = record f {
          public_key = r.key;
          ciphertext_locked = sodium.mlock ciphertext_buffer;
          ciphertext = live (box_of sodium a r).1;
        } in
        let u' : Untouched f' = record {
          output_kept = u.output_kept;
          written_reset = u.written_reset;
          scratch_kept = (rw k at u.scratch_kept);
        } in
        rw (window_total a.message_len r.message message_room, ◌>>=◌, k) (boxed r f' u' refl)
      where
        boxed :
            (r : Ready sodium a)
            → (f : Frame) → Untouched f
            → f.ciphertext ≡ live (box_of sodium a r).1
            → Ended (
                if (box_of sodium a r).0
                then encode sodium a o (box_of sodium a r).1 f
                else end_with salt_err_crypto (codes "failed to encrypt sealed box") f)
        boxed r f u c = elim (Bool-cases (box_of sodium a r).0) [
          | inl s ↦ at_true Ended _ _ _ s (encode-Ended r s f u c)
          | inr n ↦ at_false Ended _ _ _ n (
              failing (not_sealed r n) u.output_kept u.written_reset u.scratch_kept
                (inr (_, c, box_len r)))
        ]

    module _ (m k : Bytes) (at_m : a.message ≡ some m) (at_k : a.public_key_b64 ≡ some k)
        (min : 0 < a.message_len) (max : a.message_len ≤ salt_max_message_len) where
      allocate-Ended :
          (f : Frame)
          → Untouched f
          → f.ciphertext ≡ unallocated
          → IsKey sodium (take a.public_key_b64_len k) f.public_key
          → a.public_key_b64_len ≤ max_public_key_b64_len sodium
          → Ended (allocate sodium a m o f)
      unfolding allocate
      allocate-Ended f u c key key_max =
          let fit = d.seal_bytes_fit in
          let small = g.output_size_fits in
          let exact : (a.message_len + sodium.seal_bytes) % 2 ^ 64 ≡ sealed_len sodium a =
            omega arith in
          elim (salt_validate_output_capacity-fits sodium d a.message_len a.output_size f.error
            (omega arith) (omega arith)) [
              | inr (small, refused) ↦
                  rw refused (
                    failing (no_capacity small) u.output_kept u.written_reset u.scratch_kept
                      (inl c))
              | inl (enough, checked) ↦
                  rw (checked, exact)
                    (elim (Option-cases (sodium.malloc ciphertext_buffer (sealed_len sodium a))) [
                      | inl e ↦ rw e (
                          failing (no_memory e) u.output_kept u.written_reset u.scratch_kept
                            (inl c))
                      | inr (block, e) ↦ rw e (
                          seal-Ended
                            (record {
                              message = m;
                              message_at = at_m;
                              message_min = min;
                              message_max = max;
                              key_array = k;
                              key_at = at_k;
                              key = f.public_key;
                              key_max = key_max;
                              decodes = key;
                              capacity = enough;
                              block = block;
                              allocates = e;
                            })
                            (record f {
                              error =
                                  (salt_validate_output_capacity sodium a.message_len a.output_size
                                    f.error).1;
                              ciphertext = live block;
                            })
                            (record {
                              output_kept = u.output_kept;
                              written_reset = u.written_reset;
                              scratch_kept = u.scratch_kept;
                            })
                            refl)
                    ])
            ]

      pub body-Ended :
          (f : Frame)
          → Untouched f
          → f.ciphertext ≡ unallocated
          → length f.public_key ≡ sodium.public_key_bytes
          → 0 < a.public_key_b64_len
          → Ended (body sodium a m o f)
      unfolding body
      body-Ended f u c size some_key =
          let key_room : a.public_key_b64_len ≤ length k = rw at_k at g.key_holds in
          let (r, e, decoded) =
            decode_public_key-Outcome sodium d k f.public_key a.public_key_b64_len key_room size in
          let e' : decode_public_key sodium a.public_key_b64 a.public_key_b64_len f.public_key
              ≡ some r =
            rw at_k e in
          let l = length-take a.public_key_b64_len k key_room in
          rw (e', ◌>>=◌) (after_key f u c some_key l r decoded)
        where
          after_key :
              (f : Frame)
              → Untouched f
              → f.ciphertext ≡ unallocated
              → 0 < a.public_key_b64_len
              → length (take a.public_key_b64_len k) ≡ a.public_key_b64_len
              → (r : Status × Bytes)
              → KeyOutcome sodium (take a.public_key_b64_len k) f.public_key r
              → Ended (
                  let f' = record f {
                    public_key_locked = sodium.mlock key_scratch;
                    public_key = r.1;
                  } in
                  if is_ok r.0
                  then allocate sodium a m o f'
                  else end_with salt_err_input (codes "invalid public key encoding or length") f')
          after_key f u c pos l r (accepted range key kept) =
              allocate-Ended _
                (record {
                  output_kept = u.output_kept;
                  written_reset = u.written_reset;
                  scratch_kept = kept ∙ u.scratch_kept;
                })
                c key (omega (arith, range.1, l))
          after_key f u c pos l r (refused_length (inl long)) =
              failing (key_length (rw l at long)) u.output_kept u.written_reset u.scratch_kept
                (inl c)
          after_key f u c pos l r (refused_length (inr empty)) =
              absurd (omega (arith, l, empty, pos))
          after_key f u c pos l r (refused_text range none_of kept) =
              failing (key_encoding k at_k none_of) u.output_kept u.written_reset
                (kept ∙ u.scratch_kept) (inl c)
