-- ===== src/Input/Outcome/Delivers.antt =====
-- src/cli/input.c, `cli_input_read_stream_limited`: what is enough for SALT_OK.
use salt.Base.{
  ℕ, ◌+◌, ◌-◌, ◌≤◌, ◌≡◌, refl, arith, inl, inr, true, false, some, ◌∷◌, ◌++◌, Bytes, length, Gives,
}
use salt.Input.{Source, Reader, Run, cli_input_read_stream_limited}
use salt.Input.Outcome.{
  Reads, Reason, null_argument, overflow, interrupted, no_memory, failed, too_long, Outcome,
  delivered, refused, cli_input_read_stream_limited-Outcome,
}
use salt.Seal.Box.{unallocated, live}
use salt.Seal.Sodium.{Sodium, Documented, stdin_buffer, size_max}
use salt.Status.{Status, salt_ok}

-- A stream that does not fail and is not interrupted, and memory for the buffer.
pub record Readable (sodium : Sodium) (source : Source) (max_len : ℕ) : Type 0 where
  pub reads_well : source.read_fails ≡ false
  pub probes_well : source.probe_fails ≡ false
  pub not_before : source.interrupted_before ≡ false
  pub not_after : source.interrupted_after ≡ false
  pub ungets_well : source.ungetc_fails ≡ false
  pub bound : max_len ≤ size_max - 1
  pub buffer : Bytes
  pub allocates : sodium.malloc stdin_buffer (max_len + 1) ≡ some buffer

module _ (sodium : Sodium) (source : Source) (max_len : ℕ) (content : Bytes)
    (fits : length content ≤ max_len) (e : Readable sodium source max_len) where
  cannot_fail : (status : Status) → Reason sodium source false max_len content status → ⊥
  cannot_fail s (null_argument null) = cc null
  cannot_fail s (overflow large) = absurd (omega (arith, large, e.bound))
  cannot_fail s (interrupted (inl i)) = cc (i, e.not_before)
  cannot_fail s (interrupted (inr i)) = cc (i, e.not_after)
  cannot_fail s (no_memory fails) = cc (fails, e.allocates)
  cannot_fail s (failed (inl fails)) = cc (fails, e.reads_well)
  cannot_fail s (failed (inr (inl fails))) = cc (fails, e.probes_well)
  cannot_fail s (failed (inr (inr fails))) = cc (fails, e.ungets_well)
  cannot_fail s (too_long long) = absurd (omega (arith, long, fits))

  -- SALT_OK, with all of the stream and a NUL at the front of the buffer.
  abbrev pub Delivers : Status × Reader → Type 0
  Delivers r =
      (r.0 ≡ salt_ok)
      × ((back : Bytes) × (r.1.block ≡ live (content ++ 0 ∷ back)))
      × (r.1.delivered ≡ true)
      × (r.1.output_len ≡ length content)

  Outcome-Delivers :
      (before : Reader) (run : Run)
      → Outcome sodium source false max_len content before run
      → Gives Delivers run
  Outcome-Delivers before run (delivered back short at size given len) =
      (refl, (back, at), given, len)
  Outcome-Delivers before run (refused {status = status} reason gone given len) =
      absurd (cannot_fail status reason)

  -- With a library and a stream that keep their documentation, at most max_len bytes to come, no failure
  -- of the stream, no signal, memory for the buffer, and no block before it, a bounded read returns
  -- SALT_OK and the buffer starts with all of the stream and a NUL.
  pub cli_input_read_stream_limited-Delivers :
      Documented sodium
      → Reads source max_len content
      → (before : Reader) → before.block ≡ unallocated
      → Gives Delivers (cli_input_read_stream_limited sodium source false max_len before)
  cli_input_read_stream_limited-Delivers d reads before none_yet = Outcome-Delivers before _ (
      cli_input_read_stream_limited-Outcome sodium d source false max_len content reads before
        none_yet)
