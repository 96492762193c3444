-- ===== src/Output/Writer/Emits.antt =====
-- src/cli/output.c: what a writer leaves on the stream, whatever the environment does.
use salt.Base.{
  ℕ, zero, suc, ◌≡◌, ◌⊎◌, inl, inr, refl, sym, ap, ◌∙◌, Bool, true, false, List, [], ◌∷◌, ◌++◌,
  append_assoc, arith, Bytes, take, drop,
}
use salt.Output.Writer.{
  Sink, Writer, cli_stream_write_error, cli_stream_put, cli_stream_flush, ◌and_then◌,
}
use salt.Status.{Status, salt_ok, salt_err_io}
use salt.Stdio.{Stream, write, fflush, Attempt, succeeds, fails_after}

-- No operation has failed, and none will.
abbrev pub Healthy : Stream → Type 0
Healthy f = (f.plan ≡ []) × (f.failed ≡ false)

-- Everything was written, and the rest of the state is as before.
pub record Complete (bytes : Bytes) (s : Sink) (r : Status × Sink) : Type 0 where
  pub returns : r.0 ≡ salt_ok
  pub written : r.1.stream.written ≡ s.stream.written ++ bytes
  pub same_error : r.1.error ≡ s.error
  pub same_failed : r.1.stream.failed ≡ s.stream.failed
  pub still_healthy : Healthy s.stream → Healthy r.1.stream

-- The environment failed an operation, and a prefix was written.
pub record Broken (bytes : Bytes) (s : Sink) (r : Status × Sink) : Type 0 where
  pub front : Bytes
  pub back : Bytes
  pub returns : r.0 ≡ salt_err_io
  pub splits : bytes ≡ front ++ back
  pub written : r.1.stream.written ≡ s.stream.written ++ front
  pub was_not_healthy : ¬ Healthy s.stream

abbrev pub Emits : Bytes → Writer → Type 0
Emits bytes m = (s : Sink) → Complete bytes s (m s) ⊎ Broken bytes s (m s)

take-drop : (n : ℕ) (s : Bytes) → s ≡ take n s ++ drop n s
take-drop zero s = refl
take-drop (suc n) [] = refl
take-drop (suc n) (c ∷ s) = ap (λ t. c ∷ t) (take-drop n s)

put_attempt :
    (bytes : Bytes) (s : Sink) (plan : List Attempt)
    → s.stream.plan ≡ plan
    → Complete bytes s (cli_stream_put bytes s) ⊎ Broken bytes s (cli_stream_put bytes s)
unfolding cli_stream_put write cli_stream_write_error
put_attempt bytes s [] e = inl (record {
  returns = ground arith;
  written = ground arith;
  same_error = ground arith;
  same_failed = ground arith;
  still_healthy = ground arith;
})
put_attempt bytes s (succeeds ∷ plan) e = inl (record {
  returns = ground arith;
  written = ground arith;
  same_error = ground arith;
  same_failed = ground arith;
  still_healthy = λ h. cc;
})
put_attempt bytes s (fails_after n ∷ plan) e = inr (record {
  front = take n bytes;
  back = drop n bytes;
  returns = ground arith;
  splits = take-drop n bytes;
  written = ground arith;
  was_not_healthy = λ h. cc;
})

-- The helpers that write.
pub cli_stream_put-Emits : (bytes : Bytes) → Emits bytes (cli_stream_put bytes)
cli_stream_put-Emits bytes s = put_attempt bytes s s.stream.plan refl

take_nil : (n : ℕ) → ◌≡◌ {A = Bytes} (take n []) []
take_nil zero = refl
take_nil (suc n) = refl

flush_attempt :
    (s : Sink) (plan : List Attempt) (failed : Bool)
    → s.stream.plan ≡ plan
    → s.stream.failed ≡ failed
    → Complete [] s (cli_stream_flush s) ⊎ Broken [] s (cli_stream_flush s)
unfolding cli_stream_flush fflush cli_stream_write_error
flush_attempt s [] false e f = inl (record {
  returns = ground arith;
  written = ground arith;
  same_error = ground arith;
  same_failed = ground arith;
  still_healthy = ground arith;
})
flush_attempt s [] true e f = inr (record {
  front = [];
  back = [];
  returns = ground arith;
  splits = refl;
  written = ground arith;
  was_not_healthy = λ h. cc;
})
flush_attempt s (succeeds ∷ plan) false e f = inl (record {
  returns = ground arith;
  written = ground arith;
  same_error = ground arith;
  same_failed = ground arith;
  still_healthy = λ h. cc;
})
flush_attempt s (succeeds ∷ plan) true e f = inr (record {
  front = [];
  back = [];
  returns = ground arith;
  splits = refl;
  written = ground arith;
  was_not_healthy = λ h. cc;
})
flush_attempt s (fails_after n ∷ plan) failed e f = inr (record {
  front = [];
  back = [];
  returns = ground arith;
  splits = refl;
  written = ground (arith, take_nil n);
  was_not_healthy = λ h. cc;
})

-- A flush writes nothing of its own, and fails if any operation on the stream has failed.
pub cli_stream_flush-Emits : Emits [] cli_stream_flush
cli_stream_flush-Emits s = flush_attempt s s.stream.plan s.stream.failed refl refl

goes_on :
    {a : Bytes} (m next : Writer) {s : Sink}
    → Complete a s (m s)
    → ◌and_then◌ m next s ≡ next (m s).1
goes_on m next x = rw (x.returns, ◌and_then◌)

stops :
    {a : Bytes} (m next : Writer) {s : Sink}
    → Broken a s (m s)
    → ◌and_then◌ m next s ≡ (salt_err_io, (m s).1)
stops m next x = rw (x.returns, ◌and_then◌)

-- Writers one behind the other write one behind the other.
module _ {a b : Bytes} {m next : Writer} where
  pub and_then-Emits : Emits a m → Emits b next → Emits (a ++ b) (m and_then next)
  and_then-Emits em en s = elim (em s) [
    | inr x ↦ rw (stops m next x) (
        inr (record {
          front = x.front;
          back = x.back ++ b;
          returns = refl;
          splits = rw (← append_assoc x.front x.back b) (ap (λ t. t ++ b) x.splits);
          written = x.written;
          was_not_healthy = x.was_not_healthy;
        }))
    | inl x ↦ elim (en (m s).1) [
      | inl y ↦ rw (goes_on m next x) (
          inl (record {
            returns = y.returns;
            written = y.written ∙ ap (λ t. t ++ b) x.written ∙ append_assoc s.stream.written a b;
            same_error = y.same_error ∙ x.same_error;
            same_failed = y.same_failed ∙ x.same_failed;
            still_healthy = λ h. y.still_healthy (x.still_healthy h);
          }))
      | inr y ↦ rw (goes_on m next x) (
          inr (record {
            front = a ++ y.front;
            back = y.back;
            returns = y.returns;
            splits = ap (λ t. a ++ t) y.splits ∙ sym (append_assoc a y.front y.back);
            written =
                y.written
                ∙ ap (λ t. t ++ y.front) x.written
                ∙ append_assoc s.stream.written a y.front;
            was_not_healthy = λ h. y.was_not_healthy (x.still_healthy h);
          }))
    ]
  ]
