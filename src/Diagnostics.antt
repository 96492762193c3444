-- ===== src/Diagnostics.antt =====
-- src/cli/stream.c: messages on a stream, with the errors of the stream reported.
use salt.Base.{
  true, ◌++◌, List, [], ◌∷◌, append-nil, ◌∙◌, ◌≡◌, ◌⊎◌, inl, inr, refl, if◌then◌else◌, Bool-cases,
  at_true, at_false, Bytes,
}
use salt.Status.{Status, salt_ok, salt_err_io, is_ok, codes, ErrorBuffer, set_error}
use salt.Stdio.{Attempt, succeeds, fails_after, attempt, Stream, write, fflush}

-- The status, the stream and the error buffer that a call leaves.
abbrev pub Report : Type 0
Report = Status × Stream × ErrorBuffer

unfoldable pub salt_cli_set_error : ErrorBuffer → Bytes → Status → Status × ErrorBuffer
salt_cli_set_error e message rc = (rc, set_error message e)

unfoldable pub salt_cli_flush_stream : Stream → ErrorBuffer → Bytes → Report
unfolding salt_cli_set_error
salt_cli_flush_stream stream e message =
    let flushed = fflush stream in
    if flushed.0
    then (salt_ok, flushed.1, e)
    else (let r = salt_cli_set_error e message salt_err_io in (r.0, flushed.1, r.1))

-- `text` is what the format makes of its arguments.
unfoldable pub salt_cli_write_stream : Stream → ErrorBuffer → Bytes → Bytes → Report
unfolding salt_cli_flush_stream salt_cli_set_error
salt_cli_write_stream stream e message text =
    let written = write text stream in
    if written.0
    then salt_cli_flush_stream written.1 e message
    else (let r = salt_cli_set_error e message salt_err_io in (r.0, written.1, r.1))

unfoldable pub salt_cli_report_stream_status : Stream → ErrorBuffer → Status → Bytes → Report
unfolding salt_cli_flush_stream salt_cli_set_error
salt_cli_report_stream_status stream e rc text =
    let written = write text stream in
    if written.0
    then (let flushed = salt_cli_flush_stream written.1 e (codes "failed to write diagnostic") in
        if is_ok flushed.0 then (rc, flushed.1, flushed.2) else (salt_err_io, flushed.1, flushed.2))
    else (let r = salt_cli_set_error e (codes "failed to write diagnostic") salt_err_io in
        (r.0, written.1, r.1))

-- The status that is reported, or that of a stream that failed.
pub salt_cli_report_stream_status-status :
    (stream : Stream) (e : ErrorBuffer) (rc : Status) (text : Bytes)
    → ((salt_cli_report_stream_status stream e rc text).0 ≡ rc)
      ⊎ ((salt_cli_report_stream_status stream e rc text).0 ≡ salt_err_io)
unfolding salt_cli_report_stream_status salt_cli_flush_stream
salt_cli_report_stream_status-status stream e rc text = elim (Bool-cases (write text stream).0) [
  | inr w ↦ at_false Ends _ _ _ w (inr refl)
  | inl w ↦ at_true Ends _ _ _ w (elim (Bool-cases (fflush (write text stream).1).0) [
    | inl f ↦ rw f (inl refl)
    | inr f ↦ rw f (inr refl)
  ])
]
  where
    Ends : Report → Type 0
    Ends r = (r.0 ≡ rc) ⊎ (r.0 ≡ salt_err_io)

write-written :
    (bytes : Bytes) (s : Stream)
    → (write bytes s).0 ≡ true
    → (write bytes s).1.written ≡ s.written ++ bytes
unfolding write
write-written bytes s = by_plan s.plan
  where
    by_plan :
        (plan : List Attempt)
        → (attempt bytes s plan).0 ≡ true
        → (attempt bytes s plan).1.written ≡ s.written ++ bytes
    by_plan [] ok = refl
    by_plan (succeeds ∷ rest) ok = refl
    by_plan (fails_after n ∷ rest) ok = absurd (cc ok)

fflush-written : (s : Stream) → (fflush s).0 ≡ true → (fflush s).1.written ≡ s.written
unfolding fflush write
fflush-written s ok = write-written [] s ok ∙ append-nil s.written

-- A text that is written with SALT_OK is behind what was there, all of it.
pub salt_cli_write_stream-written :
    (stream : Stream) (e : ErrorBuffer) (message text : Bytes)
    → is_ok (salt_cli_write_stream stream e message text).0 ≡ true
    → (salt_cli_write_stream stream e message text).1.written ≡ stream.written ++ text
unfolding salt_cli_write_stream salt_cli_flush_stream salt_cli_set_error
salt_cli_write_stream-written stream e message text = elim (Bool-cases (write text stream).0) [
  | inr w ↦ at_false Writes _ _ _ w (λ ok. absurd (cc ok))
  | inl w ↦ at_true Writes _ _ _ w (elim (Bool-cases (fflush (write text stream).1).0) [
    | inl f ↦
        at_true Writes _ _ _ f
          (λ ok. fflush-written (write text stream).1 f ∙ write-written text stream w)
    | inr f ↦ at_false Writes _ _ _ f (λ ok. absurd (cc ok))
  ])
]
  where
    Writes : Report → Type 0
    Writes r = is_ok r.0 ≡ true → r.1.written ≡ stream.written ++ text
