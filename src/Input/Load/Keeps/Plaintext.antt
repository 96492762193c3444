-- ===== src/Input/Load/Keeps/Plaintext.antt =====
-- src/cli/input.c, `salt_cli_input_load_plaintext`: the invariant of the state behind it.
use salt.Args.{Cli, report}
use salt.Args.Keeps.{InvAfter}
use salt.Base.{
  ℕ, ◌+◌, ◌-◌, ◌≤◌, ◌≡◌, refl, arith, ◌⊎◌, inl, inr, Bool, true, false, some, [], ◌∷◌, ◌++◌, ◌==◌,
  ltb, Option-cases, at_true, at_false, if◌then◌else◌, Bytes, length, length-append, length-take,
  take, store, Gives, Gives-bind, Gives-choice, ◌>>=◌,
}
use salt.Input.{Source, Reader}
use salt.Input.Load.{
  cli_bounded_strlen, salt_cli_report_state_error, or_report, check, delivered_block, note_freed,
  reader, salt_cli_load_plaintext_from_argv, read_plaintext, salt_cli_input_load_plaintext,
}
use salt.Input.Load.Buffers.{closing-Gives}
use salt.Input.Load.Keeps.{
  HasPlaintext, Present, Filled, Emptied, Outcome-Gives, buffer_given, buffer_kept, Filled-AllWiped,
  note_freed-AllWiped,
}
use salt.Input.Load.Keeps.Key.{bounded_strlen-le}
use salt.Input.Outcome.{Reads, cli_input_read_stream_limited-Outcome}
use salt.Parse.KeyInput.{copy_bytes}
use salt.Seal.Sodium.{Sodium, Documented, argv_buffer, size_max}
use salt.State.{CliState}
use salt.State.Invariant.{Inv}
use salt.Status.{Status, salt_ok, is_ok, salt_github_secret_max_value_len}

check-Inv : (interrupted : Bool) (w : Cli) → Inv w.state → InvAfter (check interrupted w)
unfolding check salt_cli_report_state_error
check-Inv true w h = h
check-Inv false w h = h

module _ (sodium : Sodium) (d : Documented sodium) where
  load_from_argv-Inv :
      (w : Cli)
      → Present w.state.plaintext_arg
      → Inv w.state
      → Gives InvAfter (salt_cli_load_plaintext_from_argv sodium w)
  unfolding salt_cli_load_plaintext_from_argv report
  load_from_argv-Inv w given h =
      Gives-bind (λ (b : Bytes). Unit {0}) InvAfter w.state.plaintext_arg _ given
        (λ arg u.
          let n = cli_bounded_strlen arg (salt_github_secret_max_value_len + 1) in
          Gives-choice InvAfter (ltb salt_github_secret_max_value_len n) _ _ h (
            Gives-choice InvAfter (ltb (size_max - 1) n) _ _ h
              (elim (Option-cases (sodium.malloc argv_buffer (n + 1))) [
                | inl e ↦ rw e ((h.0.0, h.0.1, h.0.2, tt, h.0.4, h.0.5, h.0.6), h.1, h.2)
                | inr (buffer, e) ↦
                    rw e (
                      with_buffer arg n buffer (bounded_strlen-le arg _).0
                        (d.malloc_length _ _ _ e))
              ])))
    where
      with_buffer :
          (arg : Bytes) (n : ℕ) (buffer : Bytes)
          → n ≤ length arg
          → length buffer ≡ n + 1
          → Gives InvAfter (do
            copied ← copy_bytes (take n arg) 0 buffer
            closed ← store copied n 0
            some (
              salt_ok,
              record w {
                state = record w.state {
                  argv_plaintext_cap = n + 1;
                  argv_plaintext_copy = some closed;
                  plaintext_arg = some (sodium.memzero arg);
                  message = some closed;
                  message_len = n;
                };
              },
            ))
      with_buffer arg n buffer fits size =
          let l = length-take n arg fits in
          let same : length (take n arg ++ 0 ∷ []) ≡ n + 1 =
            omega (arith, l, length-append (take n arg) (0 ∷ [])) in
          closing-Gives InvAfter (take n arg) buffer n l size _
            ((h.0.0, h.0.1, h.0.2, same, h.0.4, h.0.5, h.0.6), h.1, omega (arith, same))

  module _ (source : Source) (content : Bytes)
      (reads : Reads source salt_github_secret_max_value_len content) where
    abbrev pub before : CliState → Reader
    before s = record (reader s) { output_len = s.message_len }

    read_plaintext-Inv : (w : Cli) → Inv w.state → Gives InvAfter (read_plaintext sodium source w)
    unfolding read_plaintext salt_cli_report_state_error
    read_plaintext-Inv w h =
        Gives-bind _ InvAfter _ _
          (Outcome-Gives (
            cli_input_read_stream_limited-Outcome sodium d source false
              salt_github_secret_max_value_len content reads (before w.state) refl))
          after
      where
        after :
            (done : Status × Reader)
            → Filled salt_github_secret_max_value_len content done
              ⊎ Emptied salt_github_secret_max_value_len (before w.state) done
            → Gives InvAfter (
                let block = done.1.block in
                let w' = record w {
                  state = record w.state {
                    freed = note_freed block w.state.freed;
                    stdin_plaintext =
                        if done.1.delivered then delivered_block block else w.state.stdin_plaintext;
                    message_len = done.1.output_len;
                    error = done.1.error;
                  };
                } in
                or_report done.0 w' (λ w''. some (
                  salt_ok,
                  record w'' { state = record w''.state { message = w''.state.stdin_plaintext } },
                )))
        after done (inr f) = at_false (Gives InvAfter) (is_ok done.0) _ _ f.bad (
          (
            h.0.0,
            h.0.1,
            rw
                (buffer_kept salt_github_secret_max_value_len (before w.state) done
                  w.state.stdin_plaintext refl f)
                h.0.2,
            h.0.3,
            h.0.4,
            h.0.5,
            h.0.6,
          ),
          note_freed-AllWiped salt_github_secret_max_value_len done.1.block w.state.freed f.gone
              h.1,
          rw f.same_len h.2,
        )
        after done (inl f) =
            let at =
              buffer_given salt_github_secret_max_value_len content done w.state.stdin_plaintext
                f in
            at_true (Gives InvAfter) (is_ok done.0) _ _ f.ok (
              (h.0.0, h.0.1, rw at f.size, h.0.3, h.0.4, h.0.5, h.0.6),
              Filled-AllWiped salt_github_secret_max_value_len content done w.state.freed f h.1,
              rw (at, f.len_at) (omega (arith, length-append content (0 ∷ f.back))),
            )

    -- With a library and a stream that keep their documentation, and an argument or the standard input for
    -- the plaintext, the loader of the plaintext faults nowhere; whatever its status, every buffer still has
    -- the size that it is released with, every block that was freed was wiped, and the message is no longer
    -- than its buffer.
    pub salt_cli_input_load_plaintext-Inv :
        (interrupted : Bool) (w : Cli)
        → HasPlaintext w.state.plaintext_from_stdin w.state.plaintext_arg
        → Inv w.state
        → Gives InvAfter (salt_cli_input_load_plaintext sodium source interrupted w)
    unfolding salt_cli_input_load_plaintext report
    salt_cli_input_load_plaintext-Inv interrupted w given h =
        Gives-bind InvAfter InvAfter _ _ (loaded w.state.plaintext_from_stdin given) (λ done k.
          let polled = check interrupted done.1 in
          let kept = check-Inv interrupted done.1 k in
          Gives-choice InvAfter (is_ok done.0) _ _
            (Gives-choice InvAfter (is_ok polled.0) _ _
              (Gives-choice InvAfter (polled.1.state.message_len == 0) _ _ kept kept) kept)
            k)
      where
        loaded :
            (b : Bool)
            → HasPlaintext b w.state.plaintext_arg
            → Gives InvAfter (
                if b
                then read_plaintext sodium source w
                else salt_cli_load_plaintext_from_argv sodium w)
        loaded true given = read_plaintext-Inv w h
        loaded false given = load_from_argv-Inv w given h
