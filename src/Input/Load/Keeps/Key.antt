-- ===== src/Input/Load/Keeps/Key.antt =====
-- src/cli/input.c, `salt_cli_input_load_key_input`: the invariant of the state behind it.
use salt.Args.{Cli, Run, report}
use salt.Base.{
  ℕ, ◌+◌, ◌≤◌, ◌≡◌, refl, arith, ◌⊎◌, inl, inr, Bool, true, false, Option, some, [], ◌∷◌, ◌++◌, ltb,
  Option-cases, at_true, at_false, if◌then◌else◌, Bytes, length, length-append, length-take, take,
  store, cstr, IsCstr-cstr, Every-of_eq, Gives, Gives-bind, Gives-choice, Gives-intro, ◌>>=◌,
}
use salt.Input.{Source, Reader}
use salt.Input.Load.{
  cli_bounded_strlen, salt_cli_report_state_error, or_report, check, delivered_block, note_freed,
  reader, read_key, parse_trimmed, copy_key, salt_cli_input_load_key_input,
}
use salt.Input.Load.Buffers.{Trimmed, trimmed-Gives, closing-Gives, first_is_nul-Gives}
use salt.Input.Load.Keeps.{
  Kept, KeptAfter, Present, Filled, Emptied, Outcome-Gives, buffer_given, buffer_kept,
  Filled-AllWiped, note_freed-AllWiped,
}
use salt.Input.Outcome.{Reads, cli_input_read_stream_limited-Outcome}
use salt.Parse.KeyInput.{KeyFormat, copy_bytes}
use salt.Parse.KeyInput.Outcome.{
  Read, no_room, as_json, as_base64, too_long, blank, salt_cli_parse_key_input-Read,
}
use salt.Parse.KeyObject.{Parser, first_is_nul, field_size}
use salt.Parse.Sizes.Parser.{salt_cli_parse_key_input-sized}
use salt.Parse.Whitespace.{salt_cli_trim_whitespace_inplace}
use salt.Seal.Sodium.{Sodium, Documented, trimmed_buffer}
use salt.Status.{
  Status, salt_ok, salt_err_input, is_ok, codes, salt_max_key_input_len, salt_max_key_id_len,
}

pub Read-Returns :
    (ks is : ℕ) (format : KeyFormat) (s : Bytes) (run : Option (Status × Parser))
    → Read ks is format s run
    → (r : Status × Parser) × (run ≡ some r)
Read-Returns ks is format s run (no_room e (p, q)) = (_, q)
Read-Returns ks is format s run (as_json e (inl (p, q))) = (_, q)
Read-Returns ks is format s run (as_json e (inr p)) = (_, p.finished.returns)
Read-Returns ks is format s run (as_base64 e (inl (too_long l (p, q)))) = (_, q)
Read-Returns ks is format s run (as_base64 e (inl (blank l b (p, q)))) = (_, q)
Read-Returns ks is format s run (as_base64 e (inr t)) = (_, t.returns)

check-Kept : (interrupted : Bool) (w : Cli) → Kept w.state → KeptAfter (check interrupted w)
unfolding check salt_cli_report_state_error
check-Kept true w h = h
check-Kept false w h = h

or_report-Kept :
    (rc : Status) (w : Cli) (next : Cli → Run)
    → Kept w.state
    → Gives KeptAfter (next w)
    → Gives KeptAfter (or_report rc w next)
unfolding salt_cli_report_state_error
or_report-Kept rc w next h n = Gives-choice KeptAfter (is_ok rc) _ _ n h

pub bounded_strlen-le :
    (value : Bytes) (n : ℕ)
    → (cli_bounded_strlen value n ≤ length value) × (cli_bounded_strlen value n ≤ n)
unfolding cli_bounded_strlen
bounded_strlen-le value n = (ground arith, ground arith)

module _ (sodium : Sodium) (d : Documented sodium) (field : Bytes)
    (room : field_size ≤ length field) (interrupted : Bool) where
  parse_trimmed-Kept :
      (trimmed : Bytes) (w : Cli)
      → Kept w.state
      → Gives KeptAfter (parse_trimmed sodium field interrupted trimmed w)
  unfolding parse_trimmed
  parse_trimmed-Kept trimmed w h =
      let s = w.state in
      let sized =
        salt_cli_parse_key_input-sized (salt_max_key_input_len + 1) (salt_max_key_id_len + 1)
          (λ e. Unit {0}) (λ message e u. tt) field (some (cstr trimmed)) s.key_format
          s.parsed_key_b64 (salt_max_key_input_len + 1) s.parsed_key_id (salt_max_key_id_len + 1)
          s.parsed_has_key_id s.error h.0.0.5 h.0.0.6 tt in
      let (r, e) = Read-Returns _ _ _ _ _ (
        salt_cli_parse_key_input-Read field (cstr trimmed) s.key_format s.parsed_key_b64
          (salt_max_key_input_len + 1) s.parsed_key_id (salt_max_key_id_len + 1) s.parsed_has_key_id
          s.error (IsCstr-cstr trimmed) room (omega (arith, h.0.0.5)) (omega (arith, h.0.0.6))) in
      let l = Every-of_eq _ _ r e sized in
      let p = r.1 in
      let w' : Cli = record w {
        state = record w.state {
          parsed_key_b64 = p.fields.key_b64;
          parsed_key_id = p.fields.key_id;
          parsed_has_key_id = p.has_key_id;
          error = p.error;
        };
      } in
      let kept : Kept w'.state =
        (((h.0.0.0, h.0.0.1, h.0.0.2, h.0.0.3, h.0.0.4, l.0, l.1), h.0.1, h.0.2), h.1) in
      rw (e, ◌>>=◌)
        (or_report-Kept r.0 w' (λ w''. some (check interrupted w'')) kept
          (check-Kept interrupted w' kept))

  copy_key-Kept :
      (w : Cli)
      → Present w.state.key_option
      → Kept w.state
      → Gives KeptAfter (copy_key sodium field interrupted w)
  unfolding copy_key report
  copy_key-Kept w key_given h =
      Gives-bind (λ (key : Bytes). Unit {0}) KeptAfter w.state.key_option _ key_given
        (λ key u.
          let n = cli_bounded_strlen key (salt_max_key_input_len + 1) in
          Gives-choice KeptAfter (ltb salt_max_key_input_len n) _ _ h
            (elim (Option-cases (sodium.malloc trimmed_buffer (n + 1))) [
              | inl e ↦
                  rw e (
                    ((h.0.0.0, h.0.0.1, h.0.0.2, h.0.0.3, tt, h.0.0.5, h.0.0.6), h.0.1, h.0.2),
                    h.1,
                  )
              | inr (buffer, e) ↦
                  rw e
                    (with_buffer key n buffer (bounded_strlen-le key _).0 (d.malloc_length _ _ _ e))
            ]))
    where
      with_buffer :
          (key : Bytes) (n : ℕ) (buffer : Bytes)
          → n ≤ length key
          → length buffer ≡ n + 1
          → Gives KeptAfter (do
            copied ← copy_bytes (take n key) 0 buffer
            closed ← store copied n 0
            trimmed ← salt_cli_trim_whitespace_inplace closed (n + 1)
            parse_trimmed sodium field interrupted trimmed (record w {
              state = record w.state {
                trimmed_key_input = some trimmed;
                trimmed_key_input_cap = n + 1;
              };
            }))
      with_buffer key n buffer fits size =
          let copy = take n key in
          let l = length-take n key fits in
          closing-Gives KeptAfter copy buffer n l size _ (
            Gives-bind (Trimmed copy []) KeptAfter _ _
              (trimmed-Gives copy [] (n + 1) (omega (arith, l)))
              (λ trimmed t.
                let same : length trimmed ≡ n + 1 =
                  omega (arith, l, t.0, length-append copy (0 ∷ [])) in
                parse_trimmed-Kept trimmed
                  (record w {
                    state = record w.state {
                      trimmed_key_input = some trimmed;
                      trimmed_key_input_cap = n + 1;
                    };
                  })
                  (
                    ((h.0.0.0, h.0.0.1, h.0.0.2, h.0.0.3, same, h.0.0.5, h.0.0.6), h.0.1, h.0.2),
                    h.1,
                  )))

  abbrev KeyRead : Status × Cli → Type 0
  KeyRead r = KeptAfter r × Present r.1.state.key_option

  module _ (source : Source) (content : Bytes)
      (reads : Reads source salt_max_key_input_len content) where
    read_key-Kept :
        (w : Cli)
        → Present w.state.key_option
        → Kept w.state
        → Gives KeyRead (read_key sodium source w)
    unfolding read_key report salt_cli_report_state_error
    read_key-Kept w key_given h =
        Gives-bind _ KeyRead _ _
          (Outcome-Gives (
            cli_input_read_stream_limited-Outcome sodium d source false salt_max_key_input_len
              content reads (reader w.state) refl))
          after
      where
        after :
            (done : Status × Reader)
            → Filled salt_max_key_input_len content done
              ⊎ Emptied salt_max_key_input_len (reader w.state) done
            → Gives KeyRead (
                let block = done.1.block in
                let w' = record w {
                  state = record w.state {
                    freed = note_freed block w.state.freed;
                    stdin_key =
                        if done.1.delivered then delivered_block block else w.state.stdin_key;
                    error = done.1.error;
                  };
                } in
                or_report done.0 w' (λ w''. do
                  buffer ← w''.state.stdin_key
                  trimmed ← salt_cli_trim_whitespace_inplace buffer (done.1.output_len + 1)
                  let state' = record w''.state { stdin_key = some trimmed }
                  empty ← first_is_nul trimmed
                  if empty
                      then some (
                          report salt_err_input
                            (codes "error: key input from stdin is empty\n")
                            (record w'' { state = state' }))
                      else some (
                        salt_ok,
                        record w'' { state = record state' { key_option = some (cstr trimmed) } },
                      )))
        after done (inr f) = at_false (Gives KeyRead) (is_ok done.0) _ _ f.bad (
          (
            (
              (
                h.0.0.0,
                rw
                    (buffer_kept salt_max_key_input_len (reader w.state) done w.state.stdin_key refl
                      f)
                    h.0.0.1,
                h.0.0.2,
                h.0.0.3,
                h.0.0.4,
                h.0.0.5,
                h.0.0.6,
              ),
              note_freed-AllWiped salt_max_key_input_len done.1.block w.state.freed f.gone h.0.1,
              h.0.2,
            ),
            h.1,
          ),
          key_given,
        )
        after done (inl f) =
            let freed_kept =
              Filled-AllWiped salt_max_key_input_len content done w.state.freed f h.0.1 in
            at_true (Gives KeyRead) (is_ok done.0) _ _ f.ok (
              Gives-bind (λ (b : Bytes). b ≡ content ++ 0 ∷ f.back) KeyRead _ _
                (Gives-intro _ _ _
                  (buffer_given salt_max_key_input_len content done w.state.stdin_key f) refl)
                (λ buffer same. rw same (
                  Gives-bind (Trimmed content f.back) KeyRead _ _
                    (trimmed-Gives content f.back (done.1.output_len + 1) (omega (arith, f.len_at)))
                    (λ trimmed t.
                      let sized : length trimmed ≡ salt_max_key_input_len + 1 =
                        omega (arith, t.0, f.size) in
                      Gives-bind (λ (b : Bool). Unit {0}) KeyRead _ _
                        (first_is_nul-Gives trimmed (omega (arith, sized)))
                        (λ empty u.
                          Gives-choice KeyRead empty _ _
                            (
                              (
                                (
                                  (h.0.0.0, sized, h.0.0.2, h.0.0.3, h.0.0.4, h.0.0.5, h.0.0.6),
                                  freed_kept,
                                  h.0.2,
                                ),
                                h.1,
                              ),
                              key_given,
                            )
                            (
                              (
                                (
                                  (h.0.0.0, sized, h.0.0.2, h.0.0.3, h.0.0.4, h.0.0.5, h.0.0.6),
                                  freed_kept,
                                  h.0.2,
                                ),
                                h.1,
                              ),
                              tt,
                            ))))))

    -- With a library and a stream that keep their documentation, an array for the names, a key, and an
    -- argument or the standard input for the plaintext, the loader of the key faults nowhere; whatever its
    -- status, every buffer still has the size that it is released with, every block that was freed was
    -- wiped, the message is no longer than its buffer, and the plaintext's source is there.
    pub salt_cli_input_load_key_input-Kept :
        (w : Cli)
        → Present w.state.key_option
        → Kept w.state
        → Gives KeptAfter (salt_cli_input_load_key_input sodium field source interrupted w)
    unfolding salt_cli_input_load_key_input
    salt_cli_input_load_key_input-Kept w key_given h =
        Gives-choice KeptAfter w.state.key_from_stdin _ _
          (Gives-bind KeyRead KeptAfter _ _ (read_key-Kept w key_given h)
            (λ done (k, p). Gives-choice KeptAfter (is_ok done.0) _ _ (copy_key-Kept done.1 p k) k))
          (copy_key-Kept w key_given h)
