-- ===== src/Input/Load/Result/Key.antt =====
-- src/cli/input.c, `salt_cli_input_load_key_input`: the key that it leaves.
use salt.Args.{Cli, report}
use salt.Base.{
  ℕ, ◌+◌, ◌≤◌, ◌≡◌, refl, ap, ◌∙◌, arith, ◌⊎◌, inl, inr, Bool, true, false, Option, none, some, [],
  ◌∷◌, ◌++◌, ◌==◌, ltb, Bool-cases, Option-cases, at_true, at_false, if◌then◌else◌, Bytes, length,
  length-take, take, store, cstr, Gives, Gives-bind, Gives-choice, Gives-intro, ◌>>=◌,
}
use salt.Input.{Source, Reader}
use salt.Input.Load.{
  cli_bounded_strlen, salt_cli_report_state_error, or_report, delivered_block, note_freed, reader,
  read_key, parse_trimmed, copy_key, salt_cli_input_load_key_input,
}
use salt.Input.Load.Buffers.{Trimmed, trimmed-Gives, closing-Gives, first_is_nul-Gives}
use salt.Input.Load.Keeps.{Present, Filled, Emptied, Outcome-Gives, buffer_given}
use salt.Input.Load.Result.{report-is_error, of_error}
use salt.Input.Load.Result.Plaintext.{short_strlen}
use salt.Input.Outcome.{Reads, take_all, cli_input_read_stream_limited-Outcome}
use salt.Parse.KeyInput.{copy_bytes}
use salt.Parse.KeyObject.{first_is_nul, field_size}
use salt.Parse.Whitespace.{salt_cli_trim_whitespace_inplace}
use salt.Parse.Whitespace.Trim.{trim}
use salt.Seal.Sodium.{Sodium, Documented, trimmed_buffer}
use salt.Status.{
  Status, salt_ok, salt_err_input, is_ok, codes, salt_max_key_input_len, salt_max_key_id_len,
}
use salt.Input.Load.Result.Parsed.{key_text, SamePlain, KeyLoads, parse_trimmed-text}

-- What stands behind a NUL is not part of the string.
cstr-nul : (a b : Bytes) → cstr (a ++ 0 ∷ b) ≡ cstr a
cstr-nul [] b = refl
cstr-nul (c ∷ a) b = elim (Bool-cases (c == 0)) [
  | inl nul ↦ rw nul refl
  | inr other ↦ rw other (ap (λ t. c ∷ t) (cstr-nul a b))
]

module _ (sodium : Sodium) (d : Documented sodium) (field : Bytes)
    (room : field_size ≤ length field) (interrupted : Bool) where
  copy_key-KeyLoads :
      (w v : Cli) (key : Bytes)
      → v.state.key_option ≡ some key
      → length v.state.parsed_key_b64 ≡ salt_max_key_input_len + 1
      → length v.state.parsed_key_id ≡ salt_max_key_id_len + 1
      → SamePlain w v
      → Gives (KeyLoads (trim (cstr key)) w) (copy_key sodium field interrupted v)
  unfolding copy_key report
  copy_key-KeyLoads w v key at k i u =
      Gives-bind (λ (b : Bytes). b ≡ key) (KeyLoads (trim (cstr key)) w) v.state.key_option _
        (Gives-intro _ _ key at refl)
        (λ key' same.
          let n = cli_bounded_strlen key' (salt_max_key_input_len + 1) in
          elim (Bool-cases (ltb salt_max_key_input_len n)) [
            | inl long ↦
                at_true (Gives (KeyLoads (trim (cstr key)) w)) _ _ _ long
                  (λ ok. of_error _ ok (report-is_error _ _ _ _ refl), u)
            | inr short ↦
                at_false (Gives (KeyLoads (trim (cstr key)) w)) _ _ _ short
                  (elim (Option-cases (sodium.malloc trimmed_buffer (n + 1))) [
                    | inl e ↦ rw e (λ ok. of_error _ ok (report-is_error _ _ _ _ refl), u)
                    | inr (buffer, e) ↦ rw e (
                        with_buffer key' same n buffer
                          (short_strlen key' salt_max_key_input_len (ground arith))
                          (d.malloc_length _ _ _ e))
                  ])
          ])
    where
      with_buffer :
          (key' : Bytes)
          → key' ≡ key
          → (n : ℕ) (buffer : Bytes) → n ≡ length key'
          → length buffer ≡ n + 1
          → Gives (KeyLoads (trim (cstr key)) w) (do
            copied ← copy_bytes (take n key') 0 buffer
            closed ← store copied n 0
            trimmed ← salt_cli_trim_whitespace_inplace closed (n + 1)
            parse_trimmed sodium field interrupted trimmed (record v {
              state = record v.state {
                trimmed_key_input = some trimmed;
                trimmed_key_input_cap = n + 1;
              };
            }))
      with_buffer key' eq n buffer same size =
          let copy = take n key' in
          let all : copy ≡ key' = take_all n key' (omega (arith, same)) in
          let l = length-take n key' (omega (arith, same)) in
          closing-Gives (KeyLoads (trim (cstr key)) w) copy buffer n l size _ (
            Gives-bind (Trimmed copy []) (KeyLoads (trim (cstr key)) w) _ _
              (trimmed-Gives copy [] (n + 1) (omega (arith, l)))
              (λ trimmed t.
                let text : cstr trimmed ≡ trim (cstr key) =
                  t.1 ∙ ap trim (cstr-nul copy [] ∙ ap cstr (all ∙ eq)) in
                parse_trimmed-text sodium d field room interrupted trimmed (trim (cstr key)) w
                  (record v {
                    state = record v.state {
                      trimmed_key_input = some trimmed;
                      trimmed_key_input_cap = n + 1;
                    };
                  })
                  text k i u))

  module _ (source : Source) (content : Bytes)
      (reads : Reads source salt_max_key_input_len content) where
    -- The key of the options, behind the read of the standard input.
    abbrev ReadsKey : Cli → Status × Cli → Type 0
    ReadsKey w r =
        (is_ok r.0 ≡ true → r.1.state.key_option ≡ some (trim (cstr content)))
        × (length r.1.state.parsed_key_b64 ≡ salt_max_key_input_len + 1)
        × (length r.1.state.parsed_key_id ≡ salt_max_key_id_len + 1)
        × SamePlain w r.1

    read_key-ReadsKey :
        (w : Cli)
        → length w.state.parsed_key_b64 ≡ salt_max_key_input_len + 1
        → length w.state.parsed_key_id ≡ salt_max_key_id_len + 1
        → Gives (ReadsKey w) (read_key sodium source w)
    unfolding read_key report salt_cli_report_state_error
    read_key-ReadsKey w k i =
        Gives-bind _ (ReadsKey w) _ _
          (Outcome-Gives (
            cli_input_read_stream_limited-Outcome sodium d source false salt_max_key_input_len
              content reads (reader w.state) refl))
          after
      where
        after :
            (done : Status × Reader)
            → Filled salt_max_key_input_len content done
              ⊎ Emptied salt_max_key_input_len (reader w.state) done
            → Gives (ReadsKey w) (
                let block = done.1.block in
                let w' = record w {
                  state = record w.state {
                    freed = note_freed block w.state.freed;
                    stdin_key =
                        if done.1.delivered then delivered_block block else w.state.stdin_key;
                    error = done.1.error;
                  };
                } in
                or_report done.0 w' (λ w''. do
                  buffer ← w''.state.stdin_key
                  trimmed ← salt_cli_trim_whitespace_inplace buffer (done.1.output_len + 1)
                  let state' = record w''.state { stdin_key = some trimmed }
                  empty ← first_is_nul trimmed
                  if empty
                      then some (
                          report salt_err_input
                            (codes "error: key input from stdin is empty\n")
                            (record w'' { state = state' }))
                      else some (
                        salt_ok,
                        record w'' { state = record state' { key_option = some (cstr trimmed) } },
                      )))
        after done (inr f) =
            at_false (Gives (ReadsKey w)) (is_ok done.0) _ _ f.bad
              (λ ok. of_error _ ok (report-is_error _ _ _ _ f.bad), k, i, (refl, refl))
        after done (inl f) = at_true (Gives (ReadsKey w)) (is_ok done.0) _ _ f.ok (
            Gives-bind (λ (b : Bytes). b ≡ content ++ 0 ∷ f.back) (ReadsKey w) _ _
              (Gives-intro _ _ _
                (buffer_given salt_max_key_input_len content done w.state.stdin_key f) refl)
              (λ buffer same. rw same (
                Gives-bind (Trimmed content f.back) (ReadsKey w) _ _
                  (trimmed-Gives content f.back (done.1.output_len + 1) (omega (arith, f.len_at)))
                  (λ trimmed t.
                    let sized : length trimmed ≡ salt_max_key_input_len + 1 =
                      omega (arith, t.0, f.size) in
                    let text : cstr trimmed ≡ trim (cstr content) =
                      t.1 ∙ ap trim (cstr-nul content f.back) in
                    Gives-bind (λ (b : Bool). Unit {0}) (ReadsKey w) _ _
                      (first_is_nul-Gives trimmed (omega (arith, sized)))
                      (λ empty u.
                        Gives-choice (ReadsKey w) empty _ _
                          (λ ok. of_error _ ok (report-is_error _ _ _ _ refl), k, i, (refl, refl))
                          (λ ok. ap some text, k, i, (refl, refl)))))))

    -- With a library and a stream that keep their documentation, an array for the names, and arrays for
    -- the key and the key id of the declared sizes, the loader of the key faults nowhere; with SALT_OK
    -- the arrays hold what the parser of a key input leaves of the key that the options mean, trimmed;
    -- what the options say of the plaintext and of the output is left alone.
    pub salt_cli_input_load_key_input-KeyLoads :
        (w : Cli)
        → Present w.state.key_option
        → length w.state.parsed_key_b64 ≡ salt_max_key_input_len + 1
        → length w.state.parsed_key_id ≡ salt_max_key_id_len + 1
        → Gives
            (KeyLoads (trim (cstr (key_text w.state.key_from_stdin content w.state.key_option))) w)
            (salt_cli_input_load_key_input sodium field source interrupted w)
    unfolding salt_cli_input_load_key_input
    salt_cli_input_load_key_input-KeyLoads w given k i =
        loaded w.state.key_from_stdin w.state.key_option refl given
      where
        loaded :
            (b : Bool) (key : Option Bytes)
            → w.state.key_option ≡ key
            → Present key
            → Gives (KeyLoads (trim (cstr (key_text b content key))) w) (
                if b
                then (do
                  done ← read_key sodium source w
                  if is_ok done.0 then copy_key sodium field interrupted done.1 else some done)
                else copy_key sodium field interrupted w)
        loaded false none e given = absurd given
        loaded false (some key) e given = copy_key-KeyLoads w w key e k i (refl, refl)
        loaded true key e given =
            let P = KeyLoads (trim (cstr (trim (cstr content)))) w in
            Gives-bind (ReadsKey w) P _ _ (read_key-ReadsKey w k i) (λ done h.
              elim (Bool-cases (is_ok done.0)) [
                | inl ok ↦
                    at_true (Gives P) (is_ok done.0) _ _ ok
                      (copy_key-KeyLoads w done.1 (trim (cstr content)) (h.0 ok) h.1 h.2 h.3)
                | inr bad ↦ at_false (Gives P) (is_ok done.0) _ _ bad (λ ok. of_error _ ok bad, h.3)
              ])
