-- ===== src/Input/Load/Result/Plaintext.antt =====
-- src/cli/input.c, `salt_cli_input_load_plaintext`: the message that it leaves.
use salt.Args.{Cli, report}
use salt.Base.{
  ℕ, ◌+◌, ◌-◌, ◌≤◌, ◌<◌, ◌≡◌, refl, sym, ap, arith, ◌⊎◌, inl, inr, Bool, true, false, Option, none,
  some, [], ◌∷◌, ◌++◌, ◌==◌, ltb, Bool-cases, Option-cases, at_true, at_false, if◌then◌else◌, Bytes,
  length, length-take, take, store, Gives, Gives-bind, Gives-choice, Gives-intro, ◌>>=◌,
}
use salt.Diagnostics.{salt_cli_set_error}
use salt.Input.{Source, Reader}
use salt.Input.Load.{
  cli_bounded_strlen, salt_cli_report_state_error, or_report, check, delivered_block, note_freed,
  salt_cli_load_plaintext_from_argv, read_plaintext, salt_cli_input_load_plaintext,
}
use salt.Input.Load.Buffers.{closing-Gives}
use salt.Input.Load.Keeps.{HasPlaintext, Filled, Emptied, Outcome-Gives, buffer_given}
use salt.Input.Load.Keeps.Plaintext.{before}
use salt.Input.Load.Result.{Untouched, report-is_error, of_error}
use salt.Input.Outcome.{Reads, take_all, cli_input_read_stream_limited-Outcome}
use salt.Parse.KeyInput.{copy_bytes}
use salt.Seal.Sodium.{Sodium, Documented, argv_buffer, size_max}
use salt.State.{CliState}
use salt.Status.{Status, salt_ok, salt_err_input, is_ok, codes, salt_github_secret_max_value_len}

-- The plaintext that the options mean.
abbrev pub plaintext_of : Bool → Bytes → Option Bytes → Bytes
plaintext_of true content p = content
plaintext_of false content none = []
plaintext_of false content (some arg) = arg

-- The message is the plaintext.
pub record Loaded (plaintext : Bytes) (s : CliState) : Type 0 where
  pub buffer : Bytes
  pub message_at : s.message ≡ some buffer
  pub len : s.message_len ≡ length plaintext
  pub holds : take (length plaintext) buffer ≡ plaintext

-- With SALT_OK, and it is not longer than a secret may be.
abbrev pub Loads : Bytes → Cli → Status × Cli → Type 0
Loads plaintext w r =
    (is_ok r.0 ≡ true
      → Loaded plaintext r.1.state × (length plaintext ≤ salt_github_secret_max_value_len))
    × Untouched w r.1

take-front : (xs ys : Bytes) → take (length xs) (xs ++ ys) ≡ xs
take-front [] [] = refl
take-front [] (y ∷ ys) = refl
take-front (x ∷ xs) ys = ap (λ t. x ∷ t) (take-front xs ys)

pub short_strlen :
    (value : Bytes) (n : ℕ)
    → cli_bounded_strlen value (n + 1) ≤ n
    → cli_bounded_strlen value (n + 1) ≡ length value
unfolding cli_bounded_strlen
short_strlen value n h = ground arith

module _ (sodium : Sodium) (d : Documented sodium) where
  load_from_argv-Loads :
      (w : Cli) (arg : Bytes)
      → w.state.plaintext_arg ≡ some arg
      → Gives (Loads arg w) (salt_cli_load_plaintext_from_argv sodium w)
  unfolding salt_cli_load_plaintext_from_argv
  load_from_argv-Loads w arg at =
      Gives-bind (λ (b : Bytes). b ≡ arg) (Loads arg w) w.state.plaintext_arg _
        (Gives-intro _ _ arg at refl)
        (λ arg' same.
          let n = cli_bounded_strlen arg' (salt_github_secret_max_value_len + 1) in
          elim (Bool-cases (ltb salt_github_secret_max_value_len n)) [
            | inl long ↦
                at_true (Gives (Loads arg w)) _ _ _ long
                  (λ ok. of_error _ ok (report-is_error _ _ _ _ refl), (refl, refl))
            | inr short ↦ at_false (Gives (Loads arg w)) _ _ _ short (
                Gives-choice (Loads arg w) (ltb (size_max - 1) n) _ _
                  (λ ok. of_error _ ok (report-is_error _ _ _ _ refl), (refl, refl))
                  (elim (Option-cases (sodium.malloc argv_buffer (n + 1))) [
                    | inl e ↦
                        rw e (λ ok. of_error _ ok (report-is_error _ _ _ _ refl), (refl, refl))
                    | inr (buffer, e) ↦ rw e (
                        let short' : n ≤ salt_github_secret_max_value_len = ground arith in
                        with_buffer arg' same n buffer (short_strlen arg' _ short') short'
                          (d.malloc_length _ _ _ e))
                  ]))
          ])
    where
      with_buffer :
          (arg' : Bytes)
          → arg' ≡ arg
          → (n : ℕ) (buffer : Bytes) → n ≡ length arg'
          → n ≤ salt_github_secret_max_value_len
          → length buffer ≡ n + 1
          → Gives (Loads arg w) (do
            copied ← copy_bytes (take n arg') 0 buffer
            closed ← store copied n 0
            some (
              salt_ok,
              record w {
                state = record w.state {
                  argv_plaintext_cap = n + 1;
                  argv_plaintext_copy = some closed;
                  plaintext_arg = some (sodium.memzero arg');
                  message = some closed;
                  message_len = n;
                };
              },
            ))
      with_buffer arg' eq n buffer same fits size =
          let all : take n arg' ≡ arg' = take_all n arg' (omega (arith, same)) in
          let long : length arg ≡ n = rw (← eq) (sym same) in
          closing-Gives (Loads arg w) (take n arg') buffer n
            (length-take n arg' (omega (arith, same))) size _
            (
              (λ ok. (
                record {
                  buffer = take n arg' ++ 0 ∷ [];
                  message_at = refl;
                  len = sym long;
                  holds = rw (all, eq) (take-front arg (0 ∷ []));
                },
                omega (arith, long, fits),
              )),
              (refl, refl),
            )

  module _ (source : Source) (content : Bytes)
      (reads : Reads source salt_github_secret_max_value_len content) where
    read_plaintext-Loads : (w : Cli) → Gives (Loads content w) (read_plaintext sodium source w)
    unfolding read_plaintext salt_cli_report_state_error
    read_plaintext-Loads w =
        Gives-bind _ (Loads content w) _ _
          (Outcome-Gives (
            cli_input_read_stream_limited-Outcome sodium d source false
              salt_github_secret_max_value_len content reads
              (before sodium d source content reads w.state) refl))
          after
      where
        after :
            (done : Status × Reader)
            → Filled salt_github_secret_max_value_len content done
              ⊎ Emptied salt_github_secret_max_value_len
                  (before sodium d source content reads w.state)
                  done
            → Gives (Loads content w) (
                let block = done.1.block in
                let w' = record w {
                  state = record w.state {
                    freed = note_freed block w.state.freed;
                    stdin_plaintext =
                        if done.1.delivered then delivered_block block else w.state.stdin_plaintext;
                    message_len = done.1.output_len;
                    error = done.1.error;
                  };
                } in
                or_report done.0 w' (λ w''. some (
                  salt_ok,
                  record w'' { state = record w''.state { message = w''.state.stdin_plaintext } },
                )))
        after done (inr f) =
            at_false (Gives (Loads content w)) (is_ok done.0) _ _ f.bad
              (λ ok. of_error _ ok (report-is_error _ _ _ _ f.bad), (refl, refl))
        after done (inl f) = at_true (Gives (Loads content w)) (is_ok done.0) _ _ f.ok (
          λ ok. (
            record {
              buffer = content ++ 0 ∷ f.back;
              message_at =
                  buffer_given salt_github_secret_max_value_len content done w.state.stdin_plaintext
                    f;
              len = f.len_at;
              holds = take-front content (0 ∷ f.back);
            },
            f.fits,
          ),
          (refl, refl),
        )

    check-Loads :
        (interrupted : Bool) (plaintext : Bytes) (w v : Cli)
        → Loaded plaintext v.state × (length plaintext ≤ salt_github_secret_max_value_len)
        → Untouched w v
        → Loads plaintext w (check interrupted v)
    unfolding check salt_cli_report_state_error salt_cli_set_error
    check-Loads true plaintext w v l u = (λ ok. of_error _ ok (report-is_error _ _ _ _ refl), u)
    check-Loads false plaintext w v l u = (λ ok. l, u)

    -- What the loader does with the plaintext that the options mean: with SALT_OK the message is that
    -- plaintext, which is neither empty nor too long.
    abbrev pub NotEmpty : Cli → Status × Cli → Type 0
    NotEmpty w r =
        let plaintext = plaintext_of w.state.plaintext_from_stdin content w.state.plaintext_arg in
        Loads plaintext w r × (is_ok r.0 ≡ true → 0 < length plaintext)

    -- With a library and a stream that keep their documentation, and an argument or the standard input
    -- for the plaintext, the loader faults nowhere; with SALT_OK the message is exactly the plaintext, of
    -- a length from 1 to the limit; the key's parts of the state and the output stream are left alone.
    pub salt_cli_input_load_plaintext-Loads :
        (interrupted : Bool) (w : Cli)
        → HasPlaintext w.state.plaintext_from_stdin w.state.plaintext_arg
        → Gives (NotEmpty w) (salt_cli_input_load_plaintext sodium source interrupted w)
    unfolding salt_cli_input_load_plaintext report
    salt_cli_input_load_plaintext-Loads interrupted w given =
        Gives-bind (Loads plaintext w) (NotEmpty w) _ _
          (loaded w.state.plaintext_from_stdin w.state.plaintext_arg refl given)
          (λ done l. elim (Bool-cases (is_ok done.0)) [
            | inl ok ↦ at_true (Gives (NotEmpty w)) (is_ok done.0) _ _ ok (
                polled (check interrupted done.1)
                  (check-Loads interrupted plaintext w done.1 (l.0 ok) l.1))
            | inr bad ↦
                at_false (Gives (NotEmpty w)) (is_ok done.0) _ _ bad (l, λ ok. of_error _ ok bad)
          ])
      where
        plaintext : Bytes
        plaintext = plaintext_of w.state.plaintext_from_stdin content w.state.plaintext_arg

        loaded :
            (b : Bool) (p : Option Bytes)
            → w.state.plaintext_arg ≡ p
            → HasPlaintext b p
            → Gives (Loads (plaintext_of b content p) w) (
                if b
                then read_plaintext sodium source w
                else salt_cli_load_plaintext_from_argv sodium w)
        loaded true p e given = read_plaintext-Loads w
        loaded false none e given = absurd given
        loaded false (some arg) e given = load_from_argv-Loads w arg e

        polled :
            (p : Status × Cli)
            → Loads plaintext w p
            → Gives (NotEmpty w) (
                if is_ok p.0
                then (if p.1.state.message_len == 0
                    then some
                        (report salt_err_input (codes "error: plaintext must not be empty\n") p.1)
                    else some p)
                else some p)
        polled p l = elim (Bool-cases (is_ok p.0)) [
          | inr bad ↦ at_false (Gives (NotEmpty w)) (is_ok p.0) _ _ bad (l, λ ok. of_error _ ok bad)
          | inl good ↦
              at_true (Gives (NotEmpty w)) (is_ok p.0) _ _ good
                (elim (Bool-cases (p.1.state.message_len == 0)) [
                  | inl empty ↦
                      at_true (Gives (NotEmpty w)) (p.1.state.message_len == 0) _ _ empty (
                        (λ ok. of_error _ ok (report-is_error _ _ _ _ refl), l.1),
                        λ ok. of_error _ ok (report-is_error _ _ _ _ refl),
                      )
                  | inr some_bytes ↦
                      at_false (Gives (NotEmpty w)) (p.1.state.message_len == 0) _ _ some_bytes
                        (l, λ ok. let filled = (l.0 good).0.len in ground arith)
                ])
        ]
