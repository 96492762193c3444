-- ===== src/Prepare/Keeps.antt =====
-- src/cli/prepare.c: the invariant of the state behind the preparation.
use salt.Args.{Cli, report}
use salt.Args.Keeps.{InvAfter}
use salt.Base.{
  ℕ, zero, suc, ◌+◌, ◌≤◌, ◌≡◌, refl, arith, inl, inr, Bool, true, false, Option, none, some, List,
  [], ◌∷◌, ◌++◌, ◌==◌, lt_or_le, Option-cases, if◌then◌else◌, Bytes, length, length-append, drop,
  Gives, Gives-bind, Gives-choice,
}
use salt.Diagnostics.{salt_cli_report_stream_status-status}
use salt.Input.Load.{check, note_freed, salt_cli_report_state_error}
use salt.Input.Load.Keeps.{Present}
use salt.Prepare.{seal_input, seal_frame, take_frame, seal_message, salt_cli_prepare_output}
use salt.Seal.Box.{Input, Frame, salt_seal_base64}
use salt.Seal.Box.Contract.{Outcome, failed, sealed, Released, not_reached, wiped_key, wiped_both}
use salt.Seal.Box.Outcome.{salt_seal_base64_keylen-Outcome}
use salt.Seal.Key.{max_public_key_b64_len}
use salt.Seal.Length.{salt_required_base64_output_len, bytes_before_nul, salt_bounded_strlen}
use salt.Seal.Length.Exact.{salt_required_base64_output_len-exact}
use salt.Seal.Sodium.{Sodium, Documented, output_buffer, size_max}
use salt.State.{CliState, salt_cli_resolve_effective_key_id}
use salt.State.Resolve.{resolve-elim}
use salt.State.Invariant.{AllWiped, Inv, wiped-IsWiped}
use salt.Status.{Status, salt_err_internal, is_ok, codes, salt_max_key_input_len}

-- A search within the array faults nowhere.
pub bytes_before_nul-Gives :
    (value : Bytes) (n : ℕ) → n ≤ length value → Gives (λ (k : ℕ). k ≤ n) (bytes_before_nul value n)
unfolding bytes_before_nul
bytes_before_nul-Gives value zero h = omega arith
bytes_before_nul-Gives [] (suc n) h = absurd (omega arith)
bytes_before_nul-Gives (c ∷ cs) (suc n) h =
    Gives-choice (λ (k : ℕ). k ≤ suc n) (c == 0) _ _ (omega arith)
      (next _ (bytes_before_nul-Gives cs n (omega arith)))
  where
    next :
        (m : Option ℕ)
        → Gives (λ (k : ℕ). k ≤ n) m
        → Gives (λ (k : ℕ). k ≤ suc n) (elim m [ none ↦ none | some k ↦ some (suc k) ])
    next none h = h
    next (some k) h = omega arith

length-drop : (n : ℕ) (xs : Bytes) → n ≤ length xs → length (drop n xs) + n ≡ length xs
length-drop zero xs h = omega arith
length-drop (suc n) [] h = absurd (omega arith)
length-drop (suc n) (x ∷ xs) h = omega (arith, length-drop n xs (omega arith))

-- A size that is computed is a `size_t`.
pub required-fits :
    (sodium : Sodium)
    → Documented sodium
    → (m : ℕ) → salt_required_base64_output_len sodium m ≤ size_max
unfolding salt_required_base64_output_len
required-fits sodium d m = elim (lt_or_le size_max m) [
  | inl large ↦ ground arith
  | inr fits ↦ ground (arith, salt_required_base64_output_len-exact sodium d m fits)
]

-- What a sealing leaves to the state: an output of the old size, and no block.
record Left (n : ℕ) (f : Frame) : Type 0 where
  output : Bytes
  output_at : f.output ≡ some output
  same_size : length output ≡ n
  gone : (blocks : List Bytes) → AllWiped blocks → AllWiped (note_freed f.ciphertext blocks)

Released-gone :
    {before after : Frame} (blocks : List Bytes)
    → Released before after
    → AllWiped blocks
    → AllWiped (note_freed after.ciphertext blocks)
Released-gone blocks (not_reached k c) h = rw c h
Released-gone blocks (wiped_key k c s) h = rw c h
Released-gone blocks (wiped_both n k c s) h = rw c (wiped-IsWiped n, h)

Outcome-Left :
    {sodium : Sodium} {a : Input} {before : Frame} {run : Option (Status × Frame)} (buffer : Bytes)
    → before.output ≡ some buffer
    → length buffer ≡ a.output_size
    → Outcome sodium a before run
    → Gives (λ (r : Status × Frame). Left a.output_size r.1) run
Outcome-Left buffer e l (failed {after = after} reason same w released) = record {
  output = buffer;
  output_at = rw same e;
  same_size = l;
  gone = λ blocks h. Released-gone blocks released h;
}
Outcome-Left {a = a} buffer e l (sealed {after = after} s released) =
    let same : s.output_array ≡ buffer = cc (s.output_at, e) in
    record {
      output = (s.text ++ 0 ∷ s.back) ++ drop a.output_size s.output_array;
      output_at = s.stores;
      same_size = rw same (
          omega (
            arith,
            l,
            s.back_size,
            length-append (s.text ++ 0 ∷ s.back) (drop a.output_size buffer),
            length-drop a.output_size buffer (omega (arith, l)),
          ));
      gone = λ blocks h. Released-gone blocks released h;
    }

-- A report of an error is an error.
report-is_error :
    (rc : Status) (message : Bytes) (w : Cli)
    → is_ok rc ≡ false
    → is_ok (report rc message w).0 ≡ false
unfolding report
report-is_error rc message w bad =
    elim (salt_cli_report_stream_status-status w.err_stream w.state.error rc message) [
      | inl e ↦ rw e bad
      | inr e ↦ rw e refl
    ]

-- The invariant, and an output where the status is SALT_OK.
abbrev pub Prepared : Status × Cli → Type 0
Prepared r = InvAfter r × (is_ok r.0 ≡ true → Present r.1.state.output)

report-Prepared :
    (message : Bytes) (w : Cli) → Inv w.state → Prepared (report salt_err_internal message w)
unfolding report
report-Prepared message w k =
    (k, λ ok. absurd (cc (ok, report-is_error salt_err_internal message w refl)))

module _ (sodium : Sodium) (d : Documented sodium)
    (keys_fit : max_public_key_b64_len sodium ≤ salt_max_key_input_len) (scratch : Bytes)
    (scratch_size : length scratch ≡ sodium.public_key_bytes) where
  salt_seal_base64-Left :
      (n : ℕ) (s : CliState) (buffer : Bytes)
      → Inv s
      → s.output ≡ some buffer
      → length buffer ≡ n
      → n ≤ size_max
      → Gives
          (λ (r : Status × Frame). Left n r.1)
          (salt_seal_base64 sodium (seal_input n s) (seal_frame scratch s))
  unfolding salt_seal_base64 salt_bounded_strlen
  salt_seal_base64-Left n s buffer h at size fits =
      Gives-bind (λ (k : ℕ). k ≤ max_public_key_b64_len sodium + 1)
        (λ (r : Status × Frame). Left n r.1) _ _
        (bytes_before_nul-Gives s.parsed_key_b64 (max_public_key_b64_len sodium + 1)
          (omega (arith, keys_fit, h.0.5)))
        (λ len short. Outcome-Left buffer at size (
          salt_seal_base64_keylen-Outcome sodium d
            (record (seal_input n s) { public_key_b64_len = len }) (seal_frame scratch s)
            (record {
              message_holds = h.2;
              key_holds = omega (arith, short, keys_fit, h.0.5);
              output_holds = rw at (omega (arith, size));
              output_size_fits = omega arith;
              scratch_size = scratch_size;
              no_block = refl;
            })))

  seal_message-Prepared :
      (interrupted : Bool) (n : ℕ) (w : Cli) (buffer : Bytes)
      → Inv w.state
      → w.state.output ≡ some buffer
      → w.state.output_cap ≡ n
      → length buffer ≡ n
      → n ≤ size_max
      → Gives Prepared (seal_message sodium scratch interrupted n w)
  unfolding seal_message check salt_cli_report_state_error report
  seal_message-Prepared interrupted n w buffer h at cap size fits =
      Gives-bind (λ (r : Status × Frame). Left n r.1) Prepared _ _
        (salt_seal_base64-Left n w.state buffer h at size fits)
        (λ sealed l.
          let w' : Cli = record w { state = take_frame sealed.1 w.state } in
          let kept : Inv w'.state = (
            (
              rw l.output_at (omega (arith, l.same_size, cap)),
              h.0.1,
              h.0.2,
              h.0.3,
              h.0.4,
              h.0.5,
              h.0.6,
            ),
            l.gone w.state.freed h.1,
            h.2,
          ) in
          let there : Present w'.state.output = rw l.output_at tt in
          Gives-choice Prepared (is_ok sealed.0) _ _ (polled interrupted w' kept there)
            (kept, λ ok. there))
    where
      polled :
          (interrupted : Bool) (w' : Cli)
          → Inv w'.state
          → Present w'.state.output
          → Gives Prepared (
              let p = check interrupted w' in
              if is_ok p.0
              then (if p.1.state.output_written == 0
                  then some (report salt_err_internal (codes "error: produced empty output\n") p.1)
                  else some p)
              else some p)
      polled true w' k there =
          let p = check true w' in
          Gives-choice Prepared (is_ok p.0) _ _
            (Gives-choice Prepared (p.1.state.output_written == 0) _ _ (k, λ ok. there)
              (k, λ ok. there))
            (k, λ ok. there)
      polled false w' k there =
          Gives-choice Prepared (w'.state.output_written == 0) _ _ (k, λ ok. there) (k, λ ok. there)

  resolved-Inv : (s : CliState) → Inv s → Inv (salt_cli_resolve_effective_key_id s)
  resolved-Inv s h = resolve-elim Inv s h (λ id. h)

  -- With a library that keeps its documentation, a scratch array and an array for the text of a key of
  -- their sizes, the preparation faults nowhere; whatever its status, every buffer still has the size that it
  -- is released with, every block that was freed was wiped, and the message is no longer than its buffer;
  -- and with SALT_OK there is an output.
  pub salt_cli_prepare_output-Prepared :
      (interrupted : Bool) (w : Cli)
      → Inv w.state
      → Gives Prepared (salt_cli_prepare_output sodium scratch interrupted w)
  unfolding salt_cli_prepare_output
  salt_cli_prepare_output-Prepared interrupted w h =
      let s = salt_cli_resolve_effective_key_id w.state in
      let k = resolved-Inv w.state h in
      let n = salt_required_base64_output_len sodium s.message_len in
      Gives-choice Prepared (n == 0) _ _ (report-Prepared _ (record w { state = s }) k)
        (elim (Option-cases (sodium.malloc output_buffer n)) [
          | inl e ↦ rw e (
              report-Prepared _ (record w { state = record s { output = none } })
                ((tt, k.0.1, k.0.2, k.0.3, k.0.4, k.0.5, k.0.6), k.1, k.2))
          | inr (buffer, e) ↦
              let size = d.malloc_length output_buffer n buffer e in
              rw e (
                seal_message-Prepared interrupted n
                  (record w { state = record s { output = some buffer; output_cap = n } }) buffer
                  ((size, k.0.1, k.0.2, k.0.3, k.0.4, k.0.5, k.0.6), k.1, k.2) refl refl size
                  (required-fits sodium d s.message_len))
        ])
