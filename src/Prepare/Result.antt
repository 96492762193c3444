-- ===== src/Prepare/Result.antt =====
-- src/cli/prepare.c: what is in the output where the preparation returns SALT_OK.
use salt.Args.{Cli, report}
use salt.Base.{
  ℕ, zero, suc, ◌+◌, ◌≤◌, ◌<◌, ◌≡◌, refl, ap, ◌∙◌, arith, inl, inr, Bool, true, false, Option, none,
  some, [], ◌∷◌, ◌++◌, ◌==◌, Bool-cases, Option-cases, at_true, at_false, if◌then◌else◌, Bytes,
  length, take, drop, cstr, cstr-append, append_assoc, Gives, Gives-bind, Gives-choice, Gives-elim,
  Gives-map, ◌>>=◌,
}
use salt.Diagnostics.{salt_cli_set_error}
use salt.Input.Load.{check, salt_cli_report_state_error}
use salt.Input.Load.Result.{report-is_error, of_error}
use salt.Input.Load.Result.Plaintext.{Loaded}
use salt.Prepare.{seal_input, seal_frame, take_frame, seal_message, salt_cli_prepare_output}
use salt.Prepare.Keeps.{bytes_before_nul-Gives, required-fits}
use salt.Seal.Box.{Input, Frame, salt_seal_base64}
use salt.Seal.Box.Contract.{
  Reason, null_argument, message_length, no_key, no_library, key_length, key_encoding, no_capacity,
  no_memory, not_sealed, not_encoded, Outcome, failed, sealed,
}
use salt.Seal.Box.Outcome.{salt_seal_base64_keylen-Outcome}
use salt.Seal.Key.{max_public_key_b64_len}
use salt.Seal.Key.Outcome.{IsKey}
use salt.Seal.Length.{salt_required_base64_output_len, bytes_before_nul, salt_bounded_strlen}
use salt.Seal.Sodium.{Sodium, Documented, output_buffer, size_max}
use salt.State.{CliState, salt_cli_resolve_effective_key_id}
use salt.State.Resolve.{resolve-elim}
use salt.State.Invariant.{Inv}
use salt.Status.{Status, salt_err_internal, is_ok, codes, salt_max_key_input_len}

-- The text is the base64 of the sealed box of the plaintext, for the key that the other text stands for.
pub record SealedText (sodium : Sodium) (key_b64 plaintext text : Bytes) : Type 0 where
  pub key : Bytes
  pub decodes : IsKey sodium key_b64 key
  pub block : Bytes
  pub seals : (sodium.crypto_box_seal block plaintext key).0 ≡ true
  pub is_base64 : text ≡ sodium.base64 (sodium.crypto_box_seal block plaintext key).1

-- An output that holds such a text.
pub record Holding (sodium : Sodium) (key_b64 plaintext : Bytes) (output : Option Bytes)
    : Type 0 where
  pub text : Bytes
  pub sealed_text : SealedText sodium key_b64 plaintext text
  pub array : Bytes
  pub at : output ≡ some array
  pub holds : cstr array ≡ text

-- A search that ended within its bound found the end of the string.
bytes_before_nul-cstr :
    (value : Bytes) (n k : ℕ)
    → bytes_before_nul value n ≡ some k
    → k < n
    → take k value ≡ cstr value
unfolding bytes_before_nul
bytes_before_nul-cstr value zero k e h = absurd (omega arith)
bytes_before_nul-cstr [] (suc n) k e h = absurd (cc e)
bytes_before_nul-cstr (c ∷ cs) (suc n) k e h =
    step (c == 0) (bytes_before_nul cs n) k (λ j f l. bytes_before_nul-cstr cs n j f l) e h
  where
    step :
        (b : Bool) (rest : Option ℕ) (k : ℕ)
        → ((j : ℕ) → rest ≡ some j → j < n → take j cs ≡ cstr cs)
        → (if b then some 0 else elim rest [ none ↦ none | some j ↦ some (suc j) ]) ≡ some k
        → k < suc n
        → take k (c ∷ cs) ≡ (if b then [] else c ∷ cstr cs)
    step true rest zero ih e h = refl
    step true rest (suc k) ih e h = let f : 0 ≡ suc k = cc e in absurd (omega arith)
    step false none k ih e h = absurd (cc e)
    step false (some j) zero ih e h = let f : suc j ≡ 0 = cc e in absurd (omega arith)
    step false (some j) (suc k) ih e h =
        let f : suc j ≡ suc k = cc e in
        let g : j ≡ k = omega arith in ap (λ t. c ∷ t) (ih k (ap some g) (omega arith))

module _ {sodium : Sodium} {a : Input} where
  Reason-is_error :
      (output : Option Bytes) (status : Status)
      → Reason sodium a output status
      → is_ok status ≡ false
  Reason-is_error o s (null_argument e) = refl
  Reason-is_error o s (message_length e) = refl
  Reason-is_error o s (no_key e) = refl
  Reason-is_error o s (no_library e) = refl
  Reason-is_error o s (key_length e) = refl
  Reason-is_error o s (key_encoding k e f) = refl
  Reason-is_error o s (no_capacity e) = refl
  Reason-is_error o s (no_memory e) = refl
  Reason-is_error o s (not_sealed r e) = refl
  Reason-is_error o s (not_encoded r e o' at f) = refl

  -- What an outcome of a sealing leaves in the output.
  Outcome-Holding :
      (before : Frame) (value message plaintext : Bytes) (run : Option (Status × Frame))
      → a.public_key_b64 ≡ some value
      → (a.public_key_b64_len ≤ max_public_key_b64_len sodium
          → take a.public_key_b64_len value ≡ cstr value)
      → a.message ≡ some message
      → take a.message_len message ≡ plaintext
      → Outcome sodium a before run
      → Gives
          (λ (r : Status × Frame).
            is_ok r.0 ≡ true → Holding sodium (cstr value) plaintext r.1.output)
          run
  Outcome-Holding before value message plaintext run at_key key_len at_message same
        (failed {status = status} reason o w l) =
      λ ok. of_error _ ok (Reason-is_error _ status reason)
  Outcome-Holding before value message plaintext run at_key key_len at_message same
        (sealed {after = after} s l) =
      let r = s.ready in
      let array : r.key_array ≡ value = cc (r.key_at, at_key) in
      let text : r.message ≡ message = cc (r.message_at, at_message) in
      λ ok. record {
        text = s.text;
        sealed_text = record {
          key = r.key;
          decodes = rw (array, key_len r.key_max) at r.decodes;
          block = r.block;
          seals = rw (text, same) at s.seals;
          is_base64 = rw (text, same) at s.is_base64;
        };
        array = (s.text ++ 0 ∷ s.back) ++ drop a.output_size s.output_array;
        at = s.stores;
        holds =
            rw (append_assoc s.text (0 ∷ s.back) (drop a.output_size s.output_array))
              (cstr-append s.text (s.back ++ drop a.output_size s.output_array) s.text_IsCstr);
      }

-- What a preparation does with a message that is the plaintext.
pub record Prepares (sodium : Sodium) (plaintext : Bytes) (w : Cli) (r : Status × Cli)
    : Type 0 where
  pub output :
      is_ok r.0 ≡ true → Holding sodium (cstr w.state.parsed_key_b64) plaintext r.1.state.output
  pub key_id :
      r.1.state.effective_key_id ≡ (salt_cli_resolve_effective_key_id w.state).effective_key_id
  pub mode : r.1.state.output_mode ≡ w.state.output_mode
  pub same_stream : r.1.out_stream ≡ w.out_stream

module _ (sodium : Sodium) (d : Documented sodium)
    (keys_fit : max_public_key_b64_len sodium ≤ salt_max_key_input_len) (scratch : Bytes)
    (scratch_size : length scratch ≡ sodium.public_key_bytes) (plaintext : Bytes) where
  abbrev Sealing : CliState → Status × Frame → Type 0
  Sealing s r = is_ok r.0 ≡ true → Holding sodium (cstr s.parsed_key_b64) plaintext r.1.output

  salt_seal_base64-Sealing :
      (n : ℕ) (s : CliState) (buffer : Bytes)
      → Inv s
      → Loaded plaintext s
      → s.output ≡ some buffer
      → length buffer ≡ n
      → n ≤ size_max
      → Gives (Sealing s) (salt_seal_base64 sodium (seal_input n s) (seal_frame scratch s))
  unfolding salt_seal_base64 salt_bounded_strlen
  salt_seal_base64-Sealing n s buffer h l at size fits =
      let bound = max_public_key_b64_len sodium + 1 in
      let room : bound ≤ length s.parsed_key_b64 = omega (arith, keys_fit, h.0.5) in
      let (len, e, short) =
        Gives-elim (λ (k : ℕ). k ≤ bound) _ (bytes_before_nul-Gives s.parsed_key_b64 bound room) in
      let a : Input = record (seal_input n s) { public_key_b64_len = len } in
      rw (e, ◌>>=◌)
        (Outcome-Holding {sodium = sodium} {a = a} (seal_frame scratch s) s.parsed_key_b64 l.buffer
          plaintext _ refl
          (λ m. bytes_before_nul-cstr s.parsed_key_b64 bound len e (omega (arith, m))) l.message_at
          (rw l.len l.holds)
          (salt_seal_base64_keylen-Outcome sodium d a (seal_frame scratch s) (record {
            message_holds = h.2;
            key_holds = omega (arith, short, room);
            output_holds = rw at (omega (arith, size));
            output_size_fits = omega arith;
            scratch_size = scratch_size;
            no_block = refl;
          })))

  abbrev Kept : Cli → Cli → Type 0
  Kept w v =
      (v.state.effective_key_id ≡ w.state.effective_key_id)
      × (v.state.output_mode ≡ w.state.output_mode)
      × (v.out_stream ≡ w.out_stream)

  abbrev Done : Cli → Status × Cli → Type 0
  Done w r =
      (is_ok r.0 ≡ true → Holding sodium (cstr w.state.parsed_key_b64) plaintext r.1.state.output)
      × Kept w r.1

  -- From the poll of the flag on.
  polled :
      (w : Cli) (interrupted : Bool) (v : Cli)
      → Holding sodium (cstr w.state.parsed_key_b64) plaintext v.state.output
      → Kept w v
      → Gives (Done w) (
          let p = check interrupted v in
          if is_ok p.0
          then (if p.1.state.output_written == 0
              then some (report salt_err_internal (codes "error: produced empty output\n") p.1)
              else some p)
          else some p)
  unfolding check salt_cli_report_state_error salt_cli_set_error report
  polled w true v o k =
      let p = check true v in
      at_false (Gives (Done w)) (is_ok p.0) _ _ (report-is_error _ _ _ _ refl)
        (λ ok. of_error _ ok (report-is_error _ _ _ _ refl), k)
  polled w false v o k =
      Gives-choice (Done w) (v.state.output_written == 0) _ _
        (λ ok. of_error _ ok (report-is_error _ _ _ _ refl), k) (λ ok. o, k)

  seal_message-Prepares :
      (interrupted : Bool) (n : ℕ) (w : Cli) (buffer : Bytes)
      → Inv w.state
      → Loaded plaintext w.state
      → w.state.output ≡ some buffer
      → length buffer ≡ n
      → n ≤ size_max
      → Gives (Done w) (seal_message sodium scratch interrupted n w)
  unfolding seal_message salt_cli_report_state_error
  seal_message-Prepares interrupted n w buffer h l at size fits =
      Gives-bind (Sealing w.state) (Done w) _ _
        (salt_seal_base64-Sealing n w.state buffer h l at size fits)
        (λ sealed s. elim (Bool-cases (is_ok sealed.0)) [
          | inl ok ↦ at_true (Gives (Done w)) (is_ok sealed.0) _ _ ok (
              polled w interrupted (record w { state = take_frame sealed.1 w.state }) (s ok)
                (refl, refl, refl))
          | inr bad ↦
              at_false (Gives (Done w)) (is_ok sealed.0) _ _ bad
                (λ ok. of_error _ ok (report-is_error _ _ _ _ bad), (refl, refl, refl))
        ])

  -- With a library that keeps its documentation, buffers of their sizes, and a message that is the
  -- plaintext, the preparation faults nowhere. With SALT_OK the output holds the base64 text of the sealed
  -- box of the plaintext, for the key that the string in the key's array stands for; and whatever the
  -- status, the key id is the one that was resolved, and the mode and the output stream are left alone.
  pub salt_cli_prepare_output-Prepares :
      (interrupted : Bool) (w : Cli)
      → Inv w.state
      → Loaded plaintext w.state
      → Gives (Prepares sodium plaintext w) (salt_cli_prepare_output sodium scratch interrupted w)
  unfolding salt_cli_prepare_output report
  salt_cli_prepare_output-Prepares interrupted w h l =
      let s = salt_cli_resolve_effective_key_id w.state in
      let (k, m, key, mode) =
        resolve-elim
          (λ t.
            Inv t
            × Loaded plaintext t
            × (t.parsed_key_b64 ≡ w.state.parsed_key_b64)
            × (t.output_mode ≡ w.state.output_mode))
          w.state (h, l, refl, refl)
          (λ id. (
            h,
            record { buffer = l.buffer; message_at = l.message_at; len = l.len; holds = l.holds },
            refl,
            refl,
          )) in
      let n = salt_required_base64_output_len sodium s.message_len in
      Gives-choice (Prepares sodium plaintext w) (n == 0) _ _
        (record {
          output = λ ok. of_error _ ok (report-is_error _ _ _ _ refl);
          key_id = refl;
          mode = mode;
          same_stream = refl;
        })
        (elim (Option-cases (sodium.malloc output_buffer n)) [
          | inl e ↦ rw e (record {
            output = λ ok. of_error _ ok (report-is_error _ _ _ _ refl);
            key_id = refl;
            mode = mode;
            same_stream = refl;
          })
          | inr (buffer, e) ↦
              let size = d.malloc_length output_buffer n buffer e in
              let v : Cli = record w {
                state = record s { output = some buffer; output_cap = n };
              } in
              let l' : Loaded plaintext v.state = record {
                buffer = m.buffer;
                message_at = m.message_at;
                len = m.len;
                holds = m.holds;
              } in
              let kept : Inv v.state =
                ((size, k.0.1, k.0.2, k.0.3, k.0.4, k.0.5, k.0.6), k.1, k.2) in
              rw e (
                Gives-map (Done v) (Prepares sodium plaintext w) _
                  (seal_message-Prepares interrupted n v buffer kept l' refl size
                    (required-fits sodium d s.message_len))
                  (λ r p. record {
                    output = λ ok. rw key at (p.0 ok);
                    key_id = p.1.0;
                    mode = p.1.1 ∙ mode;
                    same_stream = p.1.2;
                  }))
        ])
