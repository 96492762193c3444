-- ===== src/Main/Result.antt =====
-- src/main.c: what is written where loading, sealing and printing return SALT_OK.
use salt.Args.{Cli}
use salt.Base.{
  ◌+◌, ◌≤◌, ◌<◌, ◌≡◌, refl, ap, ◌∙◌, true, false, some, ◌++◌, inl, inr, Bool-cases, at_true,
  at_false, if◌then◌else◌, Bytes, length, cstr, Gives, Gives-bind, Gives-both, Gives-map,
  Gives-intro,
}
use salt.Input.Load.Keeps.{Present, Kept, KeptAfter}
use salt.Input.Load.Keeps.Key.{salt_cli_input_load_key_input-Kept}
use salt.Input.Load.Keeps.Plaintext.{salt_cli_input_load_plaintext-Inv}
use salt.Input.Load.Result.{KeyPart, of_error}
use salt.Input.Load.Result.Key.{salt_cli_input_load_key_input-KeyLoads}
use salt.Input.Load.Result.Parsed.{PlainPart, SamePlain, key_text, KeyHeld, KeyLoads}
use salt.Input.Load.Result.Plaintext.{
  plaintext_of, Loaded, NotEmpty, salt_cli_input_load_plaintext-Loads,
}
use salt.Args.Keeps.{InvAfter}
use salt.Main.{Environment, ◌or_cleanup◌, emit, encrypt, report_or_io, write_diagnostic}
use salt.Input.Load.{salt_cli_input_load_key_input, salt_cli_input_load_plaintext}
use salt.Main.Clean.{Promised, or_cleanup-Gives}
use salt.Output.Emit.{salt_cli_emit_output}
use salt.Output.Emit.Document.{rendering, key_id_or_empty, salt_cli_emit_output-Ends}
use salt.Output.Writer.{Sink}
use salt.Parse.KeyInput.Outcome.{Read}
use salt.Parse.KeyObject.{Parser}
use salt.Parse.Whitespace.Trim.{trim}
use salt.Prepare.{salt_cli_prepare_output}
use salt.Prepare.Result.{SealedText, Prepares, salt_cli_prepare_output-Prepares}
use salt.Seal.Sodium.{Sodium, Documented}
use salt.State.{CliState}
use salt.State.Resolve.{resolved_id, salt_cli_resolve_effective_key_id-resolved}
use salt.State.Invariant.{Inv}
use salt.Status.{
  Status, salt_ok, is_ok, salt_max_key_input_len, salt_max_key_id_len,
  salt_github_secret_max_value_len,
}
use salt.Stdio.{Stream}

pub report_or_io-is_error :
    (rc : Status) (w : Cli) → is_ok rc ≡ false → is_ok (report_or_io rc w).0 ≡ false
report_or_io-is_error rc w bad =
    let r = write_diagnostic w in
    elim (Bool-cases (is_ok r.0)) [
      | inl ok ↦ at_true (λ (x : Status × Cli). is_ok x.0 ≡ false) (is_ok r.0) (rc, r.1) _ ok bad
      | inr io ↦ at_false (λ (x : Status × Cli). is_ok x.0 ≡ false) (is_ok r.0) (rc, r.1) _ io refl
    ]

module _ (sodium : Sodium) (env : Environment) (key_content plaintext_content : Bytes) where
  -- The key input and the plaintext that the options mean.
  abbrev pub meant_key : CliState → Bytes
  meant_key s = trim (cstr (key_text s.key_from_stdin key_content s.key_option))

  abbrev pub meant_plaintext : CliState → Bytes
  meant_plaintext s = plaintext_of s.plaintext_from_stdin plaintext_content s.plaintext_arg

  -- A parse of the key input.
  abbrev pub Parses : CliState → Parser → Type 0
  Parses s p =
      Read (salt_max_key_input_len + 1) (salt_max_key_id_len + 1) s.key_format (meant_key s)
        (some (salt_ok, p))

  -- What is on the output stream where the status is SALT_OK.
  pub record Encrypts (w : Cli) (out_stream : Stream) : Type 0 where
    pub parser : Parser
    pub parses : Parses w.state parser
    pub plaintext_min : 0 < length (meant_plaintext w.state)
    pub plaintext_max : length (meant_plaintext w.state) ≤ salt_github_secret_max_value_len
    pub text : Bytes
    pub sealed_text : SealedText sodium (cstr parser.fields.key_b64) (meant_plaintext w.state) text
    pub writes :
        out_stream.written
        ≡ w.out_stream.written
          ++ rendering w.state.output_mode text (
              key_id_or_empty (
                resolved_id w.state.key_id_option parser.has_key_id parser.fields.key_id
                  w.state.effective_key_id))

  -- The state behind both loaders.
  record BothLoaded (w v : Cli) : Type 0 where
    parser : Parser
    parses : Parses w.state parser
    key : v.state.parsed_key_b64 ≡ parser.fields.key_b64
    key_id : v.state.parsed_key_id ≡ parser.fields.key_id
    has_key_id : v.state.parsed_has_key_id ≡ parser.has_key_id
    loaded : Loaded (meant_plaintext w.state) v.state
    min : 0 < length (meant_plaintext w.state)
    max : length (meant_plaintext w.state) ≤ salt_github_secret_max_value_len

  abbrev SameOutput : Cli → Cli → Type 0
  SameOutput w v =
      (v.state.output_mode ≡ w.state.output_mode)
      × (v.state.key_id_option ≡ w.state.key_id_option)
      × (v.state.effective_key_id ≡ w.state.effective_key_id)
      × (v.out_stream ≡ w.out_stream)

  abbrev AfterLoad : Cli → Status × Cli → Type 0
  AfterLoad w r = InvAfter r × (is_ok r.0 ≡ true → BothLoaded w r.1) × SameOutput w r.1

  -- The state that is handed to the output.
  record ReadyToEmit (w v : Cli) : Type 0 where
    parser : Parser
    parses : Parses w.state parser
    min : 0 < length (meant_plaintext w.state)
    max : length (meant_plaintext w.state) ≤ salt_github_secret_max_value_len
    text : Bytes
    sealed_text : SealedText sodium (cstr parser.fields.key_b64) (meant_plaintext w.state) text
    array : Bytes
    at : v.state.output ≡ some array
    holds : cstr array ≡ text
    key_id :
        v.state.effective_key_id
        ≡ resolved_id w.state.key_id_option parser.has_key_id parser.fields.key_id
            w.state.effective_key_id
    mode : v.state.output_mode ≡ w.state.output_mode
    same_stream : v.out_stream ≡ w.out_stream

  abbrev pub Succeeds : Cli → Status × Cli → Type 0
  Succeeds w r = is_ok r.0 ≡ true → Encrypts w r.1.out_stream

  emit-Succeeds : (w v : Cli) → ReadyToEmit w v → Gives (Succeeds w) (emit v)
  unfolding emit
  emit-Succeeds w v h =
      Gives-bind (λ (o : Bytes). o ≡ h.array) (Succeeds w) v.state.output _
        (Gives-intro _ _ h.array h.at refl)
        (λ output same.
          let sink : Sink = record { stream = v.out_stream; error = v.state.error } in
          let r =
            salt_cli_emit_output v.state.output_mode (cstr output) v.state.effective_key_id sink in
          let v' : Cli = record v {
            state = record v.state { error = r.1.error };
            out_stream = r.1.stream;
          } in
          let broke : is_ok r.0 ≡ false
              → Succeeds w (if is_ok r.0 then (r.0, v') else report_or_io r.0 v') =
            λ bad.
              at_false (Succeeds w) (is_ok r.0) (r.0, v') (report_or_io r.0 v') bad
                (λ ok. of_error _ ok (report_or_io-is_error r.0 v' bad)) in
          elim (salt_cli_emit_output-Ends v.state.output_mode (cstr output) v.state.effective_key_id
            sink) [
              | inr (m, u, f) ↦ broke (rw f.returns refl)
              | inl (u, inr b) ↦ broke (rw b.returns refl)
              | inl (u, inl c) ↦
                  at_true (Succeeds w) (is_ok r.0) (r.0, v') _ (rw c.returns refl)
                    (λ ok. record {
                      parser = h.parser;
                      parses = h.parses;
                      plaintext_min = h.min;
                      plaintext_max = h.max;
                      text = h.text;
                      sealed_text = h.sealed_text;
                      writes = c.written ∙ rw (same, h.holds, h.mode, h.key_id, h.same_stream) refl;
                    })
            ])

  module _ (d : Documented sodium)
      (promised : Promised sodium env key_content plaintext_content) where
    load-AfterLoad :
        (w : Cli)
        → Present w.state.key_option
        → Kept w.state
        → Gives (AfterLoad w) (
            salt_cli_input_load_key_input sodium env.field env.key_source env.interrupted_by_key w
            or_cleanup (λ v.
                salt_cli_input_load_plaintext sodium env.plaintext_source
                  env.interrupted_by_plaintext v))
    load-AfterLoad w key_given h =
        or_cleanup-Gives (λ r. KeptAfter r × KeyLoads (meant_key w.state) w r) (AfterLoad w) _ _
          (Gives-both KeptAfter (KeyLoads (meant_key w.state) w) _
            (salt_cli_input_load_key_input-Kept sodium d env.field promised.field_room
              env.interrupted_by_key env.key_source key_content promised.key_reads w key_given h)
            (salt_cli_input_load_key_input-KeyLoads sodium d env.field promised.field_room
              env.interrupted_by_key env.key_source key_content promised.key_reads w key_given
              h.0.0.5 h.0.0.6))
          (λ r (k, l) ok. plaintext_next w r.1 k (l.0 ok) l.1)
          (λ r (k, l) bad. (
            k.0,
            λ ok. of_error _ ok bad,
            (
              ap (λ (t : PlainPart). t.2) l.1.0,
              ap (λ (t : PlainPart). t.3) l.1.0,
              ap (λ (t : PlainPart). t.5) l.1.0,
              l.1.1,
            ),
          ))
      where
        plaintext_next :
            (w v : Cli)
            → Kept v.state
            → KeyHeld (meant_key w.state) v.state
            → SamePlain w v
            → Gives (AfterLoad w) (
                salt_cli_input_load_plaintext sodium env.plaintext_source
                  env.interrupted_by_plaintext v)
        plaintext_next w v k held same =
            let source = env.plaintext_source in
            let reads = promised.plaintext_reads in
            let plain : meant_plaintext v.state ≡ meant_plaintext w.state =
              ap (λ (t : PlainPart). plaintext_of t.0 plaintext_content t.1) same.0 in
            let format : v.state.key_format ≡ w.state.key_format =
              ap (λ (t : PlainPart). t.4) same.0 in
            Gives-map _ (AfterLoad w) _
              (Gives-both InvAfter (NotEmpty sodium d source plaintext_content reads v) _
                (salt_cli_input_load_plaintext-Inv sodium d source plaintext_content reads
                  env.interrupted_by_plaintext v k.1 k.0)
                (salt_cli_input_load_plaintext-Loads sodium d source plaintext_content reads
                  env.interrupted_by_plaintext v k.1))
              (λ r (i, n). (
                i,
                λ ok. record {
                  parser = held.parser;
                  parses = rw format at held.parses;
                  key = ap (λ (t : KeyPart). t.2) n.0.1.0 ∙ held.key;
                  key_id = ap (λ (t : KeyPart). t.3) n.0.1.0 ∙ held.key_id;
                  has_key_id = ap (λ (t : KeyPart). t.4) n.0.1.0 ∙ held.has_key_id;
                  loaded = rw plain at (n.0.0 ok).0;
                  min = rw plain at (n.1 ok);
                  max = rw plain at (n.0.0 ok).1;
                },
                (
                  ap (λ (t : KeyPart). t.0) n.0.1.0 ∙ ap (λ (t : PlainPart). t.2) same.0,
                  ap (λ (t : KeyPart). t.1) n.0.1.0 ∙ ap (λ (t : PlainPart). t.3) same.0,
                  ap (λ (t : KeyPart). t.5) n.0.1.0 ∙ ap (λ (t : PlainPart). t.5) same.0,
                  n.0.1.1 ∙ same.1,
                ),
              ))

    prepare-ReadyToEmit :
        (w v : Cli)
        → Inv v.state
        → BothLoaded w v
        → SameOutput w v
        → Gives
            (λ r. is_ok r.0 ≡ true → ReadyToEmit w r.1)
            (salt_cli_prepare_output sodium env.scratch env.interrupted_by_seal v)
    prepare-ReadyToEmit w v i b same =
        Gives-map (Prepares sodium (meant_plaintext w.state) v) _ _
          (salt_cli_prepare_output-Prepares sodium d promised.keys_fit env.scratch
            promised.scratch_size (meant_plaintext w.state) env.interrupted_by_seal v i b.loaded)
          (λ r p ok.
            let o = p.output ok in
            record {
              parser = b.parser;
              parses = b.parses;
              min = b.min;
              max = b.max;
              text = o.text;
              sealed_text = rw b.key at o.sealed_text;
              array = o.array;
              at = o.at;
              holds = o.holds;
              key_id =
                  p.key_id
                  ∙ (salt_cli_resolve_effective_key_id-resolved v.state
                      ∙ rw (same.1, b.has_key_id, b.key_id, same.2) refl);
              mode = p.mode ∙ same.0;
              same_stream = p.same_stream ∙ same.3;
            })

    -- With a library, streams and arrays as documented, a state in which every buffer has its size, a key,
    -- and an argument or the standard input for the plaintext, the loading, sealing and printing fault
    -- nowhere. With SALT_OK: the key input that the options mean, trimmed, was parsed; the plaintext that
    -- they mean has a length from 1 to the limit; and what was written to the output stream, all of it, is
    -- the text or the JSON document, with the resolved key id, of the base64 of the sealed box of exactly
    -- that plaintext for the key that was parsed.
    pub encrypt-Succeeds :
        (w : Cli)
        → Present w.state.key_option
        → Kept w.state
        → Gives (Succeeds w) (encrypt sodium env w)
    unfolding encrypt
    encrypt-Succeeds w key_given h =
        or_cleanup-Gives (λ r. is_ok r.0 ≡ true → ReadyToEmit w r.1) (Succeeds w) _ emit
          (or_cleanup-Gives (AfterLoad w) (λ r. is_ok r.0 ≡ true → ReadyToEmit w r.1) _ _
            (load-AfterLoad w key_given h) (λ r (i, b, s) ok. prepare-ReadyToEmit w r.1 i (b ok) s)
            (λ r l bad ok. of_error _ ok bad))
          (λ r e ok. emit-Succeeds w r.1 (e ok)) (λ r e bad ok. of_error _ ok bad)
