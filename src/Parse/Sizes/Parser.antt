-- ===== src/Parse/Sizes/Parser.antt =====
-- src/cli/parse.c, the key object and the key input: the lengths of the arrays, whatever the text is.
use salt.Base.{
  ℕ, zero, suc, ◌+◌, ◌≡◌, Bool, true, false, Option, none, some, [], ◌∷◌, ◌++◌, ◌==◌, leb,
  if◌then◌else◌, Bytes, length, store, cstr, strcmp_eq, Every, Every-choice, Every-bind,
  store-Every,
}
use salt.Parse.KeyInput.{
  KeyFormat, copy_bytes, salt_cli_copy_base64_key_input, salt_cli_should_parse_key_as_json,
  salt_cli_parse_key_input,
}
use salt.Parse.KeyObject.{
  Parser, Run, JsonKeyFields, fail, ◌and_then◌, field_size, key_name, key_id_name, json_colon,
  json_parse_key_field, json_parse_key_id_field, json_parse_field_name, set_key, set_key_id,
  json_parse_known_field, first_is_nul, json_finish_key_id, json_finish_key_fields, json_end,
  json_delimiter, json_fields, json_object, clear_key_id, fresh_fields,
  salt_cli_parse_key_json_object_strict,
}
use salt.Parse.Message.{
  Message, message_text, missing_key, invalid_key_object, invalid_parser_arguments,
  invalid_input_arguments,
}
use salt.Parse.Sizes.{
  HasLength, TokenSized, Anything, every, json_parse_string_token-sized,
  salt_cli_trim_whitespace_inplace-sized,
}
use salt.Parse.Token.{Token, json_parse_string_token}
use salt.Parse.Whitespace.{skip_ws}
use salt.Status.{Status, salt_ok, salt_err_input, is_ok, set_error, ErrorBuffer}

pub copy_bytes-sized :
    (n : ℕ) (xs : Bytes) (at : ℕ) (array : Bytes)
    → length array ≡ n
    → Every (HasLength n) (copy_bytes xs at array)
unfolding copy_bytes
copy_bytes-sized n [] at array e = e
copy_bytes-sized n (x ∷ xs) at array e =
    Every-bind (HasLength n) (HasLength n) (store array at x) _ (store-Every n array at x e)
      (λ array' l. copy_bytes-sized n xs (at + 1) array' l)

module _ (k i : ℕ) (Fits : ErrorBuffer → Type 0)
    (closed : (message : Bytes) (e : ErrorBuffer) → Fits e → Fits (set_error message e)) where
  -- Arrays for the key and the key id of `k` and `i` bytes, and an error buffer that fits.
  abbrev pub ParserSized : Parser → Type 0
  ParserSized p = (length p.fields.key_b64 ≡ k) × (length p.fields.key_id ≡ i) × Fits p.error

  abbrev pub ResultSized : Status × Parser → Type 0
  ResultSized r = ParserSized r.1

  abbrev NameSized : Status × Parser × Bytes → Type 0
  NameSized r = ParserSized r.1

  fail-sized : (m : Message) (p : Parser) → ParserSized p → Every ResultSized (fail m p)
  fail-sized m p (a, b, c) = (a, b, closed (message_text m) p.error c)

  and_then-sized :
      (m : Run) (next : Parser → Run)
      → Every ResultSized m
      → ((p : Parser) → ParserSized p → Every ResultSized (next p))
      → Every ResultSized (m and_then next)
  and_then-sized none next h n = tt
  and_then-sized (some (rc, p)) next h n = Every-choice ResultSized (is_ok rc) _ _ (n p h) h

  key-sized : (p : Parser) → ParserSized p → Every ResultSized (json_parse_key_field p)
  unfolding json_parse_key_field
  key-sized p (a, b, c) =
      Every-bind (TokenSized k) ResultSized _ _
        (json_parse_string_token-sized p.fields.key_b64_size k p.cursor p.fields.key_b64 a)
        (λ token l.
          let p' = record p {
            cursor = token.cursor;
            fields = record p.fields { key_b64 = token.out };
          } in
          Every-choice ResultSized token.accepted _ _ (l, b, c) (fail-sized _ p' (l, b, c)))

  key_id-sized : (p : Parser) → ParserSized p → Every ResultSized (json_parse_key_id_field p)
  unfolding json_parse_key_id_field
  key_id-sized p (a, b, c) =
      Every-choice ResultSized (p.fields.key_id_size == 0) _ _ (fail-sized _ p (a, b, c)) (
        Every-bind (TokenSized i) ResultSized _ _
          (json_parse_string_token-sized p.fields.key_id_size i p.cursor p.fields.key_id b)
          (λ token l.
            let p' = record p {
              cursor = token.cursor;
              fields = record p.fields { key_id = token.out };
            } in
            Every-choice ResultSized token.accepted _ _ (a, l, c) (fail-sized _ p' (a, l, c))))

  known-sized :
      (field : Bytes) (p : Parser)
      → ParserSized p
      → Every ResultSized (json_parse_known_field field p)
  unfolding json_parse_known_field
  known-sized field p h =
      Every-choice ResultSized (strcmp_eq (cstr field) key_name) _ _
        (Every-choice ResultSized p.fields.key_set _ _ (fail-sized _ p h)
          (and_then-sized (json_parse_key_field p) set_key (key-sized p h) (λ q s. s)))
        (Every-choice ResultSized (strcmp_eq (cstr field) key_id_name) _ _
          (Every-choice ResultSized p.fields.key_id_set _ _ (fail-sized _ p h)
            (and_then-sized (json_parse_key_id_field p) set_key_id (key_id-sized p h) (λ q s. s)))
          (fail-sized _ p h))

  name-sized :
      (field : Bytes) (p : Parser) → ParserSized p → Every NameSized (json_parse_field_name field p)
  unfolding json_parse_field_name
  name-sized field p (a, b, c) =
      Every-bind Anything NameSized _ _
        (every (json_parse_string_token field_size (skip_ws p.cursor) field))
        (λ token _. by_token token token.accepted (json_colon (skip_ws token.cursor)))
    where
      refused : Bytes → Parser
      refused stop = record p {
        cursor = stop;
        error = set_error (message_text invalid_key_object) p.error;
      }

      fits : Fits (set_error (message_text invalid_key_object) p.error)
      fits = closed (message_text invalid_key_object) p.error c

      by_token :
          (token : Token) (accepted : Bool) (colon : Option Bytes)
          → Every NameSized (elim accepted [
            | true ↦ elim colon [
              | none ↦ some (salt_err_input, refused (skip_ws token.cursor), token.out)
              | some rest ↦ some (salt_ok, record p { cursor = rest }, token.out)
            ]
            | false ↦ some (salt_err_input, refused token.cursor, token.out)
          ])
      by_token token true none = (a, b, fits)
      by_token token true (some rest) = (a, b, c)
      by_token token false colon = (a, b, fits)

  finish_id-sized : (p : Parser) → ParserSized p → Every ResultSized (json_finish_key_id p)
  finish_id-sized p (a, b, c) =
      Every-choice ResultSized p.fields.key_id_set _ _
        (Every-bind (HasLength i) ResultSized _ _
          (salt_cli_trim_whitespace_inplace-sized i p.fields.key_id p.fields.key_id_size b)
          (λ key_id l.
            Every-bind Anything ResultSized (first_is_nul key_id) _ (every _)
              (λ no_id _. (a, l, c))))
        (a, b, c)

  finish-sized : (p : Parser) → ParserSized p → Every ResultSized (json_finish_key_fields p)
  unfolding json_finish_key_fields
  finish-sized p (a, b, c) =
      Every-choice ResultSized p.fields.key_set _ _
        (Every-bind (HasLength k) ResultSized _ _
          (salt_cli_trim_whitespace_inplace-sized k p.fields.key_b64 p.fields.key_b64_size a)
          (λ key l. Every-bind Anything ResultSized (first_is_nul key) _ (every _) (λ empty _.
            let p' = record p { fields = record p.fields { key_b64 = key } } in
            Every-choice ResultSized empty _ _ (fail-sized _ p' (l, b, c))
              (finish_id-sized p' (l, b, c)))))
        (fail-sized _ p (a, b, c))

  end-sized : (p : Parser) → ParserSized p → Every ResultSized (json_end p)
  end-sized p h = by_rest (skip_ws p.cursor)
    where
      by_rest :
          (s : Bytes)
          → Every ResultSized (elim s [
            | [] ↦ json_finish_key_fields (record p { cursor = [] })
            | c ∷ cs ↦ fail invalid_key_object (record p { cursor = c ∷ cs })
          ])
      by_rest [] = finish-sized (record p { cursor = [] }) h
      by_rest (c ∷ cs) = fail-sized invalid_key_object (record p { cursor = c ∷ cs }) h

  delimiter-sized :
      (again : Parser → Run) (p : Parser)
      → ((q : Parser) → ParserSized q → Every ResultSized (again q))
      → ParserSized p
      → Every ResultSized (json_delimiter again p)
  delimiter-sized again p n h = by_rest (skip_ws p.cursor)
    where
      by_rest :
          (s : Bytes)
          → Every ResultSized (elim s [
            | [] ↦ fail invalid_key_object (record p { cursor = [] })
            | c ∷ cs ↦
                if c == b','
                then again (record p { cursor = cs })
                else if c == b'}'
                then json_end (record p { cursor = cs })
                else fail invalid_key_object (record p { cursor = c ∷ cs })
          ])
      by_rest [] = fail-sized invalid_key_object (record p { cursor = [] }) h
      by_rest (c ∷ cs) = Every-choice ResultSized (c == b',') _ _ (n (record p { cursor = cs }) h) (
          Every-choice ResultSized (c == b'}') _ _ (end-sized (record p { cursor = cs }) h)
            (fail-sized invalid_key_object (record p { cursor = c ∷ cs }) h))

  fields-sized :
      (fuel : ℕ) (field : Bytes) (p : Parser)
      → ParserSized p
      → Every ResultSized (json_fields fuel field p)
  unfolding json_fields
  fields-sized zero field p h = tt
  fields-sized (suc fuel) field p h =
      by_name (λ r t. fields-sized fuel field r t) (json_parse_field_name field p)
        (name-sized field p h)
    where
      by_name :
          ((q : Parser) → ParserSized q → Every ResultSized (json_fields fuel field q))
          → (m : Option (Status × Parser × Bytes)) → Every NameSized m
          → Every ResultSized (elim m [
            | none ↦ none
            | some (rc, p', name) ↦
                if is_ok rc
                then json_parse_known_field name p'
                  and_then json_delimiter (λ q. json_fields fuel field q)
                else some (salt_err_input, p')
          ])
      by_name again none n = tt
      by_name again (some (rc, p', name)) n =
          Every-choice ResultSized (is_ok rc) _ _
            (and_then-sized (json_parse_known_field name p')
              (json_delimiter (λ q. json_fields fuel field q)) (known-sized name p' n)
              (λ q s. delimiter-sized (λ r. json_fields fuel field r) q again s))
            n

  object-sized :
      (field : Bytes) (p : Parser) → ParserSized p → Every ResultSized (json_object field p)
  unfolding json_object
  object-sized field p h = by_rest (skip_ws p.cursor)
    where
      inside :
          (cs : Bytes)
          → Every ResultSized (elim cs [
            | [] ↦ json_fields 1 field (record p { cursor = [] })
            | d ∷ ds ↦
                if d == b'}'
                then fail missing_key (record p { cursor = d ∷ ds })
                else json_fields (suc (length (d ∷ ds))) field (record p { cursor = d ∷ ds })
          ])
      inside [] = fields-sized 1 field (record p { cursor = [] }) h
      inside (d ∷ ds) =
          Every-choice ResultSized (d == b'}') _ _
            (fail-sized missing_key (record p { cursor = d ∷ ds }) h)
            (fields-sized (suc (length (d ∷ ds))) field (record p { cursor = d ∷ ds }) h)

      by_rest :
          (s : Bytes)
          → Every ResultSized (elim s [
            | [] ↦ fail invalid_key_object (record p { cursor = [] })
            | c ∷ cs ↦
                if c == b'{'
                then elim (skip_ws cs) [
                  | [] ↦ json_fields 1 field (record p { cursor = [] })
                  | d ∷ ds ↦
                      if d == b'}'
                      then fail missing_key (record p { cursor = d ∷ ds })
                      else json_fields (suc (length (d ∷ ds))) field (record p { cursor = d ∷ ds })
                ]
                else fail invalid_key_object (record p { cursor = c ∷ cs })
          ])
      by_rest [] = fail-sized invalid_key_object (record p { cursor = [] }) h
      by_rest (c ∷ cs) =
          Every-choice ResultSized (c == b'{') _ _ (inside (skip_ws cs))
            (fail-sized invalid_key_object (record p { cursor = c ∷ cs }) h)

  abbrev FieldsSized : JsonKeyFields → Type 0
  FieldsSized f = (length f.key_b64 ≡ k) × (length f.key_id ≡ i)

  clear-sized : (f : JsonKeyFields) → FieldsSized f → Every FieldsSized (clear_key_id f)
  clear-sized f (a, b) =
      Every-choice FieldsSized (f.key_id_size == 0) _ _ (a, b)
        (Every-bind (HasLength i) FieldsSized _ _ (store-Every i f.key_id 0 0 b)
          (λ key_id l. (a, l)))

  strict-sized :
      (field : Bytes) (json : Option Bytes) (key_b64 : Bytes) (ks : ℕ) (key_id : Bytes) (is : ℕ)
      (has : Bool) (e : ErrorBuffer)
      → length key_b64 ≡ k
      → length key_id ≡ i
      → Fits e
      → Every ResultSized
          (salt_cli_parse_key_json_object_strict field json key_b64 ks key_id is has e)
  unfolding salt_cli_parse_key_json_object_strict
  strict-sized field none key_b64 ks key_id is has e a b c =
      fail-sized invalid_parser_arguments
        (record {
          cursor = [];
          fields = fresh_fields key_b64 ks key_id is;
          has_key_id = has;
          error = e;
        })
        (a, b, c)
  strict-sized field (some s) key_b64 ks key_id is has e a b c =
      let f = fresh_fields key_b64 ks key_id is in
      Every-choice ResultSized (ks == 0) _ _
        (fail-sized invalid_parser_arguments
          (record { cursor = s; fields = f; has_key_id = has; error = e }) (a, b, c))
        (Every-bind FieldsSized ResultSized (clear_key_id f) _ (clear-sized f (a, b))
          (λ fields (x, y).
            object-sized field
              (record { cursor = s; fields = fields; has_key_id = false; error = e }) (x, y, c)))

  copy-sized : (p : Parser) → ParserSized p → Every ResultSized (salt_cli_copy_base64_key_input p)
  unfolding salt_cli_copy_base64_key_input
  copy-sized p (a, b, c) =
      Every-choice ResultSized (leb p.fields.key_b64_size (length p.cursor)) _ _
        (fail-sized _ p (a, b, c))
        (Every-bind (HasLength k) ResultSized _ _
          (copy_bytes-sized k (p.cursor ++ 0 ∷ []) 0 p.fields.key_b64 a)
          (λ copied l.
            Every-bind (HasLength k) ResultSized _ _
              (salt_cli_trim_whitespace_inplace-sized k copied p.fields.key_b64_size l)
              (λ key m. Every-bind Anything ResultSized (first_is_nul key) _ (every _) (λ empty _.
                let p' = record p { fields = record p.fields { key_b64 = key } } in
                Every-choice ResultSized empty _ _ (fail-sized _ p' (m, b, c)) (m, b, c)))))

  -- Of every result of the parser of a key input, whatever the text is: the arrays for the key and the
  -- key id have the lengths that they were given with, and the message fits the error buffer.
  pub salt_cli_parse_key_input-sized :
      (field : Bytes) (s : Option Bytes) (format : KeyFormat) (key_b64 : Bytes) (ks : ℕ)
      (key_id : Bytes) (is : ℕ) (has : Bool) (e : ErrorBuffer)
      → length key_b64 ≡ k
      → length key_id ≡ i
      → Fits e
      → Every ResultSized (salt_cli_parse_key_input field s format key_b64 ks key_id is has e)
  unfolding salt_cli_parse_key_input
  salt_cli_parse_key_input-sized field none format key_b64 ks key_id is has e a b c =
      fail-sized invalid_input_arguments
        (record {
          cursor = [];
          fields = fresh_fields key_b64 ks key_id is;
          has_key_id = has;
          error = e;
        })
        (a, b, c)
  salt_cli_parse_key_input-sized field (some s) format key_b64 ks key_id is has e a b c =
      let f = fresh_fields key_b64 ks key_id is in
      Every-choice ResultSized (ks == 0) _ _
        (fail-sized invalid_input_arguments
          (record { cursor = s; fields = f; has_key_id = has; error = e }) (a, b, c))
        (Every-bind FieldsSized ResultSized (clear_key_id f) _ (clear-sized f (a, b))
          (λ fields (x, y).
            by_format fields x y (salt_cli_should_parse_key_as_json format (skip_ws s))))
    where
      by_format :
          (fields : JsonKeyFields)
          → length fields.key_b64 ≡ k
          → length fields.key_id ≡ i
          → (as_json : Bool)
          → Every ResultSized (elim as_json [
            | true ↦
                salt_cli_parse_key_json_object_strict field
                  (some (skip_ws s))
                  fields.key_b64
                  fields.key_b64_size
                  fields.key_id
                  fields.key_id_size
                  false
                  e
            | false ↦
                salt_cli_copy_base64_key_input
                  (record { cursor = skip_ws s; fields = fields; has_key_id = false; error = e })
          ])
      by_format fields x y true =
          strict-sized field (some (skip_ws s)) fields.key_b64 fields.key_b64_size fields.key_id
            fields.key_id_size false e x y c
      by_format fields x y false =
          copy-sized (record { cursor = skip_ws s; fields = fields; has_key_id = false; error = e })
            (x, y, c)
