-- ===== src/Parse/Sizes.antt =====
-- src/cli/parse.c: the lengths of the arrays that the parsers write, on every path.
pub mod Parser
use salt.Base.{
  ℕ, zero, suc, ◌+◌, ◌-◌, ◌≤◌, ◌≡◌, refl, arith, Bool, true, false, ◌||◌, Option, none, some, [],
  ◌∷◌, ◌++◌, ◌==◌, ltb, leb, if◌then◌else◌, Bytes, length, take, store, get_elem?, Every,
  Every-choice, Every-bind, store-Every, ◌>>=◌,
}
use salt.Parse.Token.{
  Token, escape_lookup, put, escaped, close, round, scan, json_parse_string_token,
}
use salt.Parse.Whitespace.{
  shift_down, scan_start, scan_end, terminate, memchr_nul, salt_cli_trim_whitespace_inplace,
}
use salt.Status.{ErrorBuffer, set_error}

abbrev pub HasLength : ℕ → Bytes → Type 0
HasLength n out = length out ≡ n

abbrev pub TokenSized : ℕ → Token → Type 0
TokenSized n t = length t.out ≡ n

abbrev Anything : {A : Type 0} → A → Type 0
Anything a = Unit

every : {A : Type 0} (m : Option A) → Every Anything m
every none = tt
every (some a) = tt

-- An error buffer of `size` bytes with a message in it.
abbrev pub ErrorFits : ℕ → ErrorBuffer → Type 0
ErrorFits size e = (e.size ≡ size) × (length e.text ≤ size)

length-take-le : (n : ℕ) (xs : Bytes) → length (take n xs) ≤ n
length-take-le zero xs = omega arith
length-take-le (suc n) [] = omega arith
length-take-le (suc n) (x ∷ xs) = omega (arith, length-take-le n xs)

pub set_error-ErrorFits :
    (size : ℕ) (message : Bytes) (e : ErrorBuffer)
    → ErrorFits size e
    → ErrorFits size (set_error message e)
unfolding set_error
set_error-ErrorFits size message e (s, t) = ground (arith, length-take-le (e.size - 1) message)

shift_down-sized :
    (n rounds start i : ℕ) (value : Bytes)
    → length value ≡ n
    → Every (HasLength n) (shift_down rounds start i value)
unfolding shift_down
shift_down-sized n zero start i value e = e
shift_down-sized n (suc rounds) start i value e =
    Every-bind Anything (HasLength n) (get_elem? value (start + i)) _ (every _) (λ c _.
      Every-bind (HasLength n) (HasLength n) (store value i c) _ (store-Every n value i c e)
        (λ value' e'. shift_down-sized n rounds start (i + 1) value' e'))

pub salt_cli_trim_whitespace_inplace-sized :
    (n : ℕ) (value : Bytes) (size : ℕ)
    → length value ≡ n
    → Every (HasLength n) (salt_cli_trim_whitespace_inplace value size)
unfolding salt_cli_trim_whitespace_inplace terminate
salt_cli_trim_whitespace_inplace-sized n value size e =
    Every-choice (HasLength n) (size == 0) _ _ e (
      Every-bind (λ (r : Bytes × ℕ). length r.0 ≡ n) (HasLength n) (terminate value size) _ ended
        (λ r l. Every-bind Anything (HasLength n) (scan_start r.1 r.0 0) _ (every _) (λ start _.
          Every-bind (HasLength n) (HasLength n) _ _
            (Every-choice (HasLength n) (ltb 0 start) _ _
              (shift_down-sized n (r.1 - start + 1) start 0 r.0 l) l)
            (λ moved m.
              Every-bind Anything (HasLength n) (scan_end moved (r.1 - start)) _ (every _)
                (λ end _. store-Every n moved end 0 m)))))
  where
    ended : Every (λ (r : Bytes × ℕ). length r.0 ≡ n) (terminate value size)
    ended = by_nul (memchr_nul value size)
      where
        by_nul :
            (m : Option ℕ)
            → Every
                (λ (r : Bytes × ℕ). length r.0 ≡ n)
                (elim m [
                  | none ↦ do value' ← store value (size - 1) 0; some (value', size - 1)
                  | some len ↦ some (value, len)
                ])
        by_nul (some len) = e
        by_nul none =
            Every-bind (HasLength n) (λ (r : Bytes × ℕ). length r.0 ≡ n) (store value (size - 1) 0)
              _ (store-Every n value (size - 1) 0 e) (λ value' l. l)

module _ (size n : ℕ) where
  close-sized :
      (cs : Bytes) (i : ℕ) (out : Bytes)
      → length out ≡ n
      → Every (TokenSized n) (close size cs i out)
  close-sized cs i out e = Every-choice (TokenSized n) (leb size i) _ _ e (
      Every-bind (HasLength n) (TokenSized n) (store out i 0) _ (store-Every n out i 0 e)
        (λ out' l. l))

  abbrev Next : (ℕ → Bytes → Option Token) → Type 0
  Next next = (i : ℕ) (out : Bytes) → length out ≡ n → Every (TokenSized n) (next i out)

  escaped-sized :
      (c : ℕ) (cs : Bytes) (i : ℕ) (out : Bytes) (next : ℕ → Bytes → Option Token)
      → length out ≡ n
      → Next next
      → Every (TokenSized n) (escaped size c cs i out next)
  escaped-sized c cs i out next e h =
      Every-choice (TokenSized n) (leb size (i + 1)) _ _ e (by_value (escape_lookup c))
    where
      by_value :
          (m : Option ℕ)
          → Every (TokenSized n) (elim m [
            | none ↦ some (record { accepted = false; cursor = c ∷ cs; out = out })
            | some v ↦ do out' ← store out i v; next (i + 1) out'
          ])
      by_value none = e
      by_value (some v) =
          Every-bind (HasLength n) (TokenSized n) (store out i v) _ (store-Every n out i v e)
            (λ out' l. h (i + 1) out' l)

  round-sized :
      (c : ℕ) (cs : Bytes) (i : ℕ) (out : Bytes) (escape : Option Token)
      (next : ℕ → Bytes → Option Token)
      → length out ≡ n
      → Every (TokenSized n) escape
      → Next next
      → Every (TokenSized n) (round size c cs i out escape next)
  round-sized c cs i out escape next e k h =
      Every-choice (TokenSized n) (c == 34) _ _ (close-sized cs i out e) (
        Every-choice (TokenSized n) (c == 92) _ _ k (
          Every-choice (TokenSized n) (ltb c 0x20) _ _ e (
            Every-choice (TokenSized n) (leb size (i + 1)) _ _ e (
              Every-bind (HasLength n) (TokenSized n) (store out i c) _ (store-Every n out i c e)
                (λ out' l. h (i + 1) out' l)))))

  scan-sized :
      (cs : Bytes) (i : ℕ) (out : Bytes)
      → length out ≡ n
      → Every (TokenSized n) (scan size cs i out)
  unfolding scan
  scan-sized [] i out e = e
  scan-sized (c ∷ []) i out e =
      round-sized c [] i out _ (λ i' out'. scan size [] i' out') e e
        (λ i' out' l. scan-sized [] i' out' l)
  scan-sized (c ∷ d ∷ cs) i out e =
      round-sized c (d ∷ cs) i out _ (λ i' out'. scan size (d ∷ cs) i' out') e
        (escaped-sized d cs i out (λ i' out'. scan size cs i' out') e
          (λ i' out' l. scan-sized cs i' out' l))
        (λ i' out' l. scan-sized (d ∷ cs) i' out' l)

  pub json_parse_string_token-sized :
      (cursor out : Bytes)
      → length out ≡ n
      → Every (TokenSized n) (json_parse_string_token size cursor out)
  unfolding json_parse_string_token
  json_parse_string_token-sized [] out e = e
  json_parse_string_token-sized (c ∷ cs) out e =
      Every-choice (TokenSized n) (size == 0) _ _ e
        (Every-choice (TokenSized n) (c == 34) _ _ (scan-sized cs 0 out e) e)
