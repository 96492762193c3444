-- ===== src/Input/Load/Buffers.antt =====
-- src/cli/input.c: what the loaders do with one buffer.
use salt.Base.{
  Option, none, ℕ, ◌+◌, ◌≤◌, ◌<◌, ◌≡◌, refl, ap, ◌∙◌, arith, Bool, some, [], ◌∷◌, ◌++◌, ◌==◌, Bytes,
  Bool-cases, inl, inr, length, length-append, store, store-append, split_at, cstr, cstr-append,
  IsCstr-cstr, Gives, Gives-intro, ◌>>=◌,
}
use salt.Parse.KeyInput.{copy_bytes}
use salt.Parse.KeyInput.Outcome.{copy_bytes-append}
use salt.Parse.KeyObject.{first_is_nul}
use salt.Parse.Whitespace.{salt_cli_trim_whitespace_inplace}
use salt.Parse.Whitespace.Trim.{trim, IsCstr-trim, salt_cli_trim_whitespace_inplace-trim}

-- An array with a NUL holds a C string, and something behind it.
pub record Holds (a b : Bytes) : Type 0 where
  pub back : Bytes
  pub splits : a ++ 0 ∷ b ≡ cstr (a ++ 0 ∷ b) ++ 0 ∷ back
  pub fits : length (cstr (a ++ 0 ∷ b)) ≤ length a

pub nul_split : (a b : Bytes) → Holds a b
nul_split [] b = record { back = b; splits = refl; fits = omega arith }
nul_split (c ∷ a) b =
    let h = nul_split a b in
    elim (Bool-cases (c == 0)) [
      | inl nul ↦
          let z : c ≡ 0 = ground arith in
          record { back = a ++ 0 ∷ b; splits = rw (nul, z) refl; fits = rw nul (omega arith) }
      | inr other ↦ record {
        back = h.back;
        splits = rw other (ap (λ t. c ∷ t) h.splits);
        fits = rw other (omega (arith, h.fits));
      }
    ]

-- An array of the old length, with the trimmed string.
abbrev pub Trimmed : Bytes → Bytes → Bytes → Type 0
Trimmed a b r = (length r ≡ length (a ++ 0 ∷ b)) × (cstr r ≡ trim (cstr (a ++ 0 ∷ b)))

-- Trimming an array with a NUL in front of the given size faults nowhere and keeps the length; its
-- string is the trimmed one.
pub trimmed-Gives :
    (a b : Bytes) (size : ℕ)
    → length a < size
    → Gives (Trimmed a b) (salt_cli_trim_whitespace_inplace (a ++ 0 ∷ b) size)
trimmed-Gives a b size room =
    let h = nul_split a b in
    let s = cstr (a ++ 0 ∷ b) in
    let (j, e, l) =
      salt_cli_trim_whitespace_inplace-trim s h.back size (IsCstr-cstr (a ++ 0 ∷ b))
        (omega (arith, h.fits)) in
    let kept : length (trim s ++ 0 ∷ (j ++ h.back)) ≡ length (a ++ 0 ∷ b) = omega (
      arith,
      l,
      ap (λ (x : Bytes). length x) h.splits,
      length-append (trim s) j,
      length-append (trim s) (0 ∷ (j ++ h.back)),
      length-append j h.back,
      length-append s (0 ∷ h.back),
    ) in
    Gives-intro _ _ (trim s ++ 0 ∷ (j ++ h.back))
      (ap (λ (x : Bytes). salt_cli_trim_whitespace_inplace x size) h.splits ∙ e)
      (kept, cstr-append (trim s) (j ++ h.back) (IsCstr-trim s (IsCstr-cstr (a ++ 0 ∷ b))))

-- The copy of a string, with the NUL behind it, fills a buffer with one byte more.
pub copy_bytes-closed :
    (xs buffer : Bytes) (n : ℕ)
    → length xs ≡ n
    → length buffer ≡ n + 1
    → (do copied ← copy_bytes xs 0 buffer; store copied n 0) ≡ some (xs ++ 0 ∷ [])
copy_bytes-closed xs buffer n l size =
    let (gap, x, back, e, m) = split_at n buffer (omega (arith, size)) in
    let copy = copy_bytes-append xs [] gap (x ∷ back) (omega (arith, l, m)) in
    let empty : back ≡ [] =
      nothing back
        (omega (arith, ap (λ (b : Bytes). length b) e, length-append gap (x ∷ back), m, size)) in
    rw e (rw (copy, ◌>>=◌) (rw (← l) (rw empty (store-append xs x [] 0))))
  where
    nothing : (b : Bytes) → length b ≡ 0 → b ≡ []
    nothing [] h = refl
    nothing (y ∷ b) h = absurd (omega arith)

pub first_is_nul-Gives :
    (array : Bytes) → 0 < length array → Gives (λ (b : Bool). Unit {0}) (first_is_nul array)
first_is_nul-Gives [] h = absurd (omega arith)
first_is_nul-Gives (c ∷ cs) h = tt

bind_bind-Gives :
    {B : Type 0} (Q : B → Type 0) (m : Option Bytes) (f : Bytes → Option Bytes)
    (next : Bytes → Option B) (y : Bytes)
    → (m >>= f) ≡ some y
    → Gives Q (next y)
    → Gives Q (m >>= (λ a. f a >>= next))
bind_bind-Gives Q none f next y e h = absurd (cc e)
bind_bind-Gives Q (some a) f next y e h = rw (e, ◌>>=◌) h

-- What follows a copy that was closed.
pub closing-Gives :
    {B : Type 0} (Q : B → Type 0) (xs buffer : Bytes) (n : ℕ)
    → length xs ≡ n
    → length buffer ≡ n + 1
    → (next : Bytes → Option B) → Gives Q (next (xs ++ 0 ∷ []))
    → Gives Q (copy_bytes xs 0 buffer >>= (λ copied. store copied n 0 >>= next))
closing-Gives Q xs buffer n l size next h =
    bind_bind-Gives Q _ (λ copied. store copied n 0) next _ (copy_bytes-closed xs buffer n l size) h
