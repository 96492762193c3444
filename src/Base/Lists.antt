-- ===== src/Base/Lists.antt =====
-- Lists measured and indexed by the native numbers, and C strings held in fixed arrays of bytes.
use Prim.Native.Nat.{ℕ, zero, suc, ◌+◌, ◌<◌, ◌≤◌}
use mathlib.Core.Path.{◌≡◌, refl, ap}
use mathlib.Core.Bool.{Bool, true, false, ◌&&◌}
use mathlib.Core.Logic.{◌↔◌}
use mathlib.Core.Option.{Option, none, some}
use mathlib.Core.List.{List, [], ◌∷◌, ◌++◌}
use native.Mathlib.Omega.{arith}
use salt.Base.Tests.{◌==◌, if◌then◌else◌}

abbrev pub Bytes : Type 0
Bytes = List ℕ

module _ {ℓ} {A : Type ℓ} where
  abbrev pub length : List A → ℕ
  length [] = 0
  length (x ∷ xs) = suc (length xs)

  abbrev pub take : ℕ → List A → List A
  take zero xs = []
  take (suc n) [] = []
  take (suc n) (x ∷ xs) = x ∷ take n xs

  abbrev pub drop : ℕ → List A → List A
  drop zero xs = xs
  drop (suc n) [] = []
  drop (suc n) (x ∷ xs) = drop n xs

  -- `p[i]`; out of range there is no value.
  abbrev pub get_elem? : List A → ℕ → Option A
  get_elem? [] i = none
  get_elem? (x ∷ xs) zero = some x
  get_elem? (x ∷ xs) (suc i) = get_elem? xs i

  -- `p[i] = v`; a write out of range is a fault.
  abbrev pub store : List A → ℕ → A → Option (List A)
  store [] i v = none
  store (x ∷ xs) zero v = some (v ∷ xs)
  store (x ∷ xs) (suc i) v = elim (store xs i v) [ none ↦ none | some ys ↦ some (x ∷ ys) ]

  pub length-append : (xs ys : List A) → length (xs ++ ys) ≡ length xs + length ys
  length-append [] ys = omega arith
  length-append (x ∷ xs) ys = omega (arith, length-append xs ys)

  -- A write in range replaces the one element behind the first `length xs`.
  pub store-append :
      (xs : List A) (y : A) (ys : List A) (v : A)
      → store (xs ++ y ∷ ys) (length xs) v ≡ some (xs ++ v ∷ ys)
  store-append [] y ys v = refl
  store-append (x ∷ xs) y ys v = ground (arith, store-append xs y ys v)

  -- A write in range succeeds and keeps the length.
  pub store_total :
      (xs : List A) (i : ℕ) (v : A)
      → i < length xs
      → (ys : List A) × (store xs i v ≡ some ys) × (length ys ≡ length xs)
  store_total [] i v h = absurd (omega arith)
  store_total (x ∷ xs) zero v h = (v ∷ xs, refl, refl)
  store_total (x ∷ xs) (suc i) v h =
      let (ys, e, l) = store_total xs i v (omega arith) in (x ∷ ys, rw e, ap suc l)

  -- A list splits at an index in range.
  pub split_at :
      (n : ℕ) (xs : List A)
      → n < length xs
      → (front : List A) × (x : A) × (back : List A) × (xs ≡ front ++ x ∷ back) × (length front ≡ n)
  split_at n [] h = absurd (omega arith)
  split_at zero (x ∷ xs) h = ([], x, xs, refl, refl)
  split_at (suc n) (x ∷ xs) h =
      let (front, y, back, e, l) = split_at n xs (omega arith) in
      (x ∷ front, y, back, ap (λ t. x ∷ t) e, ap suc l)

-- The bytes in front of the first NUL, which are the C string that an array holds.
abbrev pub cstr : Bytes → Bytes
cstr [] = []
cstr (c ∷ cs) = if c == 0 then [] else c ∷ cstr cs

-- No NUL among the bytes of a C string.
abbrev pub IsCstr : Bytes → Type 0
IsCstr [] = Unit
IsCstr (c ∷ cs) = (0 < c) × IsCstr cs

pub cstr-append : (s t : Bytes) → IsCstr s → cstr (s ++ 0 ∷ t) ≡ s
cstr-append [] t h = refl
cstr-append (c ∷ cs) t h = ground (arith, cstr-append cs t h.1)

pub IsCstr-cstr : (s : Bytes) → IsCstr (cstr s)
IsCstr-cstr [] = tt
IsCstr-cstr (c ∷ cs) = ground (arith, IsCstr-cstr cs)

-- `strcmp(a, b) == 0`
abbrev pub strcmp_eq : Bytes → Bytes → Bool
strcmp_eq [] [] = true
strcmp_eq [] (y ∷ ys) = false
strcmp_eq (x ∷ xs) [] = false
strcmp_eq (x ∷ xs) (y ∷ ys) = x == y && strcmp_eq xs ys

pub strcmp_eq_iff : (a b : Bytes) → (strcmp_eq a b ≡ true) ↔ (a ≡ b)
strcmp_eq_iff [] [] = ground arith
strcmp_eq_iff [] (y ∷ b) = ground arith
strcmp_eq_iff (x ∷ a) [] = ground arith
strcmp_eq_iff (x ∷ a) (y ∷ b) = ground (arith, strcmp_eq_iff a b)

-- A buffer of `n` bytes that was wiped.
abbrev pub wiped : ℕ → Bytes
wiped zero = []
wiped (suc n) = 0 ∷ wiped n

pub length-wiped : (n : ℕ) → length (wiped n) ≡ n
length-wiped zero = refl
length-wiped (suc n) = ap suc (length-wiped n)

-- The first `n` bytes at a pointer, all of which are read; past the end of the array it is a fault.
abbrev pub window : ℕ → Bytes → Option Bytes
window zero xs = some []
window (suc n) [] = none
window (suc n) (x ∷ xs) = elim (window n xs) [ none ↦ none | some ys ↦ some (x ∷ ys) ]

pub window_total : (n : ℕ) (xs : Bytes) → n ≤ length xs → window n xs ≡ some (take n xs)
window_total zero xs h = refl
window_total (suc n) [] h = absurd (omega arith)
window_total (suc n) (x ∷ xs) h = rw (window_total n xs (omega arith))

pub length-take : (n : ℕ) (xs : Bytes) → n ≤ length xs → length (take n xs) ≡ n
length-take zero xs h = refl
length-take (suc n) [] h = absurd (omega arith)
length-take (suc n) (x ∷ xs) h = ap suc (length-take n xs (omega arith))
