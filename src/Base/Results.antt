-- ===== src/Base/Results.antt =====
-- What holds of a result, if there is one, and the rules by which it is carried through a `do` block.
use Prim.Native.Nat.{ℕ, zero, suc}
use mathlib.Core.Path.{◌≡◌, refl}
use mathlib.Core.Bool.{Bool, true, false}
use mathlib.Core.Option.{Option, none, some}
use mathlib.Core.List.{List, [], ◌∷◌}
use native.Mathlib.Omega.{arith}
use salt.Base.Lists.{length, store}
use salt.Base.Tests.{◌>>=◌, if◌then◌else◌}

abbrev pub Every {ℓ κ} : {A : Type ℓ} → (A → Type κ) → Option A → Type κ
Every P none = Unit
Every P (some a) = P a

-- A result, of which it holds.
abbrev pub Gives {ℓ} : {A : Type ℓ} → (A → Type 0) → Option A → Type 0
Gives P none = ⊥
Gives P (some a) = P a

module _ {ℓ κ} {A : Type ℓ} (P : A → Type κ) where
  pub Every-choice :
      (b : Bool) (x y : Option A) → Every P x → Every P y → Every P (if b then x else y)
  Every-choice true x y h k = h
  Every-choice false x y h k = k

  pub Every-of_eq : (m : Option A) (a : A) → m ≡ some a → Every P m → P a
  Every-of_eq none a e h = cc e
  Every-of_eq (some b) a e h = let f : b ≡ a = cc e in rw f at h

module _ {ℓ κ μ ν} {A : Type ℓ} {B : Type κ} (P : A → Type μ) (Q : B → Type ν) where
  pub Every-bind :
      (m : Option A) (f : A → Option B)
      → Every P m
      → ((a : A) → P a → Every Q (f a))
      → Every Q (m >>= f)
  Every-bind none f h k = tt
  Every-bind (some a) f h k = k a h

module _ {ℓ κ} {A : Type ℓ} {B : Type κ} (P : A → Type 0) (Q : B → Type 0) where
  pub Gives-bind :
      (m : Option A) (f : A → Option B)
      → Gives P m
      → ((a : A) → P a → Gives Q (f a))
      → Gives Q (m >>= f)
  Gives-bind none f h k = absurd h
  Gives-bind (some a) f h k = k a h

pub Gives-choice {ℓ} :
    {A : Type ℓ} (P : A → Type 0) (b : Bool) (x y : Option A)
    → Gives P x
    → Gives P y
    → Gives P (if b then x else y)
Gives-choice P true x y h k = h
Gives-choice P false x y h k = k

pub Gives-both {ℓ} :
    {A : Type ℓ} (P Q : A → Type 0) (m : Option A)
    → Gives P m
    → Gives Q m
    → Gives (λ a. P a × Q a) m
Gives-both P Q none h k = h
Gives-both P Q (some a) h k = (h, k)

pub Gives-map {ℓ} :
    {A : Type ℓ} (P Q : A → Type 0) (m : Option A) → Gives P m → ((a : A) → P a → Q a) → Gives Q m
Gives-map P Q none h k = absurd h
Gives-map P Q (some a) h k = k a h

-- A result that is there, with what holds of it.
pub Gives-elim {ℓ} :
    {A : Type ℓ} (P : A → Type 0) (m : Option A) → Gives P m → (a : A) × (m ≡ some a) × P a
Gives-elim P none h = absurd h
Gives-elim P (some a) h = (a, refl, h)

pub Gives-intro {ℓ} :
    {A : Type ℓ} (P : A → Type 0) (m : Option A) (a : A) → m ≡ some a → P a → Gives P m
Gives-intro P m a e h = rw e h

-- A write keeps the length.
pub store-Every {ℓ} :
    {A : Type ℓ} (n : ℕ) (xs : List A) (i : ℕ) (v : A)
    → length xs ≡ n
    → Every (λ (ys : List A). length ys ≡ n) (store xs i v)
store-Every n [] i v e = tt
store-Every n (x ∷ xs) zero v e = e
store-Every zero (x ∷ xs) (suc i) v e = absurd (omega arith)
store-Every {A = A} (suc n) (x ∷ xs) (suc i) v e =
    let h = store-Every n xs i v (omega arith) in after (store xs i v) h
  where
    after :
        (m : Option (List A))
        → Every (λ (ys : List A). length ys ≡ n) m
        → Every
            (λ (ys : List A). length ys ≡ suc n)
            (elim m [ none ↦ none | some ys ↦ some (x ∷ ys) ])
    after none h = tt
    after (some ys) h = omega arith
