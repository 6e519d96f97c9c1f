-- ===== src/Base/Results.antt =====
-- Results that may be missing, and what holds of them; sums over a list.
use Prim.Native.Nat.{ℕ, zero, suc, ◌+◌}
use mathlib.Core.Path.{◌≡◌, refl, ap}
use mathlib.Core.List.{List, [], ◌∷◌}
use mathlib.Core.Option.{Option, none, some, some-injective, none-ne-some}
use native.Mathlib.Omega.{arith}
use eltex_course.Base.Lists.{get_elem?, set}

infixl 5 ◌>>=◌
abbrev pub ◌>>=◌ {ℓ κ} : {A : Type ℓ} → {B : Type κ} → Option A → (A → Option B) → Option B
none >>= f = none
some a >>= f = f a

-- What holds of a result, if there is one.
abbrev pub Every {ℓ κ} : {A : Type ℓ} → (A → Type κ) → Option A → Type κ
Every P none = Unit
Every P (some a) = P a

pub Every-self {ℓ} : {A : Type ℓ} → (o : Option A) → Every (λ a. o ≡ some a) o
Every-self none = tt
Every-self (some a) = refl

pub Every-bind {ℓ κ μ ν} :
    {A : Type ℓ}
    → {B : Type κ} → (P : A → Type μ) → (Q : B → Type ν) → (o : Option A) → (f : A → Option B)
    → Every P o
    → ((a : A) → P a → Every Q (f a))
    → Every Q (o >>= f)
Every-bind P Q none f h g = tt
Every-bind P Q (some a) f h g = g a h

-- Two results in a row, and what follows them.
pub bind_twice {ℓ κ μ} :
    {A : Type ℓ}
    → {B : Type κ} → {C : Type μ} → (o : Option A) → (f : A → Option B) → (k : B → Option C)
    → (b : B) → (r : Option C) → (o >>= f) ≡ some b
    → k b ≡ r
    → (o >>= λ a. (f a >>= k)) ≡ r
bind_twice none f k b r e l = absurd (none-ne-some b e)
bind_twice (some a) f k b r e l = rw e l

module _ {ℓ} {A : Type ℓ} (f : A → ℕ) where
  abbrev pub total : List A → ℕ
  total [] = 0
  total (x ∷ xs) = f x + total xs

  pub total-set :
      (xs : List A) (i : ℕ) (x y : A)
      → get_elem? xs i ≡ some x
      → total (set xs i y) + f x ≡ total xs + f y
  total-set [] i x y e = absurd (none-ne-some x e)
  total-set (z ∷ xs) zero x y e =
      let same : z ≡ x = some-injective z x e in omega (arith, ap f same)
  total-set (z ∷ xs) (suc i) x y e = omega (arith, total-set xs i x y e)
