-- ===== src/Base/Results.antt =====
-- What a fallible Go function returns, `(value, error)`, with a third case for a model that ran
-- out of fuel. That case is never an answer of the program.
use mathlib.Core.Path.{◌≡◌, refl}
use mathlib.Core.Logic.{◌≢◌}
use mathlib.Core.Bool.{Bool, true, false}
use quetzalog.Base.Tests.{if◌then◌else◌}

pub data Outcome {ℓ κ} (E : Type ℓ) (A : Type κ) : Type (ℓ ⊔ κ) where
  ok : A → Outcome E A
  err : E → Outcome E A
  out_of_fuel : Outcome E A

infixl 5 ◌>>=◌
abbrev pub ◌>>=◌ {ℓ κ μ} :
    {E : Type ℓ} {A : Type κ} {B : Type μ} → Outcome E A → (A → Outcome E B) → Outcome E B
ok a >>= f = f a
err e >>= f = err e
out_of_fuel >>= f = out_of_fuel

-- The computation ends, and what it returns without an error satisfies `P`.
abbrev pub Ends : {E A : Type 0} → (A → Type 0) → Outcome E A → Type 0
Ends P (ok a) = P a
Ends P (err e) = Unit
Ends P out_of_fuel = ⊥

module _ {E A B : Type 0} where
  pub Ends-bind :
      (P : A → Type 0) (Q : B → Type 0) (m : Outcome E A) (f : A → Outcome E B)
      → Ends P m
      → ((a : A) → P a → Ends Q (f a))
      → Ends Q (m >>= f)
  Ends-bind P Q (ok a) f h k = k a h
  Ends-bind P Q (err e) f h k = tt
  Ends-bind P Q out_of_fuel f h k = h

module _ {E A : Type 0} where
  pub Ends-map : (P Q : A → Type 0) (m : Outcome E A) → Ends P m → ((a : A) → P a → Q a) → Ends Q m
  Ends-map P Q (ok a) h k = k a h
  Ends-map P Q (err e) h k = tt
  Ends-map P Q out_of_fuel h k = h

  pub Ends-if :
      (P : A → Type 0) (b : Bool) (m n : Outcome E A)
      → (b ≡ true → Ends P m)
      → (b ≡ false → Ends P n)
      → Ends P (if b then m else n)
  Ends-if P true m n h k = h refl
  Ends-if P false m n h k = k refl

module _ {E A B : Type 0} where
  pub bind-Ended :
      (m : Outcome E A) (f : A → Outcome E B)
      → m ≢ out_of_fuel
      → ((a : A) → f a ≢ out_of_fuel)
      → (m >>= f) ≢ out_of_fuel
  bind-Ended (ok a) f h k = k a
  bind-Ended (err e) f h k = λ c. cc
  bind-Ended out_of_fuel f h k = λ _. h refl

module _ {E A : Type 0} where
  -- The two ways to say that a computation ends.
  pub Ends-Ended : (P : A → Type 0) (m : Outcome E A) → Ends P m → m ≢ out_of_fuel
  Ends-Ended P (ok a) h = λ c. cc
  Ends-Ended P (err e) h = λ c. cc
  Ends-Ended P out_of_fuel h = λ _. h

  pub Ended-Ends : (P : A → Type 0) (m : Outcome E A) → m ≢ out_of_fuel → ((a : A) → P a) → Ends P m
  Ended-Ends P (ok a) h k = k a
  Ended-Ends P (err e) h k = tt
  Ended-Ends P out_of_fuel h k = h refl
