-- ===== src/Base/Rows.antt =====
-- The rows of a table as a list.
use mathlib.Core.Path.{◌≡◌, refl}
use mathlib.Core.Bool.{Bool, false, ◌||◌}
use mathlib.Core.List.{List, [], ◌∷◌}
use native.Mathlib.Omega.{arith}
use quetzalog.Base.Tests.{Text, equal}

module _ {A : Type 0} where
  -- Whether a row passes a test.
  unfoldable pub any_row : (A → Bool) → List A → Bool
  any_row test [] = false
  any_row test (row ∷ rows) = test row || any_row test rows

  abbrev pub All : (A → Type 0) → List A → Type 0
  All P [] = Unit
  All P (x ∷ xs) = P x × All P xs

  -- No two rows have the same key.
  unfoldable pub IsKey : (A → Text) → List A → Type 0
  unfolding any_row
  IsKey key [] = Unit
  IsKey key (x ∷ xs) = (any_row (λ y. equal (key y) (key x)) xs ≡ false) × IsKey key xs

  pub any_row-or :
      (p q : A → Bool) (xs : List A)
      → any_row (λ x. p x || q x) xs ≡ false
      → (any_row p xs ≡ false) × (any_row q xs ≡ false)
  unfolding any_row
  any_row-or p q [] h = (refl, refl)
  any_row-or p q (x ∷ xs) h = ground (arith, any_row-or p q xs)

  pub All-map : (P Q : A → Type 0) → ((x : A) → P x → Q x) → (xs : List A) → All P xs → All Q xs
  All-map P Q f [] h = tt
  All-map P Q f (x ∷ xs) (p, h) = (f x p, All-map P Q f xs h)
