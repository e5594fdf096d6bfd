-- ===== src/Spl/Executor/Sort/Stable.antt =====
-- What `sort.SliceStable` promises, for the sort commands of internal/spl/executor/executor.go.
use quetzalog.Base.{Bool, true, false, ◌&&◌, not, List, [], ◌∷◌, if◌then◌else◌, ◌≡◌}
use mathlib.Core.List.{Mem, Perm, Pairwise}

module _ {A : Type 0} where
  -- Neither of two comes before the other.
  unfoldable pub tied : (A → A → Bool) → A → A → Bool
  tied less a b = not (less a b) && not (less b a)

  unfoldable pub chosen : (A → Bool) → List A → List A
  chosen p [] = []
  chosen p (x ∷ l) = let more = chosen p l in if p x then x ∷ more else more

  -- Any two in their order are not the wrong way round.
  unfoldable pub IsOrdered : (A → A → Bool) → List A → Type 0
  IsOrdered less l = Pairwise (λ x y. less y x ≡ false) l

  -- Those tied with any member of the second list are in both lists in the same order.
  unfoldable pub KeepsTies : (A → A → Bool) → List A → List A → Type 0
  unfolding chosen tied
  KeepsTies less out l = (c : A) → Mem c l → chosen (tied less c) out ≡ chosen (tied less c) l

  -- A rearrangement in order, in which ties keep the order they had.
  unfoldable pub IsStablySorted : (A → A → Bool) → List A → List A → Type 0
  IsStablySorted less out l = IsOrdered less out × KeepsTies less out l × Perm out l

-- A comparison that is a strict weak order on the members of a list.
pub record IsWeakOn {A : Type 0} (less : A → A → Bool) (l : List A) : Type 0 where
  pub one_way : (x y : A) → Mem x l → Mem y l → less x y ≡ true → less y x ≡ false
  pub step :
      (x y z : A)
      → Mem x l
      → Mem y l
      → Mem z l
      → less x y ≡ false
      → less y z ≡ false
      → less x z ≡ false

-- A stable sort: it permutes, and where the comparison is a strict weak order it orders and keeps
-- ties.
pub record StableSort (A : Type 0) : Type 0 where
  pub slice_stable : (A → A → Bool) → List A → List A
  pub permutes : (less : A → A → Bool) (l : List A) → Perm (slice_stable less l) l
  pub orders :
      (less : A → A → Bool) (l : List A) → IsWeakOn less l → IsOrdered less (slice_stable less l)
  pub keeps_ties :
      (less : A → A → Bool) (l : List A) → IsWeakOn less l → KeepsTies less (slice_stable less l) l
