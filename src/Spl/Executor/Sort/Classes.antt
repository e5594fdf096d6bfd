-- ===== src/Spl/Executor/Sort/Classes.antt =====
-- The rows with the same sort key, for the sorting of internal/spl/executor/executor.go.
use quetzalog.Base.{
  Bool, true, false, ◌&&◌, ◌||◌, not, List, [], ◌∷◌, ◌≡◌, refl, sym, ap, subst, arith, Bool-cases,
  inl, inr,
}
use mathlib.Core.Logic.Or
use mathlib.Core.List.{
  Mem, Mem-prop, Pairwise, mem-cons_self, mem-cons_of_mem, mem-cons, rel_of_Pairwise-cons,
}
use mathlib.Core.List.Pairwise
use quetzalog.Spl.Executor.Sort.Stable.{tied, chosen, IsOrdered}

module _ {A : Type 0} where
  pub chosen-both :
      (p q : A → Bool) (l : List A) → chosen (λ x. p x && q x) l ≡ chosen q (chosen p l)
  unfolding chosen
  chosen-both p q [] = refl
  chosen-both p q (x ∷ l) = ground (arith, chosen-both p q l)

  pub chosen-swap : (p q : A → Bool) (l : List A) → chosen q (chosen p l) ≡ chosen p (chosen q l)
  unfolding chosen
  chosen-swap p q [] = refl
  chosen-swap p q (x ∷ l) = ground (arith, chosen-swap p q l)

  pub chosen-same :
      (p q : A → Bool) → ((x : A) → p x ≡ q x) → (l : List A) → chosen p l ≡ chosen q l
  unfolding chosen
  chosen-same p q h [] = refl
  chosen-same p q h (x ∷ l) = ground (arith, h x, chosen-same p q h l)

  chosen_here : (p : A → Bool) (x : A) (l : List A) → p x ≡ true → chosen p (x ∷ l) ≡ x ∷ chosen p l
  unfolding chosen
  chosen_here p x l h = ground arith

  chosen_there : (p : A → Bool) (x : A) (l : List A) → p x ≡ false → chosen p (x ∷ l) ≡ chosen p l
  unfolding chosen
  chosen_there p x l h = ground arith

  mem-chosen : (p : A → Bool) (y : A) → p y ≡ true → (l : List A) → Mem y l → Mem y (chosen p l)
  unfolding chosen
  mem-chosen p y h [] m = m
  mem-chosen p y h (x ∷ l) m = elim (Bool-cases (p x)) [
    | inl kept ↦
        subst (Mem y) (sym (chosen_here p x l kept))
          (mem-cons.1 (Or.imp (λ e. e) (mem-chosen p y h l) (mem-cons.0 m)))
    | inr left ↦ subst (Mem y) (sym (chosen_there p x l left)) (
        Or.elim Mem-prop (mem-cons.0 m) (λ e. absurd (ground (arith, ap p e, left)))
          (mem-chosen p y h l))
  ]

  mem_of_chosen : (p : A → Bool) (y : A) (l : List A) → Mem y (chosen p l) → Mem y l
  unfolding chosen
  mem_of_chosen p y [] m = m
  mem_of_chosen p y (x ∷ l) m = elim (Bool-cases (p x)) [
    | inl kept ↦ mem-cons.1 (
        Or.imp (λ e. e) (mem_of_chosen p y l)
          (mem-cons.0 (subst (Mem y) (chosen_here p x l kept) m)))
    | inr left ↦ mem-cons_of_mem x (mem_of_chosen p y l (subst (Mem y) (chosen_there p x l left) m))
  ]

  pub chosen-Pairwise :
      (R : A → A → Type 0) (p : A → Bool) (l : List A) → Pairwise R l → Pairwise R (chosen p l)
  unfolding chosen
  chosen-Pairwise R p [] h = h
  chosen-Pairwise R p (x ∷ l) (Pairwise.cons r h) = elim (Bool-cases (p x)) [
    | inl kept ↦
        subst (Pairwise R) (sym (chosen_here p x l kept))
          (Pairwise.cons (λ y m. r y (mem_of_chosen p y l m)) (chosen-Pairwise R p l h))
    | inr left ↦ subst (Pairwise R) (sym (chosen_there p x l left)) (chosen-Pairwise R p l h)
  ]

  tail_order :
      (less more : A → A → Bool) (c x : A) (l : List A)
      → IsOrdered more (chosen (tied less c) (x ∷ l))
      → IsOrdered more (chosen (tied less c) l)
  unfolding IsOrdered
  tail_order less more c x l h = elim (Bool-cases (tied less c x)) [
    | inl kept ↦ Pairwise.of_cons (subst (IsOrdered more) (chosen_here (tied less c) x l kept) h)
    | inr left ↦ subst (IsOrdered more) (chosen_there (tied less c) x l left) h
  ]

  refine_head :
      (less more : A → A → Bool) (x y : A) (l : List A)
      → less x x ≡ false
      → less x y ≡ false
      → less y x ≡ false
      → Mem y l
      → IsOrdered more (chosen (tied less x) (x ∷ l))
      → more y x ≡ false
  unfolding IsOrdered tied
  refine_head less more x y l irr near back m h =
      rel_of_Pairwise-cons
        (subst (IsOrdered more) (chosen_here (tied less x) x l (ground (arith, irr))) h)
        (mem-chosen (tied less x) y (ground (arith, near, back)) l m)

  -- An order on the members of every class of a list is one on the list, next to the order of
  -- the classes.
  pub refine_order :
      (less more : A → A → Bool) (l : List A)
      → ((x : A) → Mem x l → less x x ≡ false)
      → IsOrdered less l
      → ((c : A) → Mem c l → IsOrdered more (chosen (tied less c) l))
      → IsOrdered (λ a b. less a b || (not (less b a) && more a b)) l
  unfolding tied IsOrdered
  refine_order less more [] irr h k = Pairwise.nil
  refine_order less more (x ∷ l) irr (Pairwise.cons r h) k =
      Pairwise.cons
        (λ y m. elim (Bool-cases (less x y)) [
          | inl apart ↦ ground (arith, r y m)
          | inr near ↦ ground (
            arith,
            r y m,
            refine_head less more x y l (irr x mem-cons_self) near (r y m) m (k x mem-cons_self),
          )
        ])
        (refine_order less more l (λ y m. irr y (mem-cons_of_mem x m)) h
          (λ c m. tail_order less more c x l (k c (mem-cons_of_mem x m))))
