-- ===== src/Spl/Executor/Sort/Keys.antt =====
-- The order that the sort commands of internal/spl/executor/executor.go come to, one key after
-- another.
use quetzalog.Base.{
  Bool, false, ◌&&◌, ◌||◌, not, List, [], ◌∷◌, ◌++◌, ◌≡◌, refl, sym, ◌∙◌, ap, subst, arith,
  Bool-cases, inl, inr,
}
use mathlib.Core.List.{Mem, Perm, Pairwise, mem-cons_self, mem-cons_of_mem}
use mathlib.Core.List.Perm
use quetzalog.Spl.Ast.{Node, sort, SortField}
use quetzalog.Spl.Executor.Sort.{sort_by_keys, apply_sorts}
use quetzalog.Spl.Executor.Sort.Stable.{
  tied, chosen, IsOrdered, KeepsTies, IsWeakOn, StableSort, IsStablySorted,
}
use quetzalog.Spl.Executor.Sort.Classes.{
  chosen-both, chosen-swap, chosen-same, chosen-Pairwise, refine_order,
}

module _ {A : Type 0} (before : SortField → A → A → Bool) where
  -- The comparison by several keys: the first that tells two rows apart decides.
  unfoldable pub goes_before_by : List SortField → A → A → Bool
  goes_before_by [] a b = false
  goes_before_by (key ∷ keys) a b =
      before key a b || (not (before key b a) && goes_before_by keys a b)

-- The keys of the sort commands of a query, those of the last command first.
unfoldable pub sort_keys_of : List Node → List SortField
sort_keys_of [] = []
sort_keys_of (sort keys ∷ q) = sort_keys_of q ++ keys
sort_keys_of (_ ∷ q) = sort_keys_of q

module _ {A : Type 0} where
  IsWeakOn-perm :
      (less : A → A → Bool) (m l : List A) → Perm m l → IsWeakOn less l → IsWeakOn less m
  IsWeakOn-perm less m l p w = record {
    one_way = λ x y hx hy. w.one_way x y (inside x hx) (inside y hy);
    step = λ x y z hx hy hz. w.step x y z (inside x hx) (inside y hy) (inside z hz);
  }
    where
      inside : (x : A) → Mem x m → Mem x l
      inside x h = (Perm.mem_iff p).0 h

  IsWeakOn-irrefl :
      (less : A → A → Bool) (l : List A) → IsWeakOn less l → (x : A) → Mem x l → less x x ≡ false
  IsWeakOn-irrefl less l w x m = elim (Bool-cases (less x x)) [
    | inl e ↦ w.one_way x x m m e
    | inr e ↦ e
  ]

  IsOrdered-none : (l : List A) → IsOrdered (λ a b. false) l
  unfolding IsOrdered
  IsOrdered-none [] = Pairwise.nil
  IsOrdered-none (x ∷ l) = Pairwise.cons (λ y m. refl) (IsOrdered-none l)

module _ {A : Type 0} (before : SortField → A → A → Bool) (s : StableSort A) where
  pub sort_by_keys-perm :
      (keys : List SortField) (rows : List A)
      → Perm (sort_by_keys before s.slice_stable keys rows) rows
  unfolding sort_by_keys
  sort_by_keys-perm [] rows = Perm.rfl
  sort_by_keys-perm (key ∷ keys) rows =
      Perm.trans (s.permutes (before key) (sort_by_keys before s.slice_stable keys rows))
        (sort_by_keys-perm keys rows)

  tied-cons :
      (key : SortField) (keys : List SortField) (a b : A)
      → tied (goes_before_by before (key ∷ keys)) a b
        ≡ tied (before key) a b && tied (goes_before_by before keys) a b
  unfolding tied goes_before_by
  tied-cons key keys a b = ground arith

  module _ (rows : List A) where
    done : List SortField → List A
    done keys = sort_by_keys before s.slice_stable keys rows

    weak_done :
        (key : SortField) (keys : List SortField)
        → IsWeakOn (before key) rows
        → IsWeakOn (before key) (done keys)
    unfolding done
    weak_done key keys w =
        IsWeakOn-perm (before key) (done keys) rows (sort_by_keys-perm keys rows) w

    -- A class of the one key, after its own sort as before it.
    class_done :
        (key : SortField) (keys : List SortField) (c : A)
        → IsWeakOn (before key) rows
        → Mem c rows
        → chosen (tied (before key) c) (done (key ∷ keys))
          ≡ chosen (tied (before key) c) (done keys)
    unfolding done sort_by_keys KeepsTies
    class_done key keys c w m =
        s.keeps_ties (before key) (done keys) (weak_done key keys w) c
          ((Perm.mem_iff (sort_by_keys-perm keys rows)).1 m)

    done-IsOrdered :
        (keys : List SortField)
        → ((key : SortField) → Mem key keys → IsWeakOn (before key) rows)
        → IsOrdered (goes_before_by before keys) (done keys)
    unfolding done sort_by_keys goes_before_by IsOrdered
    done-IsOrdered [] w = IsOrdered-none rows
    done-IsOrdered (key ∷ keys) w =
        let here = w key mem-cons_self in
        let rest = done-IsOrdered keys (λ k m. w k (mem-cons_of_mem key m)) in
        let weak = weak_done key keys here in
        let less = before key in
        refine_order less (goes_before_by before keys) (done (key ∷ keys))
          (IsWeakOn-irrefl less (done (key ∷ keys)) (weak_done key (key ∷ keys) here))
          (s.orders less (done keys) weak)
          (λ c m.
            subst (IsOrdered (goes_before_by before keys))
              (sym (
                class_done key keys c here
                  ((Perm.mem_iff (sort_by_keys-perm (key ∷ keys) rows)).0 m)))
              (chosen-Pairwise _ (tied less c) (done keys) rest))

    chosen-tied-cons :
        (key : SortField) (keys : List SortField) (c : A) (l : List A)
        → chosen (tied (goes_before_by before (key ∷ keys)) c) l
          ≡ chosen (tied (goes_before_by before keys) c) (chosen (tied (before key) c) l)
    chosen-tied-cons key keys c l =
        chosen-same _ _ (tied-cons key keys c) l ∙ chosen-both (tied (before key) c) _ l

    done-KeepsTies :
        (keys : List SortField)
        → ((key : SortField) → Mem key keys → IsWeakOn (before key) rows)
        → KeepsTies (goes_before_by before keys) (done keys) rows
    unfolding done sort_by_keys KeepsTies
    done-KeepsTies [] w c m = refl
    done-KeepsTies (key ∷ keys) w c m =
        let p = tied (before key) c in
        let q = tied (goes_before_by before keys) c in
        chosen-tied-cons key keys c (done (key ∷ keys))
        ∙ ap (chosen q) (class_done key keys c (w key mem-cons_self) m)
        ∙ chosen-swap p q (done keys)
        ∙ ap (chosen p) (done-KeepsTies keys (λ k h. w k (mem-cons_of_mem key h)) c m)
        ∙ chosen-swap q p rows
        ∙ sym (chosen-tied-cons key keys c rows)

    pub sort_by_keys-IsStablySorted :
        (keys : List SortField)
        → ((key : SortField) → Mem key keys → IsWeakOn (before key) rows)
        → IsStablySorted
            (goes_before_by before keys)
            (sort_by_keys before s.slice_stable keys rows)
            rows
    unfolding IsStablySorted done
    sort_by_keys-IsStablySorted keys w =
        (done-IsOrdered keys w, done-KeepsTies keys w, sort_by_keys-perm keys rows)

  sort_by_keys-append :
      (keys more : List SortField) (rows : List A)
      → sort_by_keys before s.slice_stable (keys ++ more) rows
        ≡ sort_by_keys before s.slice_stable keys (sort_by_keys before s.slice_stable more rows)
  unfolding sort_by_keys
  sort_by_keys-append [] more rows = refl
  sort_by_keys-append (key ∷ keys) more rows =
      ap (s.slice_stable (before key)) (sort_by_keys-append keys more rows)

  -- The sort commands of a query as one.
  pub apply_sorts-sort_by_keys :
      (q : List Node) (rows : List A)
      → apply_sorts before s.slice_stable q rows
        ≡ sort_by_keys before s.slice_stable (sort_keys_of q) rows
  unfolding apply_sorts sort_by_keys sort_keys_of
  apply_sorts-sort_by_keys [] rows = refl
  apply_sorts-sort_by_keys (sort keys ∷ q) rows =
      apply_sorts-sort_by_keys q (sort_by_keys before s.slice_stable keys rows)
      ∙ sym (sort_by_keys-append (sort_keys_of q) keys rows)
  apply_sorts-sort_by_keys (_ ∷ q) rows = apply_sorts-sort_by_keys q rows
