-- ===== src/Spl/Samples/Sorting.antt =====
-- A run of the sort commands of internal/spl/executor/executor.go, on an insertion sort.
use quetzalog.Base.{
  ℕ, ltb, Bool, true, false, ◌&&◌, List, [], ◌∷◌, Text, codes, some, length, if◌then◌else◌, ◌≡◌,
  refl, sym, ◌∙◌, ap, subst, arith, Bool-cases, inl, inr, any_row,
}
use mathlib.Core.Logic.Or
use mathlib.Core.Bool.{Bool-set}
use mathlib.Core.List.{Mem, Perm, Pairwise, mem-cons_self, mem-cons_of_mem, mem-cons, not-mem-nil}
use mathlib.Core.List.Perm
use quetzalog.Spl.Unicode.{ascii}
use quetzalog.Spl.Ast.{Node, SortField, sort}
use quetzalog.Spl.Executor.Sort.{Printed, goes_before, apply_sort}
use quetzalog.Spl.Executor.Sort.Stable.{
  tied, chosen, IsOrdered, KeepsTies, IsWeakOn, StableSort, IsStablySorted,
}
use quetzalog.Spl.Executor.Sort.Columns.{FloatOrder, is_uniform}
use quetzalog.Spl.Executor.Sort.Keys.{goes_before_by, sort_keys_of}
use quetzalog.Spl.Executor.Sort.Ordered.{apply_sort-IsStablySorted}

module _ {A : Type 0} (less : A → A → Bool) where
  put_in : A → List A → List A
  put_in x [] = x ∷ []
  put_in x (y ∷ l) = let more = put_in x l in if less y x then y ∷ more else x ∷ y ∷ l

  put_in_all : List A → List A
  unfolding put_in
  put_in_all [] = []
  put_in_all (x ∷ l) = put_in x (put_in_all l)

  put_in_later : (x y : A) (l : List A) → less y x ≡ true → put_in x (y ∷ l) ≡ y ∷ put_in x l
  unfolding put_in
  put_in_later x y l h = ground (arith, h)

  put_in_here : (x y : A) (l : List A) → less y x ≡ false → put_in x (y ∷ l) ≡ x ∷ y ∷ l
  unfolding put_in
  put_in_here x y l h = ground (arith, h)

  put_in-perm : (x : A) (l : List A) → Perm (put_in x l) (x ∷ l)
  unfolding put_in
  put_in-perm x [] = Perm.rfl
  put_in-perm x (y ∷ l) = elim (Bool-cases (less y x)) [
    | inl e ↦
        subst (λ m. Perm m (x ∷ y ∷ l)) (sym (put_in_later x y l e))
          (Perm.trans (Perm.cons y (put_in-perm x l)) (Perm.swap x y l))
    | inr e ↦ subst (λ m. Perm m (x ∷ y ∷ l)) (sym (put_in_here x y l e)) Perm.rfl
  ]

  put_in_all-perm : (l : List A) → Perm (put_in_all l) l
  unfolding put_in_all
  put_in_all-perm [] = Perm.rfl
  put_in_all-perm (x ∷ l) =
      Perm.trans (put_in-perm x (put_in_all l)) (Perm.cons x (put_in_all-perm l))

  module _ (all : List A) (w : IsWeakOn less all) where
    put_in-IsOrdered :
        (x : A) (l : List A)
        → Mem x all
        → ((y : A) → Mem y l → Mem y all)
        → IsOrdered less l
        → IsOrdered less (put_in x l)
    unfolding IsOrdered put_in
    put_in-IsOrdered x [] hx hl h = Pairwise.cons (λ y m. absurd (not-mem-nil m)) Pairwise.nil
    put_in-IsOrdered x (y ∷ l) hx hl (Pairwise.cons r h) = elim (Bool-cases (less y x)) [
      | inl e ↦ subst (IsOrdered less) (sym (put_in_later x y l e)) (
          Pairwise.cons
            (λ z m.
              Or.elim (Bool-set _ _) (mem-cons.0 ((Perm.mem_iff (put_in-perm x l)).0 m))
                (λ same. ap (λ v. less v y) same ∙ w.one_way y x (hl y mem-cons_self) hx e) (r z))
            (put_in-IsOrdered x l hx (λ z m. hl z (mem-cons_of_mem y m)) h))
      | inr e ↦ subst (IsOrdered less) (sym (put_in_here x y l e)) (
          Pairwise.cons
            (λ z m.
              Or.elim (Bool-set _ _) (mem-cons.0 m) (λ same. ap (λ v. less v x) same ∙ e)
                (λ n. w.step z y x (hl z m) (hl y mem-cons_self) hx (r z n) e))
            (Pairwise.cons r h))
    ]

    -- Of two in the same class none goes before the other.
    not_both_tied :
        (c x y : A)
        → Mem c all
        → Mem x all
        → Mem y all
        → less y x ≡ true
        → tied less c y && tied less c x ≡ false
    unfolding tied
    not_both_tied c x y hc hx hy e = elim (Bool-cases (less y c)) [
      | inl h ↦ ground (arith, h)
      | inr h ↦ elim (Bool-cases (less c x)) [
        | inl k ↦ ground (arith, k)
        | inr k ↦ absurd (ground (arith, e, w.step y c x hy hc hx h k))
      ]
    ]

    put_in-KeepsTies :
        (c x : A) (l : List A)
        → Mem c all
        → Mem x all
        → ((y : A) → Mem y l → Mem y all)
        → chosen (tied less c) (put_in x l) ≡ chosen (tied less c) (x ∷ l)
    unfolding put_in chosen
    put_in-KeepsTies c x [] hc hx hl = refl
    put_in-KeepsTies c x (y ∷ l) hc hx hl = elim (Bool-cases (less y x)) [
      | inl e ↦
          ap (chosen (tied less c)) (put_in_later x y l e)
          ∙ ground (
            arith,
            not_both_tied c x y hc hx (hl y mem-cons_self) e,
            put_in-KeepsTies c x l hc hx (λ z m. hl z (mem-cons_of_mem y m)),
          )
      | inr e ↦ ap (chosen (tied less c)) (put_in_here x y l e)
    ]

    put_in_all-Ordered :
        (l : List A) → ((y : A) → Mem y l → Mem y all) → IsOrdered less (put_in_all l)
    unfolding IsOrdered put_in_all
    put_in_all-Ordered [] hl = Pairwise.nil
    put_in_all-Ordered (x ∷ l) hl =
        put_in-IsOrdered x (put_in_all l) (hl x mem-cons_self)
          (λ y m. hl y (mem-cons_of_mem x ((Perm.mem_iff (put_in_all-perm l)).0 m)))
          (put_in_all-Ordered l (λ y m. hl y (mem-cons_of_mem x m)))

    put_in_all-ties :
        (c : A) (l : List A)
        → Mem c all
        → ((y : A) → Mem y l → Mem y all)
        → chosen (tied less c) (put_in_all l) ≡ chosen (tied less c) l
    unfolding put_in_all chosen
    put_in_all-ties c [] hc hl = refl
    put_in_all-ties c (x ∷ l) hc hl =
        put_in-KeepsTies c x (put_in_all l) hc (hl x mem-cons_self)
          (λ y m. hl y (mem-cons_of_mem x ((Perm.mem_iff (put_in_all-perm l)).0 m)))
        ∙ ap (λ m. if tied less c x then x ∷ m else m)
            (put_in_all-ties c l hc (λ y m. hl y (mem-cons_of_mem x m)))

abbrev insertion : (A : Type 0) → StableSort A
unfolding KeepsTies
insertion A = record {
  slice_stable = put_in_all;
  permutes = put_in_all-perm;
  orders = λ less l w. put_in_all-Ordered less l w l (λ y m. m);
  keeps_ties = λ less l w c m. put_in_all-ties less l w c l m (λ y h. h);
}

-- Values that are texts, and a number read as how many runes it has.
abbrev lengths : Printed Text ℕ
lengths = record {
  nil_value = codes "<nil>";
  print = λ t. t;
  parse_float = λ t. some (length t);
  below = ltb;
  is_nan = λ n. false;
}

abbrev lengths_order : FloatOrder lengths
lengths_order = record {
  one_way = λ x y h. ground (arith, h);
  step = λ x y z n h k. ground (arith, h, k);
}

abbrev crowded : List (List (Text × Text))
crowded =
    ((codes "host", codes "a") ∷ (codes "count", codes "111") ∷ [])
    ∷ ((codes "host", codes "bb") ∷ (codes "count", codes "1") ∷ [])
    ∷ ((codes "host", codes "c") ∷ (codes "count", codes "1") ∷ [])
    ∷ ((codes "host", codes "d") ∷ (codes "count", codes "1") ∷ [])
    ∷ []

abbrev by_count_and_host : List Node
by_count_and_host =
    sort (
      record { field = codes "count"; desc = true }
      ∷ record { field = codes "host"; desc = false }
      ∷ [])
    ∷ []

never_any : {A : Type 0} → (rows : List A) → any_row (λ row. false) rows ≡ false
unfolding any_row
never_any [] = refl
never_any (row ∷ rows) = never_any rows

all_uniform :
    (rows : List (List (Text × Text))) (key : SortField) → is_uniform lengths ascii rows key ≡ true
unfolding is_uniform
all_uniform rows key = ground (arith, never_any rows)

apply_sort-IsStablySorted_example :
    IsStablySorted
      (goes_before_by (goes_before lengths ascii) (sort_keys_of by_count_and_host))
      (apply_sort lengths ascii
        (insertion (List (Text × Text))).slice_stable
        by_count_and_host
        crowded)
      crowded
apply_sort-IsStablySorted_example =
    apply_sort-IsStablySorted lengths lengths_order ascii (insertion (List (Text × Text)))
      by_count_and_host crowded (λ key m. all_uniform crowded key)
