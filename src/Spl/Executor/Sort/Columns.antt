-- ===== src/Spl/Executor/Sort/Columns.antt =====
-- The columns that `cmpValues` of internal/spl/executor/executor.go can order.
use quetzalog.Base.{
  ℤ, Bool, true, false, ◌||◌, not, List, [], ◌∷◌, Text, Option, none, some, if◌then◌else◌, ◌≡◌,
  refl, sym, ◌∙◌, ap, arith, Bool-cases, inl, inr, any_row,
}
use mathlib.Core.Logic.Or
use mathlib.Core.Bool.{Bool-set}
use mathlib.Core.List.{Mem, mem-cons, not-mem-nil}
use quetzalog.Spl.Unicode.{Unicode}
use quetzalog.Spl.Ast.{SortField}
use quetzalog.Spl.Serializer.Text.{text_less}
use quetzalog.Spl.Executor.Rows.{value_for}
use quetzalog.Spl.Executor.Sort.{
  Printed, sign, is_below_zero, is_above_zero, cmp_parsed, cmp_values, goes_before,
}
use quetzalog.Spl.Executor.Sort.Stable.{IsWeakOn}

-- What IEEE 754 says of `<`: it goes one way, and only a NaN stands between two floats that do not
-- follow from it.
pub record FloatOrder {V F : Type 0} (values : Printed V F) : Type 0 where
  pub one_way : (x y : F) → values.below x y ≡ true → values.below y x ≡ false
  pub step :
      (x y z : F)
      → values.is_nan y ≡ false
      → values.below x y ≡ false
      → values.below y z ≡ false
      → values.below x z ≡ false

text_less-one_way : (s t : Text) → text_less s t ≡ true → text_less t s ≡ false
unfolding text_less
text_less-one_way s [] h = absurd (ground (arith, h))
text_less-one_way [] (y ∷ t) h = refl
text_less-one_way (x ∷ s) (y ∷ t) h = ground (arith, text_less-one_way s t)

text_less-step :
    (s t r : Text) → text_less s t ≡ false → text_less t r ≡ false → text_less s r ≡ false
unfolding text_less
text_less-step s t [] h k = refl
text_less-step [] [] (z ∷ r) h k = k
text_less-step [] (y ∷ t) (z ∷ r) h k = absurd (ground (arith, h))
text_less-step (x ∷ s) [] (z ∷ r) h k = absurd (ground (arith, k))
text_less-step (x ∷ s) (y ∷ t) (z ∷ r) h k = ground (arith, text_less-step s t r)

not_any :
    {A : Type 0}
    → (test : A → Bool) (l : List A) → any_row test l ≡ false
    → (x : A) → Mem x l
    → test x ≡ false
unfolding any_row
not_any test [] h x m = absurd (not-mem-nil m)
not_any test (y ∷ l) h x m =
    Or.elim (Bool-set _ _) (mem-cons.0 m) (λ e. ap test e ∙ ground (arith, h))
      (not_any test l (ground (arith, h)) x)

-- What a comparison makes of the sign, ascending or descending.
abbrev pub reads_sign : Bool → ℤ → Bool
reads_sign true c = is_above_zero c
reads_sign false c = is_below_zero c

reads_sign-sign :
    (desc p q : Bool)
    → (p ≡ true → q ≡ false)
    → reads_sign desc (sign p q) ≡ (if desc then q else p)
reads_sign-sign true true q h = sym (h refl)
reads_sign-sign true false true h = refl
reads_sign-sign true false false h = refl
reads_sign-sign false true q h = refl
reads_sign-sign false false true h = refl
reads_sign-sign false false false h = refl

-- A comparison that is another one, or that one turned round.
module _ {A : Type 0} (less before : A → A → Bool) (l : List A) (w : IsWeakOn less l) where
  turned :
      (desc : Bool)
      → ((x y : A) → Mem x l → Mem y l → before x y ≡ (if desc then less y x else less x y))
      → IsWeakOn before l
  turned true e = record {
    one_way = λ x y hx hy h. e y x hy hx ∙ w.one_way y x hy hx (sym (e x y hx hy) ∙ h);
    step = λ x y z hx hy hz h k.
        e x z hx hz ∙ w.step z y x hz hy hx (sym (e y z hy hz) ∙ k) (sym (e x y hx hy) ∙ h);
  }
  turned false e = record {
    one_way = λ x y hx hy h. e y x hy hx ∙ w.one_way x y hx hy (sym (e x y hx hy) ∙ h);
    step = λ x y z hx hy hz h k.
        e x z hx hz ∙ w.step x y z hx hy hz (sym (e x y hx hy) ∙ h) (sym (e y z hy hz) ∙ k);
  }

  read_sign :
      (desc : Bool)
      → ((x y : A) → Mem x l → Mem y l → before x y ≡ reads_sign desc (sign (less x y) (less y x)))
      → IsWeakOn before l
  read_sign desc e =
      turned desc (λ x y hx hy.
        e x y hx hy ∙ reads_sign-sign desc (less x y) (less y x) (w.one_way x y hx hy))

module _ {V F : Type 0} (values : Printed V F) (u : Unicode) where
  printed : SortField → List (Text × V) → Text
  printed key row = values.print (value_for u values.nil_value row key.field)

  abbrev pub is_text : Option F → Bool
  is_text none = true
  is_text (some x) = false

  abbrev pub is_number : Option F → Bool
  is_number none = false
  is_number (some x) = not (values.is_nan x)

  -- Whether the values of a column print as numbers but NaN, all of them, or none as a number.
  unfoldable pub is_uniform : List (List (Text × V)) → SortField → Bool
  unfolding printed any_row
  is_uniform rows key =
      not (any_row (λ row. not (is_number (values.parse_float (printed key row)))) rows)
      || not (any_row (λ row. not (is_text (values.parse_float (printed key row)))) rows)

  below_of : Option F → Option F → Bool
  below_of (some x) (some y) = values.below x y
  below_of _ _ = false

  cmp_parsed-number :
      (o p : Option F) (s t : Text)
      → is_number o ≡ true
      → is_number p ≡ true
      → cmp_parsed values o p s t ≡ sign (below_of o p) (below_of p o)
  unfolding below_of
  cmp_parsed-number none p s t h k = absurd (ground (arith, h))
  cmp_parsed-number (some x) none s t h k = absurd (ground (arith, k))
  cmp_parsed-number (some x) (some y) s t h k = refl

  cmp_parsed-text :
      (o p : Option F) (s t : Text)
      → is_text o ≡ true
      → cmp_parsed values o p s t ≡ sign (text_less s t) (text_less t s)
  cmp_parsed-text none p s t h = refl
  cmp_parsed-text (some x) p s t h = absurd (ground (arith, h))

  module _ (order : FloatOrder values) where
    below_of-one_way : (o p : Option F) → below_of o p ≡ true → below_of p o ≡ false
    unfolding below_of
    below_of-one_way none p h = absurd (ground (arith, h))
    below_of-one_way (some x) none h = refl
    below_of-one_way (some x) (some y) h = order.one_way x y h

    below_of-step :
        (o p q : Option F)
        → is_number p ≡ true
        → below_of o p ≡ false
        → below_of p q ≡ false
        → below_of o q ≡ false
    unfolding below_of
    below_of-step none p q n h k = refl
    below_of-step (some x) none q n h k = absurd (ground (arith, n))
    below_of-step (some x) (some y) none n h k = refl
    below_of-step (some x) (some y) (some z) n h k = order.step x y z (ground (arith, n)) h k

    module _ (rows : List (List (Text × V))) (key : SortField) where
      read : List (Text × V) → Option F
      read row = values.parse_float (printed key row)

      goes_before-sign :
          (a b : List (Text × V))
          → goes_before values u key a b
            ≡ reads_sign key.desc
                (cmp_parsed values (read a) (read b) (printed key a) (printed key b))
      unfolding goes_before cmp_values read printed
      goes_before-sign a b = elim (Bool-cases key.desc) [
        | inl down ↦ rw down refl
        | inr up ↦ rw up refl
      ]

      numbers-IsWeakOn :
          ((row : List (Text × V)) → Mem row rows → is_number (read row) ≡ true)
          → IsWeakOn (goes_before values u key) rows
      numbers-IsWeakOn h =
          read_sign (λ a b. below_of (read a) (read b)) (goes_before values u key) rows
            (record {
              one_way = λ a b ha hb. below_of-one_way (read a) (read b);
              step = λ a b c ha hb hc. below_of-step (read a) (read b) (read c) (h b hb);
            })
            key.desc
            (λ a b ha hb.
              goes_before-sign a b
              ∙ ap (reads_sign key.desc) (
                  cmp_parsed-number (read a) (read b) (printed key a) (printed key b) (h a ha)
                    (h b hb)))

      texts-IsWeakOn :
          ((row : List (Text × V)) → Mem row rows → is_text (read row) ≡ true)
          → IsWeakOn (goes_before values u key) rows
      texts-IsWeakOn h =
          read_sign (λ a b. text_less (printed key a) (printed key b)) (goes_before values u key)
            rows
            (record {
              one_way = λ a b ha hb. text_less-one_way (printed key a) (printed key b);
              step =
                  λ a b c ha hb hc. text_less-step (printed key a) (printed key b) (printed key c);
            })
            key.desc
            (λ a b ha hb.
              goes_before-sign a b
              ∙ ap (reads_sign key.desc)
                  (cmp_parsed-text (read a) (read b) (printed key a) (printed key b) (h a ha)))

      none_out :
          (test : Option F → Bool)
          → any_row (λ row. not (test (read row))) rows ≡ false
          → (row : List (Text × V)) → Mem row rows
          → test (read row) ≡ true
      none_out test h row m = ground (arith, not_any (λ r. not (test (read r))) rows h row m)

      pub uniform-IsWeakOn : is_uniform rows key ≡ true → IsWeakOn (goes_before values u key) rows
      unfolding is_uniform read
      uniform-IsWeakOn h =
          elim (Bool-cases
            (any_row (λ row. not (is_number (values.parse_float (printed key row)))) rows)) [
              | inl other ↦ texts-IsWeakOn (none_out is_text (ground (arith, h, other)))
              | inr same ↦ numbers-IsWeakOn (none_out is_number same)
            ]
