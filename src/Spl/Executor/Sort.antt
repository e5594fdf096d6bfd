-- ===== src/Spl/Executor/Sort.antt =====
-- `applySort`, `sortRows` and `cmpValues` of internal/spl/executor/executor.go. `sort.SliceStable`
-- is a parameter, a function of the comparison and the rows; so are Go's floats: what
-- `strconv.ParseFloat` makes of a text, none where it returns an error, and `<`.
pub mod Stable
pub mod Classes
pub mod Keys
pub mod Columns
pub mod Ordered
use quetzalog.Base.{
  ℤ, pos, negsuc, Bool, true, false, List, [], ◌∷◌, ◌++◌, Text, Option, none, some, if◌then◌else◌,
  ◌==◌, not,
}
use quetzalog.Spl.Unicode.{Unicode}
use quetzalog.Spl.Ast.{Node, sort, SortField}
use quetzalog.Spl.Serializer.Text.{text_less}
use quetzalog.Spl.Executor.Rows.{value_for}

-- What `cmpValues` needs of Go's values: `nil`, `fmt.Sprintf("%v", v)`, and the floats.
pub record Printed (V F : Type 0) : Type 0 where
  pub nil_value : V
  pub print : V → Text
  pub parse_float : Text → Option F
  pub below : F → F → Bool
  pub is_nan : F → Bool

-- -1, 0 or 1, from whether the first is below the second and the second below the first.
abbrev pub sign : Bool → Bool → ℤ
sign true _ = negsuc 0
sign false true = pos 1
sign false false = pos 0

-- `c < 0` and `c > 0`.
abbrev pub is_below_zero : ℤ → Bool
is_below_zero (pos n) = false
is_below_zero (negsuc n) = true

abbrev pub is_above_zero : ℤ → Bool
is_above_zero (pos n) = not (n == 0)
is_above_zero (negsuc n) = false

module _ {V F : Type 0} (values : Printed V F) where
  -- The two branches of `cmpValues`, on what the two texts parse to.
  abbrev pub cmp_parsed : Option F → Option F → Text → Text → ℤ
  cmp_parsed (some x) (some y) s t = sign (values.below x y) (values.below y x)
  cmp_parsed (some x) none s t = sign (text_less s t) (text_less t s)
  cmp_parsed none _ s t = sign (text_less s t) (text_less t s)

  unfoldable pub cmp_values : V → V → ℤ
  cmp_values a b =
      let s = values.print a in
      let t = values.print b in cmp_parsed (values.parse_float s) (values.parse_float t) s t

  -- The comparison that `sortRows` hands to `sort.SliceStable`.
  unfoldable pub goes_before : Unicode → SortField → List (Text × V) → List (Text × V) → Bool
  unfolding cmp_values
  goes_before u key a b =
      let c =
        cmp_values (value_for u values.nil_value a key.field)
          (value_for u values.nil_value b key.field) in
      if key.desc then is_above_zero c else is_below_zero c

module _ {A : Type 0} (before : SortField → A → A → Bool) where
  module _ (slice_stable : (A → A → Bool) → List A → List A) where
    -- One sort command: its last key first.
    unfoldable pub sort_by_keys : List SortField → List A → List A
    sort_by_keys [] rows = rows
    sort_by_keys (key ∷ keys) rows = slice_stable (before key) (sort_by_keys keys rows)

    -- `applySort`, over the comparison of a key.
    unfoldable pub apply_sorts : List Node → List A → List A
    unfolding sort_by_keys
    apply_sorts [] rows = rows
    apply_sorts (sort keys ∷ q) rows = apply_sorts q (sort_by_keys keys rows)
    apply_sorts (_ ∷ q) rows = apply_sorts q rows

-- `applySort`.
module _ {V F : Type 0} (values : Printed V F) (u : Unicode) where
  unfoldable pub apply_sort :
      ((List (Text × V) → List (Text × V) → Bool) → List (List (Text × V)) → List (List (Text × V)))
      → List Node
      → List (List (Text × V))
      → List (List (Text × V))
  unfolding apply_sorts goes_before
  apply_sort slice_stable q rows = apply_sorts (goes_before values u) slice_stable q rows
