-- ===== src/Spl/Executor/Sort/Ordered.antt =====
-- What `applySort` of internal/spl/executor/executor.go does to the rows.
use quetzalog.Base.{true, List, Text, ◌≡◌, sym, subst}
use mathlib.Core.List.{Mem}
use quetzalog.Spl.Unicode.{Unicode}
use quetzalog.Spl.Ast.{Node, SortField}
use quetzalog.Spl.Executor.Sort.{Printed, goes_before, apply_sort}
use quetzalog.Spl.Executor.Sort.Stable.{StableSort, IsStablySorted}
use quetzalog.Spl.Executor.Sort.Columns.{FloatOrder, is_uniform, uniform-IsWeakOn}
use quetzalog.Spl.Executor.Sort.Keys.{
  goes_before_by, sort_keys_of, sort_by_keys-IsStablySorted, apply_sorts-sort_by_keys,
}

-- Under the documented behaviour of sort.SliceStable and of the floats, and where every column that
-- the query sorts by has only numbers but NaN, or none, applySort rearranges the rows so that they
-- are in the order of all the keys at once, those of the last sort command first and each command's
-- in the order written, the first that tells two rows apart deciding, each ascending or descending
-- as asked; and rows that no key tells apart keep their order.
pub apply_sort-IsStablySorted :
    {V F : Type 0}
    → (values : Printed V F) (order : FloatOrder values) (u : Unicode)
      (s : StableSort (List (Text × V))) (q : List Node) (rows : List (List (Text × V)))
    → ((key : SortField) → Mem key (sort_keys_of q) → is_uniform values u rows key ≡ true)
    → IsStablySorted
        (goes_before_by (goes_before values u) (sort_keys_of q))
        (apply_sort values u s.slice_stable q rows)
        rows
unfolding apply_sort
apply_sort-IsStablySorted values order u s q rows h =
    let before = goes_before values u in
    subst (λ out. IsStablySorted (goes_before_by before (sort_keys_of q)) out rows)
      (sym (apply_sorts-sort_by_keys before s q rows))
      (sort_by_keys-IsStablySorted before s rows (sort_keys_of q)
        (λ key m. uniform-IsWeakOn values u order rows key (h key m)))
