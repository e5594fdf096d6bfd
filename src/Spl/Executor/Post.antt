-- ===== src/Spl/Executor/Post.antt =====
-- The commands of internal/spl/executor/executor.go that filter aggregated rows in memory, and those
-- that order and rename columns. Go's floats are a parameter: what `strconv.ParseFloat` returns,
-- whatever its error, and the comparisons. So is what `fmt.Sprintf("%v", v)` prints of a value, and
-- whether a value is nil or the empty text.
use quetzalog.Base.{
  Bool, true, false, ◌&&◌, ◌||◌, not, List, [], ◌∷◌, ◌++◌, Text, codes, equal, if◌then◌else◌,
  Option, none, some,
}
use quetzalog.Spl.Unicode.{Unicode}
use quetzalog.Spl.Ast.{
  Expr, Exprs, and_of, or_of, not_of, cmp, is_null, nil, cons, SortField, Node, sort,
}
use quetzalog.Spl.Serializer.Text.{join_texts}
use quetzalog.Spl.Planner.Fields.{column_order_expr}
use quetzalog.Spl.Executor.Rows.{find}

pub record Values (V F : Type 0) : Type 0 where
  pub nil_value : V
  pub print : V → Text
  pub is_blank : V → Bool
  pub number : Text → F
  pub less : F → F → Bool
  pub at_most : F → F → Bool

module _ {V F : Type 0} (values : Values V F) where
  -- `matchOp`.
  unfoldable pub match_op : Text → Text → Text → Bool
  match_op op got want =
      if equal op (codes "=") || equal op (codes "==")
      then equal got want
      else if equal op (codes "!=")
      then not (equal got want)
      else if equal op (codes "<")
      then values.less (values.number got) (values.number want)
      else if equal op (codes "<=")
      then values.at_most (values.number got) (values.number want)
      else if equal op (codes ">")
      then values.less (values.number want) (values.number got)
      else if equal op (codes ">=")
      then values.at_most (values.number want) (values.number got)
      else true

  abbrev value_in : Option V → V
  value_in none = values.nil_value
  value_in (some v) = v

  abbrev is_null_in : Option V → Bool
  is_null_in none = true
  is_null_in (some v) = values.is_blank v

  -- `evalExprBool`, and its loops over the arguments.
  unfoldable mutual
    unfolding match_op

    pub eval_expr_bool : List (Text × V) → Expr → Bool
    eval_expr_bool row (and_of es) = eval_all row es
    eval_expr_bool row (or_of es) = eval_any row es
    eval_expr_bool row (not_of e) = not (eval_expr_bool row e)
    eval_expr_bool row (cmp field op value) =
        match_op op (values.print (value_in (find row field))) value
    eval_expr_bool row (is_null field negate) =
        if negate then not (is_null_in (find row field)) else is_null_in (find row field)
    eval_expr_bool row _ = true

    pub eval_all : List (Text × V) → Exprs → Bool
    eval_all row nil = true
    eval_all row (cons e es) = eval_expr_bool row e && eval_all row es

    pub eval_any : List (Text × V) → Exprs → Bool
    eval_any row nil = false
    eval_any row (cons e es) = eval_expr_bool row e || eval_any row es

  -- The loop of `applyWherePost`.
  unfoldable pub keep_rows : Expr → List (List (Text × V)) → List (List (Text × V))
  unfolding eval_expr_bool
  keep_rows e [] = []
  keep_rows e (row ∷ rows) =
      let more = keep_rows e rows in if eval_expr_bool row e then row ∷ more else more

  unfoldable pub apply_where_post : Option Expr → List (List (Text × V)) → List (List (Text × V))
  unfolding keep_rows
  apply_where_post none rows = rows
  apply_where_post (some e) rows = keep_rows e rows

-- The first sort command of a query.
unfoldable pub first_sort : List Node → List SortField
first_sort [] = []
first_sort (sort fs ∷ nodes) = fs
first_sort (_ ∷ nodes) = first_sort nodes

-- One round of the loop of `buildRowOrder`, none when a key cannot be ordered by in the database.
abbrev pub order_onto : SortField → Option Text → Option (List Text) → Option (List Text)
order_onto f none parts = none
order_onto f (some expr) none = none
order_onto f (some expr) (some parts) =
    some ((expr ++ (if f.desc then codes " DESC" else codes " ASC")) ∷ parts)

unfoldable pub order_parts : Unicode → List SortField → Option (List Text)
order_parts u [] = some []
order_parts u (f ∷ fs) = order_onto f (column_order_expr u f.field) (order_parts u fs)

abbrev pub by_time : Text
by_time = codes "ORDER BY timestamp DESC"

abbrev pub order_of_parts : Option (List Text) → Text × Bool
order_of_parts none = (by_time, false)
order_of_parts (some []) = (by_time, true)
order_of_parts (some (p ∷ ps)) = (codes "ORDER BY " ++ join_texts (codes ", ") (p ∷ ps), true)

unfoldable pub build_row_order : Unicode → List Node → Text × Bool
unfolding order_parts first_sort
build_row_order u nodes = order_of_parts (order_parts u (first_sort nodes))
