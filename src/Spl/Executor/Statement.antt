-- ===== src/Spl/Executor/Statement.antt =====
-- The placeholders in the statement that `RunQuery` of internal/spl/executor/executor.go sends.
use quetzalog.Base.{
  ℕ, ℤ, pos, zero, suc, ◌+◌, ◌/◌, ◌%◌, ◌≡◌, refl, sym, ◌∙◌, ap, Bool, not, any_row, one_of, equal,
  true, false, List, [], ◌∷◌, ◌++◌, Text, codes, if◌then◌else◌, if_rule, Option, none, some, arith,
}
use quetzalog.Spl.Unicode.{Unicode}
use quetzalog.Spl.Ast.{Node, SortField, unsupported, bin, lookup, stats, timechart}
use quetzalog.Spl.Ast.Wire.{command_type}
use quetzalog.Spl.Ast.Validate.{
  unsupported_commands, unsupported_name, is_supported_command, no_text,
}
use quetzalog.Spl.Planner.Aggregate.{build_aggregate}
use quetzalog.Spl.Serializer.Text.{itoa, digits_onto}
use quetzalog.Spl.Planner.Fields.{
  Field, column, attribute, index, unknown, resolve_field, order_of, column_order_expr,
}
use quetzalog.Spl.Planner.Where.{Sql}
use quetzalog.Spl.Planner.Clause.{Options, build_where, has_aggregation}
use quetzalog.Spl.Planner.Marks.{
  marks, all_marks, marks-append, marks-join_texts, IsUnmarked, resolve_field-IsUnmarked,
}
use quetzalog.Spl.Planner.Balance.{IsBalanced, marks-cast_as}
use quetzalog.Spl.Planner.Bound.{build_where-IsBalanced}
use quetzalog.Spl.Executor.Post.{
  order_onto, order_of_parts, order_parts, first_sort, build_row_order,
}
use quetzalog.Spl.Executor.Rows.{count_of, query_limit}
use quetzalog.Spl.Executor.Query.{
  Statement, unsupported_names, unexecuted, row_query, aggregate_query, no_query, row_sql, planned,
  run_query, optional, has_unexecuted,
}

marks-digits_onto : (fuel n : ℕ) (s : Text) → marks (digits_onto fuel n s) ≡ marks s
unfolding digits_onto marks
marks-digits_onto zero n s = refl
marks-digits_onto (suc fuel) n s =
    ground (arith, marks-digits_onto fuel (n / 10) ((b'0' + n % 10) ∷ s))

marks-itoa : (n : ℕ) → marks (itoa (pos n)) ≡ 0
unfolding itoa marks
marks-itoa zero = refl
marks-itoa (suc n) = marks-digits_onto (suc n) (suc n) []

marks-optional : (s : Text) → marks (optional s) ≡ marks s
unfolding optional marks
marks-optional [] = refl
marks-optional (c ∷ s) = refl

-- An expression to order by without a placeholder.
unfoldable IsKey : Option Text → Type 0
IsKey none = Unit
IsKey (some s) = marks s ≡ 0

order_of-IsKey : (f : Field) → IsUnmarked f → IsKey (order_of f)
unfolding order_of IsKey IsUnmarked marks
order_of-IsKey (column c) h = h
order_of-IsKey (attribute key) h = marks-cast_as (codes "TEXT") key refl h
order_of-IsKey index h = marks-cast_as (codes "TEXT") (codes "index") refl refl
order_of-IsKey unknown h = tt

unfoldable AreKeys : Option (List Text) → Type 0
AreKeys none = Unit
AreKeys (some parts) = all_marks parts ≡ 0

order_onto-AreKeys :
    (f : SortField) (key : Option Text) (parts : Option (List Text))
    → IsKey key
    → AreKeys parts
    → AreKeys (order_onto f key parts)
unfolding IsKey AreKeys all_marks marks
order_onto-AreKeys f none parts h k = tt
order_onto-AreKeys f (some expr) none h k = tt
order_onto-AreKeys f (some expr) (some parts) h k =
    if_rule (λ t. marks (expr ++ t) + all_marks parts ≡ 0) f.desc (codes " DESC") (codes " ASC")
      (λ _. simp (marks-append, h, k) refl) (λ _. simp (marks-append, h, k) refl)

order_of_parts-unmarked : (o : Option (List Text)) → AreKeys o → marks (order_of_parts o).0 ≡ 0
unfolding AreKeys marks
order_of_parts-unmarked none h = refl
order_of_parts-unmarked (some []) h = refl
order_of_parts-unmarked (some (p ∷ ps)) h =
    simp (marks-join_texts (codes ", ") (p ∷ ps) refl, h) refl

order_parts-AreKeys : (u : Unicode) (fs : List SortField) → AreKeys (order_parts u fs)
unfolding order_parts AreKeys all_marks column_order_expr
order_parts-AreKeys u [] = refl
order_parts-AreKeys u (f ∷ fs) =
    order_onto-AreKeys f (column_order_expr u f.field) (order_parts u fs)
      (order_of-IsKey (resolve_field u f.field) (resolve_field-IsUnmarked u f.field))
      (order_parts-AreKeys u fs)

build_row_order-unmarked : (u : Unicode) (nodes : List Node) → marks (build_row_order u nodes).0 ≡ 0
unfolding build_row_order marks
build_row_order-unmarked u nodes =
    order_of_parts-unmarked (order_parts u (first_sort nodes))
      (order_parts-AreKeys u (first_sort nodes))

module _ {F : Type 0} (T : Type 0) where
  row_sql-IsBalanced :
      (u : Unicode) (nodes : List Node) (limit offset : ℕ) (clause : Sql F T)
      → IsBalanced clause
      → IsBalanced (row_sql u nodes limit offset clause)
  unfolding row_sql IsBalanced marks
  row_sql-IsBalanced u nodes limit offset clause h =
      simp (marks-append, marks-optional, h, build_row_order-unmarked u nodes, marks-itoa)
        (omega arith)

abbrev pub is_unknown : Node → Bool
is_unknown (unsupported name raw) = true
is_unknown _ = false

abbrev pub is_left_out : Node → Bool
is_left_out (bin field span) = true
is_left_out (lookup l) = true
is_left_out _ = false

abbrev pub is_grouping : Node → Bool
is_grouping (stats aggs group_by) = true
is_grouping (timechart agg span group_by) = true
is_grouping _ = false

-- A query without a command that is refused.
unfoldable IsRun : List Node → Type 0
unfolding any_row
IsRun nodes = (any_row is_unknown nodes ≡ false) × (any_row is_left_out nodes ≡ false)

-- When a query is refused and when it is sent, and that the statement for rows has as many
-- placeholders as arguments.
unfoldable pub IsSettled : {F T : Type 0} → List Node → Statement F T → Type 0
unfolding IsRun IsBalanced any_row
IsSettled nodes (unsupported_names names) = any_row is_unknown nodes ≡ true
IsSettled nodes unexecuted = (any_row is_unknown nodes ≡ false) × (any_row is_left_out nodes ≡ true)
IsSettled nodes (row_query sql) = IsRun nodes × (any_row is_grouping nodes ≡ false) × IsBalanced sql
IsSettled nodes (aggregate_query sql) = IsRun nodes × (any_row is_grouping nodes ≡ true)
IsSettled nodes no_query = IsRun nodes × (any_row is_grouping nodes ≡ true)

has_unexecuted-any_row : (nodes : List Node) → has_unexecuted nodes ≡ any_row is_left_out nodes
unfolding has_unexecuted any_row
has_unexecuted-any_row [] = refl
has_unexecuted-any_row (bin field span ∷ nodes) = refl
has_unexecuted-any_row (lookup l ∷ nodes) = refl
has_unexecuted-any_row (_ ∷ nodes) = has_unexecuted-any_row nodes

has_aggregation-any_row : (nodes : List Node) → has_aggregation nodes ≡ any_row is_grouping nodes
unfolding has_aggregation any_row
has_aggregation-any_row [] = refl
has_aggregation-any_row (stats aggs group_by ∷ nodes) = refl
has_aggregation-any_row (timechart agg span group_by ∷ nodes) = refl
has_aggregation-any_row (_ ∷ nodes) = has_aggregation-any_row nodes

no_text-any_row :
    (nodes : List Node) → no_text (unsupported_commands nodes) ≡ not (any_row is_unknown nodes)
unfolding unsupported_commands unsupported_name is_supported_command command_type one_of equal
    any_row
no_text-any_row [] = refl
no_text-any_row (unsupported name raw ∷ nodes) = refl
no_text-any_row (_ ∷ nodes) = no_text-any_row nodes

aggregate_text-IsSettled :
    {F T : Type 0} (nodes : List Node) (text : Text) (sql : Sql F T)
    → IsRun nodes
    → any_row is_grouping nodes ≡ true
    → IsSettled {F = F} {T = T} nodes (elim text [ [] ↦ no_query | c ∷ s ↦ aggregate_query sql ])
unfolding IsSettled
aggregate_text-IsSettled nodes [] sql h k = (h, k)
aggregate_text-IsSettled nodes (c ∷ s) sql h k = (h, k)

module _ {F : Type 0} (T : Type 0) (u : Unicode) (parse_float : Text → Option F)
    (scaled : F → ℕ → ℤ) where
  planned-IsSettled :
      (nodes : List Node) (opts : Options T)
      → IsRun nodes
      → IsSettled nodes (planned u parse_float scaled nodes opts)
  unfolding planned IsSettled
  planned-IsSettled nodes opts h =
      if_rule (IsSettled {F = F} {T = T} nodes) (has_aggregation nodes) _ _
        (λ e.
          aggregate_text-IsSettled nodes (build_aggregate u parse_float scaled nodes).select _ h
            (sym (has_aggregation-any_row nodes) ∙ e))
        (λ e. (
          h,
          sym (has_aggregation-any_row nodes) ∙ e,
          row_sql-IsBalanced T u nodes (query_limit opts.limit) (count_of opts.offset)
              (build_where u parse_float nodes opts)
              (build_where-IsBalanced T u parse_float nodes opts),
        ))

  named-IsSettled :
      (nodes : List Node) (opts : Options T) (names : List Text)
      → unsupported_commands nodes ≡ names
      → IsSettled nodes (elim names [
        | name ∷ more ↦ unsupported_names (name ∷ more)
        | [] ↦ if has_unexecuted nodes then unexecuted else planned u parse_float scaled nodes opts
      ])
  unfolding IsSettled IsRun
  named-IsSettled nodes opts [] e =
      let known : any_row is_unknown nodes ≡ false =
        ground (arith, no_text-any_row nodes, ap no_text e) in
      if_rule (IsSettled {F = F} {T = T} nodes) (has_unexecuted nodes) _ _
        (λ h. (known, sym (has_unexecuted-any_row nodes) ∙ h))
        (λ k. planned-IsSettled nodes opts (known, sym (has_unexecuted-any_row nodes) ∙ k))
  named-IsSettled nodes opts (name ∷ more) e = ground (arith, no_text-any_row nodes, ap no_text e)

  -- `RunQuery` refuses a query for its commands exactly when one of them is unsupported, or else
  -- one is `bin` or `lookup`; it sends a statement for an aggregate or none exactly when the query has
  -- a `stats` or a `timechart`, and otherwise one for rows with exactly as many placeholders as
  -- arguments.
  pub run_query-IsSettled :
      (nodes : List Node) (opts : Options T)
      → IsSettled nodes (run_query u parse_float scaled nodes opts)
  unfolding run_query
  run_query-IsSettled nodes opts = named-IsSettled nodes opts (unsupported_commands nodes) refl
