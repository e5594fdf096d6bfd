-- ===== src/Spl/Executor/Query.antt =====
-- The statement that `RunQuery` of internal/spl/executor/executor.go sends to the database, or its
-- refusal. `Options` stands for the run's options, of which the planner takes the time range.
use quetzalog.Base.{
  ℕ, ℤ, pos, Bool, true, false, List, [], ◌∷◌, ◌++◌, Text, codes, if◌then◌else◌, Option,
}
use quetzalog.Spl.Unicode.{Unicode}
use quetzalog.Spl.Ast.{Node, bin, lookup}
use quetzalog.Spl.Ast.Validate.{unsupported_commands}
use quetzalog.Spl.Serializer.Text.{itoa}
use quetzalog.Spl.Planner.Where.{Sql}
use quetzalog.Spl.Planner.Clause.{Options, build_where, has_aggregation}
use quetzalog.Spl.Planner.Aggregate.{AggSql, build_aggregate}
use quetzalog.Spl.Executor.Rows.{clamp_limit, query_limit, head_n, count_of}
use quetzalog.Spl.Executor.Post.{build_row_order}

-- `RowSelectColumns`, joined.
abbrev pub row_columns : Text
row_columns =
    codes "id, timestamp, received_at, source, source_type, host, ip, service, "
    ++ (codes "application, severity, message, event_type, category, action, outcome, "
        ++ (codes "user, user_id, process, process_id, parent_pid, file_path, "
            ++ (codes "destination_ip, destination_port, source_ip, source_port, raw, raw_format, "
                ++ codes "trace_id, span_id, attributes")))

-- A part of a statement that may be empty, behind a space.
unfoldable pub optional : Text → Text
optional [] = []
optional (c ∷ s) = b' ' ∷ c ∷ s

unfoldable pub has_unexecuted : List Node → Bool
has_unexecuted [] = false
has_unexecuted (bin field span ∷ nodes) = true
has_unexecuted (lookup l ∷ nodes) = true
has_unexecuted (_ ∷ nodes) = has_unexecuted nodes

-- The command names of an error, or the SQL of the rows or of the aggregate, or an empty result.
pub data Statement (F T : Type 0) : Type 0 where
  unsupported_names : List Text → Statement F T
  unexecuted : Statement F T
  row_query : Sql F T → Statement F T
  aggregate_query : Sql F T → Statement F T
  no_query : Statement F T

abbrev pub row_limit : List Node → ℕ → Bool → ℕ
row_limit nodes limit in_sql =
    if in_sql then clamp_limit (pos (head_n nodes limit)) else clamp_limit (pos limit)

module _ {F T : Type 0} where
  -- The statement of `runRows`.
  unfoldable pub row_sql : Unicode → List Node → ℕ → ℕ → Sql F T → Sql F T
  unfolding optional build_row_order clamp_limit head_n itoa
  row_sql u nodes limit offset (clause, bound) =
      let (order, in_sql) = build_row_order u nodes in
      (
        codes "SELECT "
            ++ (row_columns
                ++ (codes " FROM events"
                    ++ (optional clause
                        ++ (codes " "
                            ++ (order
                                ++ (codes " LIMIT "
                                    ++ (itoa (pos (row_limit nodes limit in_sql))
                                        ++ (codes " OFFSET " ++ itoa (pos offset))))))))),
        bound,
      )

  -- The statement of `runAggregate`.
  unfoldable pub aggregate_sql : List Node → ℕ → AggSql → Sql F T → Sql F T
  unfolding optional clamp_limit head_n itoa
  aggregate_sql nodes limit agg (clause, bound) = (
    agg.select
        ++ (codes " FROM events"
            ++ (optional clause
                ++ (optional agg.group_by
                    ++ (optional agg.order_by
                        ++ (codes " LIMIT "
                            ++ itoa (pos (clamp_limit (pos (head_n nodes limit))))))))),
    bound,
  )

  abbrev pub aggregate_of : List Node → ℕ → AggSql → Sql F T → Statement F T
  aggregate_of nodes limit agg clause = elim agg.select [
    | [] ↦ no_query
    | c ∷ s ↦ aggregate_query (aggregate_sql nodes limit agg clause)
  ]

module _ {F T : Type 0} (u : Unicode) (parse_float : Text → Option F) (scaled : F → ℕ → ℤ) where
  unfoldable pub planned : List Node → Options T → Statement F T
  unfolding row_sql aggregate_sql query_limit count_of build_where build_aggregate
  planned nodes opts =
      let clause = build_where u parse_float nodes opts in
      let limit = query_limit opts.limit in
      if has_aggregation nodes
      then aggregate_of nodes limit (build_aggregate u parse_float scaled nodes) clause
      else row_query (row_sql u nodes limit (count_of opts.offset) clause)

  -- `RunQuery`, up to the call of the database.
  unfoldable pub run_query : List Node → Options T → Statement F T
  unfolding unsupported_commands has_unexecuted planned
  run_query nodes opts = elim (unsupported_commands nodes) [
    | name ∷ names ↦ unsupported_names (name ∷ names)
    | [] ↦ if has_unexecuted nodes then unexecuted else planned nodes opts
  ]
