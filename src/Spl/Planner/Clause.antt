-- ===== src/Spl/Planner/Clause.antt =====
-- `BuildWhere` of internal/spl/planner/planner.go: the clauses of the search, of the `where` commands
-- and of the time range. The fields of a search come in the order in which Go walks its map.
use quetzalog.Base.{
  ℤ, Bool, true, false, ◌||◌, List, [], ◌∷◌, ◌++◌, Text, codes, equal, if◌then◌else◌, Option, none,
  some,
}
use quetzalog.Spl.Unicode.{Unicode, trim}
use quetzalog.Spl.Ast.{Expr, where_expr, Node, search, where_of, stats, timechart}
use quetzalog.Spl.Serializer.Text.{join_texts}
use quetzalog.Spl.Planner.Where.{Arg, time_arg, Sql, text_predicate, column_sql, expr_to_sql}

-- A zero time is none.
pub record Options (T : Type 0) : Type 0 where
  pub earliest : Option T
  pub latest : Option T
  pub limit : ℤ
  pub offset : ℤ

-- `HasAggregation`.
unfoldable pub has_aggregation : List Node → Bool
has_aggregation [] = false
has_aggregation (stats aggs group_by ∷ nodes) = true
has_aggregation (timechart agg span group_by ∷ nodes) = true
has_aggregation (_ ∷ nodes) = has_aggregation nodes

-- The clauses so far, with the arguments bound so far.
abbrev pub Clauses : Type 0 → Type 0 → Type 0
Clauses F T = List Text × List (Arg F T)

-- `add`, which leaves out what every event passes.
unfoldable pub kept_clause : Text → List Text
kept_clause sql = if equal sql [] || equal sql (codes "1=1") then [] else sql ∷ []

module _ {F T : Type 0} where
  unfoldable pub add_clause : Sql F T → Clauses F T → Clauses F T
  unfolding kept_clause
  add_clause (sql, bound) (clauses, more) = (kept_clause sql ++ clauses, bound ++ more)

  -- A bound of the time range, `add` and the append to `args`.
  unfoldable pub time_clause : Text → Option T → Clauses F T → Clauses F T
  unfolding add_clause
  time_clause sql none rest = rest
  time_clause sql (some t) rest = add_clause (sql, time_arg t ∷ []) rest

  unfoldable pub where_text : Clauses F T → Sql F T
  where_text ([], bound) = ([], bound)
  where_text (c ∷ cs, bound) = (codes "WHERE " ++ join_texts (codes " AND ") (c ∷ cs), bound)

  abbrev pub grouped : List Text × List (Arg F T) → Sql F T
  grouped ([], bound) = ([], bound)
  grouped (p ∷ ps, bound) = (codes "(" ++ (join_texts (codes " AND ") (p ∷ ps) ++ codes ")"), bound)

module _ {F T : Type 0} (u : Unicode) (parse_float : Text → Option F) where
  -- The loop of `exprFromSearchFields` over the fields.
  unfoldable pub field_parts : List (Text × Text) → List Text × List (Arg F T)
  field_parts [] = ([], [])
  field_parts ((k, v) ∷ m) =
      let (part, bound) = column_sql u parse_float k (codes "=") v in
      let (parts, more) = field_parts m in (part ∷ parts, bound ++ more)

  unfoldable pub text_parts : Text → List Text × List (Arg F T)
  text_parts words =
      let (part, bound) = text_predicate parse_float words in
      if equal (trim words) [] then ([], []) else (part ∷ [], bound)

  unfoldable pub expr_from_search_fields : List (Text × Text) → Text → Sql F T
  unfolding field_parts text_parts
  expr_from_search_fields fields words =
      let (parts, bound) = field_parts fields in
      let (last, more) = text_parts words in grouped (parts ++ last, bound ++ more)

  unfoldable pub search_sql : List (Text × Text) → Text → Option Expr → Sql F T
  unfolding expr_from_search_fields
  search_sql fields words (some e) = expr_to_sql u parse_float e
  search_sql fields words none = expr_from_search_fields fields words

  -- `ExprToSQL`, where the expression may be nil.
  unfoldable pub option_sql : Option Expr → Sql F T
  option_sql none = (codes "1=1", [])
  option_sql (some e) = expr_to_sql u parse_float e

  -- The loop over the `where` commands.
  unfoldable pub where_clauses : Bool → List Node → Clauses F T → Clauses F T
  unfolding add_clause option_sql where_expr
  where_clauses aggregated [] rest = rest
  where_clauses aggregated (where_of conditions e ∷ nodes) rest =
      let more = where_clauses aggregated nodes rest in
      if aggregated then more else add_clause (option_sql (where_expr conditions e)) more
  where_clauses aggregated (_ ∷ nodes) rest = where_clauses aggregated nodes rest

  -- The search is the first command, when that is one.
  unfoldable pub search_clause : List Node → Clauses F T → Clauses F T
  unfolding add_clause search_sql
  search_clause (search fields words e ∷ nodes) rest = add_clause (search_sql fields words e) rest
  search_clause _ rest = rest

  unfoldable pub build_where : List Node → Options T → Sql F T
  unfolding search_clause where_clauses time_clause where_text has_aggregation
  build_where nodes opts = where_text (
      search_clause nodes (
        where_clauses (has_aggregation nodes) nodes (
          time_clause (codes "timestamp >= ?") opts.earliest
            (time_clause (codes "timestamp <= ?") opts.latest ([], [])))))

-- `BuildRowCount`.
unfoldable pub build_row_count : Text → Text
build_row_count [] = codes "SELECT COUNT(*) FROM events"
build_row_count (c ∷ s) = codes "SELECT COUNT(*) FROM events " ++ (c ∷ s)
