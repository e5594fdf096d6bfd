-- ===== src/Spl/Planner/Aggregate.antt =====
-- `BuildAggregate` of internal/spl/planner/planner.go. `strconv.ParseFloat` and the product
-- `int64(f * mult)` are parameters.
use quetzalog.Base.{
  ℕ, ℤ, Bool, true, false, ◌&&◌, ◌||◌, List, [], ◌∷◌, ◌++◌, map, Text, codes, equal, ◌==◌,
  if◌then◌else◌, Option, none, some,
}
use quetzalog.Spl.Unicode.{Unicode, trim, to_lower, ascii_letter, ascii_digit}
use quetzalog.Spl.Ast.{Aggregation, SortField, Node, stats, timechart, sort}
use quetzalog.Spl.Serializer.Text.{join_texts, itoa}
use quetzalog.Spl.Planner.Fields.{Field, column, attribute, index, unknown, resolve_field, cast_as}

unfoldable pub strip_minus : Text → Text
strip_minus [] = []
strip_minus (c ∷ s) = let more = strip_minus s in if c == b'-' || c == b'+' then more else c ∷ s

unfoldable pub drop_quotes : Text → Text
drop_quotes [] = []
drop_quotes (c ∷ s) = let more = drop_quotes s in if c == b'"' then more else c ∷ more

unfoldable pub quote_ident : Text → Text
unfolding drop_quotes strip_minus
quote_ident s = b'"' ∷ (drop_quotes (strip_minus s) ++ (b'"' ∷ []))

-- The loop of `sanitizeIdent`.
unfoldable pub ident_runes : Text → Text
ident_runes [] = []
ident_runes (c ∷ s) =
    let more = ident_runes s in
    if ascii_letter c || ascii_digit c || c == b'_' then c ∷ more else more

unfoldable pub sanitize_ident : Text → Text
unfolding ident_runes
sanitize_ident s = elim (ident_runes s) [ [] ↦ codes "field" | c ∷ r ↦ c ∷ r ]

-- `aggColumnSQL` and `groupExpr`, on the field resolved.
unfoldable pub agg_column : Field → Text
unfolding cast_as
agg_column (column c) = c
agg_column (attribute key) = cast_as (codes "REAL") key
agg_column index = cast_as (codes "REAL") (codes "index")
agg_column unknown = codes "NULL"

unfoldable pub group_column : Field → Text
unfolding cast_as
group_column (column c) = c
group_column (attribute key) = cast_as (codes "TEXT") key
group_column index = cast_as (codes "TEXT") (codes "index")
group_column unknown = codes "NULL"

abbrev is_any : Text → Bool
is_any field = equal field [] || equal field (codes "*")

unfoldable pub agg_call : Text → Text → Text
agg_call fn col =
    if equal fn (codes "dc")
    then codes "COUNT(DISTINCT " ++ (col ++ codes ")")
    else if equal fn (codes "values")
    then codes "json_group_array(DISTINCT " ++ (col ++ codes ")")
    else if equal fn (codes "list")
    then codes "json_group_array(" ++ (col ++ codes ")")
    else if equal fn (codes "count")
    then codes "COUNT(*)"
    else fn ++ (codes "(" ++ (col ++ codes ")"))

unfoldable pub agg_alias : Text → Aggregation → Text
unfolding sanitize_ident
agg_alias fn a =
    if equal a.alias []
    then (if equal fn (codes "count") && is_any a.field
        then codes "count"
        else if is_any a.field
        then fn
        else fn ++ (codes "_" ++ sanitize_ident a.field))
    else a.alias

-- The digits and points in front, and the rune behind them, which is 0 when there is none.
unfoldable pub split_span : Text → Text × ℕ
split_span [] = ([], 0)
split_span (c ∷ s) =
    let (num, unit) = split_span s in
    if ascii_digit c || c == b'.' then (c ∷ num, unit) else ([], c)

unfoldable pub unit_seconds : ℕ → ℕ
unit_seconds unit =
    if unit == b's'
    then 1
    else if unit == b'm'
    then 60
    else if unit == b'h'
    then 3600
    else if unit == b'd'
    then 86400
    else if unit == b'w'
    then 604800
    else 60

module _ {F : Type 0} (u : Unicode) (parse_float : Text → Option F) (scaled : F → ℕ → ℤ) where
  unfoldable pub span_seconds : Text → Text
  unfolding split_span unit_seconds
  span_seconds span =
      let s = to_lower u (trim span) in
      if equal s [] then codes "60" else elim (parse_float (split_span s).0) [
        | none ↦ codes "60"
        | some f ↦ itoa (scaled f (unit_seconds (split_span s).1))
      ]

  abbrev column_expr : Text → Text
  column_expr field = if is_any field then codes "*" else agg_column (resolve_field u field)

  -- `aggExpr`.
  unfoldable pub agg_expr : Aggregation → Text × Text
  unfolding agg_call agg_alias
  agg_expr a = let fn = to_lower u a.function in (agg_call fn (column_expr a.field), agg_alias fn a)

-- The variables of `BuildAggregate`.
pub record Built : Type 0 where
  pub sel : List Text
  pub group_by : List Text
  pub columns : List Text
  pub is_time : Bool
  pub order_by : Text

-- `AggSQL`.
pub record AggSql : Type 0 where
  pub select : Text
  pub group_by : Text
  pub order_by : Text
  pub columns : List Text
  pub is_time : Bool

abbrev pub as_name : Text → Text → Text
as_name expr name = expr ++ (codes " AS " ++ quote_ident name)

unfoldable pub order_part : SortField → Text
unfolding quote_ident
order_part f = quote_ident (strip_minus f.field) ++ (if f.desc then codes " DESC" else codes " ASC")

abbrev order_clause : List SortField → Text → Text
order_clause [] before = before
order_clause (f ∷ fs) before =
    codes "ORDER BY " ++ join_texts (codes ", ") (map order_part (f ∷ fs))

unfoldable pub bucket : Text → Text
bucket seconds = codes "CAST(strftime('%s', timestamp) AS INTEGER) / " ++ seconds

unfoldable pub time_column : Text → Text
unfolding bucket
time_column seconds =
    codes "datetime("
    ++ (bucket seconds ++ (codes " * " ++ (seconds ++ codes ", 'unixepoch') AS _time")))

module _ {F : Type 0} (u : Unicode) (parse_float : Text → Option F) (scaled : F → ℕ → ℤ) where
  -- One round of the loop over `Aggs`.
  unfoldable pub add_agg : Aggregation → Built → Built
  unfolding agg_expr quote_ident
  add_agg a b =
      let (expr, alias) = agg_expr u parse_float scaled a in
      record {
        sel = b.sel ++ (as_name expr alias ∷ []);
        group_by = b.group_by;
        columns = b.columns ++ (alias ∷ []);
        is_time = b.is_time;
        order_by = b.order_by;
      }

  -- One round of the loop over `GroupBy`.
  unfoldable pub add_group : Text → Built → Built
  unfolding quote_ident
  add_group g b =
      let expr = group_column (resolve_field u g) in
      record {
        sel = b.sel ++ (as_name expr g ∷ []);
        group_by = b.group_by ++ (expr ∷ []);
        columns = b.columns ++ (g ∷ []);
        is_time = b.is_time;
        order_by = b.order_by;
      }

  unfoldable pub add_aggs : List Aggregation → Built → Built
  add_aggs [] b = b
  add_aggs (a ∷ rest) b = add_aggs rest (add_agg a b)

  unfoldable pub add_groups : List Text → Built → Built
  add_groups [] b = b
  add_groups (g ∷ gs) b = add_groups gs (add_group g b)

  unfoldable pub add_bucket : Text → Built → Built
  unfolding time_column bucket
  add_bucket seconds b = record {
    sel = b.sel ++ (time_column seconds ∷ []);
    group_by = b.group_by ++ (bucket seconds ∷ []);
    columns = b.columns ++ (codes "_time" ∷ []);
    is_time = true;
    order_by = b.order_by;
  }

  -- One round of the loop over the commands. The bucket is grouped by before the columns that the
  -- aggregate adds, which no grouping holds.
  unfoldable pub add_command : Node → Built → Built
  unfolding add_aggs add_groups add_bucket span_seconds order_part
  add_command (stats aggs group_by) b = add_groups group_by (add_aggs aggs b)
  add_command (timechart agg span group_by) b =
      add_groups group_by (add_agg agg (add_bucket (span_seconds u parse_float scaled span) b))
  add_command (sort fs) b = record {
    sel = b.sel;
    group_by = b.group_by;
    columns = b.columns;
    is_time = b.is_time;
    order_by = order_clause fs b.order_by;
  }
  add_command _ b = b

  unfoldable pub add_commands : List Node → Built → Built
  unfolding add_command
  add_commands [] b = b
  add_commands (node ∷ nodes) b = add_commands nodes (add_command node b)

-- The end of `BuildAggregate`.
unfoldable pub assemble : Built → AggSql
assemble b = elim b.sel [
  | [] ↦ record { select = []; group_by = []; order_by = []; columns = []; is_time = false }
  | s ∷ ss ↦ record {
    select = codes "SELECT " ++ join_texts (codes ", ") (s ∷ ss);
    group_by = elim b.group_by [
      | [] ↦ []
      | g ∷ gs ↦ codes "GROUP BY " ++ join_texts (codes ", ") (g ∷ gs)
    ];
    order_by = b.order_by;
    columns = b.columns;
    is_time = b.is_time;
  }
]

abbrev pub nothing_built : Built
nothing_built = record { sel = []; group_by = []; columns = []; is_time = false; order_by = [] }

module _ {F : Type 0} (u : Unicode) (parse_float : Text → Option F) (scaled : F → ℕ → ℤ) where
  unfoldable pub build_aggregate : List Node → AggSql
  unfolding add_commands assemble
  build_aggregate nodes = assemble (add_commands u parse_float scaled nodes nothing_built)
