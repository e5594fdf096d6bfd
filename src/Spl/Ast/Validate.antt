-- ===== src/Spl/Ast/Validate.antt =====
-- What internal/spl/ast/command.go asks of a query before it runs: `Validate`, the commands that
-- the builder knows, and the search in front. A component and a message make a problem.
use quetzalog.Base.{
  ℤ, pos, negsuc, Bool, true, false, ◌&&◌, not, List, [], ◌∷◌, ◌++◌, Text, codes, equal, one_of,
  if◌then◌else◌, none,
}
use quetzalog.Spl.Unicode.{Unicode, to_lower, trim}
use quetzalog.Spl.Ast.{
  Aggregation, Node, search, where_of, eval, fields, table, rename, stats, timechart, sort, head,
  tail, dedup, rex, bin, eventstats, streamstats, unsupported, eval_assignments,
}
use quetzalog.Spl.Ast.Wire.{command_type}

-- `SupportedCommands` and `supportedAggs`.
abbrev pub supported_commands : List Text
supported_commands =
    codes "search"
    ∷ codes "where"
    ∷ codes "eval"
    ∷ codes "fields"
    ∷ codes "table"
    ∷ codes "rename"
    ∷ codes "stats"
    ∷ codes "timechart"
    ∷ codes "sort"
    ∷ codes "head"
    ∷ codes "tail"
    ∷ codes "dedup"
    ∷ codes "rex"
    ∷ codes "bin"
    ∷ codes "lookup"
    ∷ codes "eventstats"
    ∷ codes "streamstats"
    ∷ []

abbrev pub supported_aggs : List Text
supported_aggs =
    codes "count"
    ∷ codes "sum"
    ∷ codes "avg"
    ∷ codes "min"
    ∷ codes "max"
    ∷ codes "dc"
    ∷ codes "distinct_count"
    ∷ codes "values"
    ∷ codes "list"
    ∷ []

unfoldable pub is_supported_command : Text → Bool
is_supported_command name = one_of supported_commands name

-- One round of `UnsupportedCommands`.
unfoldable pub unsupported_name : Node → List Text
unfolding command_type is_supported_command
unsupported_name (unsupported name raw) = (if equal name [] then codes "unsupported" else name) ∷ []
unsupported_name node =
    if is_supported_command (command_type node) then [] else command_type node ∷ []

unfoldable pub unsupported_commands : List Node → List Text
unfolding unsupported_name
unsupported_commands [] = []
unsupported_commands (node ∷ nodes) = unsupported_name node ++ unsupported_commands nodes

abbrev pub no_text : List Text → Bool
no_text [] = true
no_text (t ∷ ts) = false

-- `Supported`.
unfoldable pub supported : List Node → Bool
unfolding unsupported_commands
supported nodes = no_text (unsupported_commands nodes)

-- `ValidationError`.
pub record Problem : Type 0 where
  pub component : Text
  pub message : Text

abbrev pub problem : Text → Text → Problem
problem component message = record { component = component; message = message }

-- `add`, under a condition.
abbrev pub add_if : Bool → Text → Text → List Problem
add_if b component message = if b then problem component message ∷ [] else []

abbrev pub is_blank : Text → Bool
is_blank t = equal (trim t) []

-- `aggsOf`. The aggregate of a `timechart` is none when its function is blank.
unfoldable pub aggs_of : Node → List Aggregation
aggs_of (stats aggs groups) = aggs
aggs_of (eventstats aggs groups) = aggs
aggs_of (streamstats aggs groups window) = aggs
aggs_of (timechart a span groups) = if is_blank a.function then [] else a ∷ []
aggs_of _ = []

module _ (u : Unicode) where
  unfoldable pub validate_agg : Text → Aggregation → List Problem
  validate_agg component a =
      let fn = to_lower u (trim a.function) in
      if equal fn []
      then problem component (codes "an aggregation is missing a function") ∷ []
      else if not (one_of supported_aggs fn)
      then problem component (codes "unsupported aggregation function: " ++ a.function) ∷ []
      else add_if (is_blank a.field && not (equal fn (codes "count"))) component
          (fn ++ codes "() needs a field")

  unfoldable pub validate_aggs : Text → List Aggregation → List Problem
  unfolding validate_agg
  validate_aggs component [] = []
  validate_aggs component (a ∷ more) = validate_agg component a ++ validate_aggs component more

  -- The cases of the statistics commands.
  abbrev pub some_aggs : Text → List Aggregation → List Problem
  some_aggs component [] =
      problem component (component ++ codes " needs at least one aggregation") ∷ []
  some_aggs component (a ∷ more) = validate_aggs component (a ∷ more)

  abbrev pub timechart_aggs : List Aggregation → List Problem
  timechart_aggs [] =
      problem (codes "timechart") (codes "timechart needs an aggregation (e.g. count)") ∷ []
  timechart_aggs (a ∷ more) = validate_aggs (codes "timechart") (a ∷ more)

  unfoldable pub validate_assignments : List (Text × Text) → List Problem
  validate_assignments [] = []
  validate_assignments ((field, e) ∷ more) =
      add_if (is_blank field) (codes "eval") (codes "an eval assignment is missing a field name")
      ++ (add_if (is_blank e) (codes "eval")
            (codes "eval assignment for " ++ (field ++ codes " is missing an expression"))
          ++ validate_assignments more)

  abbrev pub some_assignments : List (Text × Text) → List Problem
  some_assignments [] =
      problem (codes "eval") (codes "an eval command needs at least one field=expression") ∷ []
  some_assignments (a ∷ more) = validate_assignments (a ∷ more)

  abbrev is_negative : ℤ → Bool
  is_negative (pos n) = false
  is_negative (negsuc n) = true

  -- One round of the loop of `Validate`.
  unfoldable pub validate_node : Node → List Problem
  unfolding validate_aggs aggs_of validate_assignments eval_assignments
  validate_node (where_of [] none) =
      problem (codes "where") (codes "a where command needs an expression") ∷ []
  validate_node (eval field e more) = some_assignments (eval_assignments field e more)
  validate_node (stats aggs groups) = some_aggs (codes "stats") aggs
  validate_node (eventstats aggs groups) = some_aggs (codes "eventstats") aggs
  validate_node (streamstats aggs groups window) = some_aggs (codes "streamstats") aggs
  validate_node (timechart a span groups) = timechart_aggs (aggs_of (timechart a span groups))
  validate_node (sort []) = problem (codes "sort") (codes "sort needs at least one field") ∷ []
  validate_node (head n) =
      add_if (is_negative n) (codes "head") (codes "head count cannot be negative")
  validate_node (tail n) =
      add_if (is_negative n) (codes "tail") (codes "tail count cannot be negative")
  validate_node (dedup field) =
      add_if (is_blank field) (codes "dedup") (codes "dedup needs a field")
  validate_node (table []) = problem (codes "table") (codes "table needs at least one column") ∷ []
  validate_node (fields include []) =
      problem (codes "fields") (codes "fields needs at least one field") ∷ []
  validate_node (rename []) =
      problem (codes "rename") (codes "rename needs at least one from→to pair") ∷ []
  validate_node (rex r) =
      add_if (is_blank r.pat) (codes "rex") (codes "rex needs a regular expression")
  validate_node (bin field span) = add_if (is_blank field) (codes "bin") (codes "bin needs a field")
  validate_node (unsupported name raw) =
      problem (codes "unsupported") (name ++ codes " is not supported by the visual builder") ∷ []
  validate_node _ = []

  unfoldable pub validate_nodes : List Node → List Problem
  unfolding validate_node
  validate_nodes [] = []
  validate_nodes (node ∷ nodes) = validate_node node ++ validate_nodes nodes

  unfoldable pub validate : List Node → List Problem
  unfolding validate_nodes
  validate [] = problem (codes "query") (codes "the query is empty") ∷ []
  validate (node ∷ nodes) = validate_nodes (node ∷ nodes)

-- `EnsureSearchFirst`.
unfoldable pub ensure_search_first : List Node → List Node
ensure_search_first (search m words e ∷ nodes) = search m words e ∷ nodes
ensure_search_first nodes = search [] [] none ∷ nodes
