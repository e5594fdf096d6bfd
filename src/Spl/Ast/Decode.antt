-- ===== src/Spl/Ast/Decode.antt =====
-- The queries that internal/spl/ast/command.go reads and writes, `wireToNode` and the two JSON
-- methods of a query.
use quetzalog.Base.{
  ℤ, pos, zero, Bool, true, false, List, [], ◌∷◌, ◌++◌, map, Text, codes, equal, Option, none, some,
  Outcome, ok, err, ◌>>=◌,
}
use quetzalog.Spl.Ast.{
  Expr, Exprs, and_of, cmp, nil, cons, Condition, Aggregation, Node, search, where_of, eval, fields,
  table, rename, stats, timechart, sort, head, tail, dedup, rex, bin, lookup, eventstats,
  streamstats, unsupported, where_expr,
}
use quetzalog.Spl.Ast.Wire.{Wire, node_to_wire}

pub data WireError : Type 0 where
  invalid_json : WireError
  no_assignment : WireError
  unknown_type : Text → WireError

-- `walk` of `exprToConditions`.
unfoldable mutual
  pub walk : Expr → Option (List Condition)
  walk (cmp field op value) = some (record { field = field; operator = op; value = value } ∷ [])
  walk (and_of es) = walk_all es
  walk _ = none

  pub walk_all : Exprs → Option (List Condition)
  walk_all nil = some []
  walk_all (cons e es) = elim (walk e) [
    | none ↦ none
    | some cs ↦ elim (walk_all es) [ none ↦ none | some ds ↦ some (cs ++ ds) ]
  ]

unfoldable pub expr_to_conditions : Option Expr → List Condition
unfolding walk
expr_to_conditions none = []
expr_to_conditions (some e) = elim (walk e) [ none ↦ [] | some cs ↦ cs ]

-- The conditions of a decoded `where`: those sent, or those that its expression flattens to.
unfoldable pub or_flattened : List Condition → Option Expr → List Condition
unfolding expr_to_conditions
or_flattened [] e = expr_to_conditions e
or_flattened (c ∷ cs) e = c ∷ cs

abbrev pub where_node : List Condition → Option Expr → Node
where_node cs e = where_of (or_flattened cs (where_expr cs e)) (where_expr cs e)

abbrev pub eval_node : List (Text × Text) → Outcome WireError Node
eval_node [] = err no_assignment
eval_node ((field, e) ∷ more) = ok (eval field e ((field, e) ∷ more))

abbrev or_count : Option Aggregation → Aggregation
or_count (some a) = a
or_count none = record { function = codes "count"; field = codes "*"; alias = [] }

abbrev or_true : Option Bool → Bool
or_true (some b) = b
or_true none = true

-- The cases of `wireToNode`.
pub data Kind : Type 0 where
  search_command : Kind
  where_command : Kind
  eval_command : Kind
  fields_command : Kind
  table_command : Kind
  rename_command : Kind
  stats_command : Kind
  timechart_command : Kind
  sort_command : Kind
  head_command : Kind
  tail_command : Kind
  dedup_command : Kind
  rex_command : Kind
  bin_command : Kind
  lookup_command : Kind
  eventstats_command : Kind
  streamstats_command : Kind
  unsupported_command : Kind

abbrev pub kinds : List (Text × Kind)
kinds =
    (codes "search", search_command)
    ∷ ([], search_command)
    ∷ (codes "where", where_command)
    ∷ (codes "eval", eval_command)
    ∷ (codes "fields", fields_command)
    ∷ (codes "table", table_command)
    ∷ (codes "rename", rename_command)
    ∷ (codes "stats", stats_command)
    ∷ (codes "timechart", timechart_command)
    ∷ (codes "sort", sort_command)
    ∷ (codes "head", head_command)
    ∷ (codes "tail", tail_command)
    ∷ (codes "dedup", dedup_command)
    ∷ (codes "rex", rex_command)
    ∷ (codes "bin", bin_command)
    ∷ (codes "lookup", lookup_command)
    ∷ (codes "eventstats", eventstats_command)
    ∷ (codes "streamstats", streamstats_command)
    ∷ (codes "unsupported", unsupported_command)
    ∷ []

unfoldable pub find_kind : List (Text × Kind) → Text → Option Kind
find_kind [] t = none
find_kind ((name, k) ∷ m) t = elim (equal t name) [ true ↦ some k | false ↦ find_kind m t ]

-- One case, on the command decoded.
unfoldable pub node_of : Kind → Wire → Outcome WireError Node
unfolding where_expr or_flattened
node_of search_command w = ok (search w.fields w.text w.expr)
node_of where_command w = ok (where_node w.conditions w.expr)
node_of eval_command w = eval_node w.assignments
node_of fields_command w = ok (fields (or_true w.include) w.columns)
node_of table_command w = ok (table w.columns)
node_of rename_command w = ok (rename w.mappings)
node_of stats_command w = ok (stats w.aggs w.group_by)
node_of timechart_command w = ok (timechart (or_count w.agg) w.span w.group_by)
node_of sort_command w = ok (sort w.sort)
node_of head_command w = ok (head w.n)
node_of tail_command w = ok (tail w.n)
node_of dedup_command w = ok (dedup w.field)
node_of rex_command w =
    ok (rex (record { field = w.field; pat = w.pat; rename = w.alias; mode = w.mode }))
node_of bin_command w = ok (bin w.field w.span)
node_of lookup_command w = ok (
    lookup (record {
      lookup = w.lookup;
      input_field = w.field;
      output_fields = w.output_fields;
      append = w.append;
    }))
node_of eventstats_command w = ok (eventstats w.aggs w.group_by)
node_of streamstats_command w = ok (streamstats w.aggs w.group_by w.window)
node_of unsupported_command w = ok (unsupported w.name w.raw)

-- What the two JSON methods call of encoding/json, on commands of a type `J`.
pub record Json (J : Type 0) : Type 0 where
  pub encode : Wire → J
  pub decode_type : J → Option Text
  pub decode : J → Option Wire

pub record Query : Type 0 where
  pub version : ℤ
  pub commands : List Node

abbrev pub or_one : ℤ → ℤ
or_one (pos zero) = pos 1
or_one v = v

abbrev pub decoded : Kind → Option Wire → Outcome WireError Node
decoded k none = err invalid_json
decoded k (some w) = node_of k w

module _ {J : Type 0} (json : Json J) where
  -- `MarshalJSON`, up to the envelope.
  unfoldable pub marshal : Query → ℤ × List J
  unfolding node_to_wire
  marshal q = (or_one q.version, map (λ node. json.encode (node_to_wire node)) q.commands)

  -- `wireToNode`.
  unfoldable pub wire_to_node : Text → J → Outcome WireError Node
  unfolding find_kind node_of
  wire_to_node t raw = elim (find_kind kinds t) [
    | none ↦ err (unknown_type t)
    | some k ↦ decoded k (json.decode raw)
  ]

  unfoldable pub decode_command : J → Outcome WireError Node
  unfolding wire_to_node
  decode_command raw = elim (json.decode_type raw) [
    | none ↦ err invalid_json
    | some t ↦ wire_to_node t raw
  ]

  -- The loop of `UnmarshalJSON`, which stops at the first error.
  unfoldable pub decode_commands : List J → Outcome WireError (List Node)
  unfolding decode_command
  decode_commands [] = ok []
  decode_commands (raw ∷ rest) =
      decode_command raw >>= λ node. decode_commands rest >>= λ nodes. ok (node ∷ nodes)

  unfoldable pub unmarshal : ℤ × List J → Outcome WireError Query
  unfolding decode_commands
  unmarshal (version, commands) = decode_commands commands >>= λ nodes.
      ok (record { version = or_one version; commands = nodes })
