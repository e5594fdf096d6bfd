-- ===== src/Spl/Ast/Wire.antt =====
-- The wire form of a query, internal/spl/ast/command.go. A nil list is the empty one; `Include` and
-- `Agg` are pointers. What encoding/json does with a command is a parameter: `encode` writes one,
-- `decode_type` reads its discriminator and `decode` the whole, and both may fail.
use quetzalog.Base.{ℤ, pos, Bool, false, List, [], Text, codes, Option, none, some}
use quetzalog.Spl.Ast.{
  Expr, Condition, Aggregation, SortField, Node, search, where_of, eval, fields, table, rename,
  stats, timechart, sort, head, tail, dedup, rex, bin, lookup, eventstats, streamstats, unsupported,
  eval_assignments,
}

-- `wireCommand`.
pub record Wire : Type 0 where
  pub kind : Text
  pub text : Text
  pub fields : List (Text × Text)
  pub expr : Option Expr
  pub conditions : List Condition
  pub assignments : List (Text × Text)
  pub include : Option Bool
  pub columns : List Text
  pub mappings : List (Text × Text)
  pub aggs : List Aggregation
  pub group_by : List Text
  pub span : Text
  pub agg : Option Aggregation
  pub sort : List SortField
  pub n : ℤ
  pub field : Text
  pub window : ℤ
  pub lookup : Text
  pub output_fields : List Text
  pub append : Bool
  pub pat : Text
  pub alias : Text
  pub mode : Text
  pub name : Text
  pub raw : Text

-- A command of which only the discriminator is set.
abbrev pub bare : Text → Wire
bare kind = record {
  kind = kind;
  text = [];
  fields = [];
  expr = none;
  conditions = [];
  assignments = [];
  include = none;
  columns = [];
  mappings = [];
  aggs = [];
  group_by = [];
  span = [];
  agg = none;
  sort = [];
  n = pos 0;
  field = [];
  window = pos 0;
  lookup = [];
  output_fields = [];
  append = false;
  pat = [];
  alias = [];
  mode = [];
  name = [];
  raw = [];
}

-- `commandType`.
unfoldable pub command_type : Node → Text
command_type (search _ _ _) = codes "search"
command_type (where_of _ _) = codes "where"
command_type (eval _ _ _) = codes "eval"
command_type (fields _ _) = codes "fields"
command_type (table _) = codes "table"
command_type (rename _) = codes "rename"
command_type (stats _ _) = codes "stats"
command_type (timechart _ _ _) = codes "timechart"
command_type (sort _) = codes "sort"
command_type (head _) = codes "head"
command_type (tail _) = codes "tail"
command_type (dedup _) = codes "dedup"
command_type (rex _) = codes "rex"
command_type (bin _ _) = codes "bin"
command_type (lookup _) = codes "lookup"
command_type (eventstats _ _) = codes "eventstats"
command_type (streamstats _ _ _) = codes "streamstats"
command_type (unsupported _ _) = codes "unsupported"

-- `nodeToWire`, which fails on none of these nodes.
unfoldable pub node_to_wire : Node → Wire
unfolding eval_assignments
node_to_wire (search m words e) = record (bare (codes "search")) {
  text = words;
  fields = m;
  expr = e;
}
node_to_wire (where_of cs e) = record (bare (codes "where")) { expr = e; conditions = cs }
node_to_wire (eval field e more) = record (bare (codes "eval")) {
  assignments = eval_assignments field e more;
}
node_to_wire (fields include names) = record (bare (codes "fields")) {
  include = some include;
  columns = names;
}
node_to_wire (table names) = record (bare (codes "table")) { columns = names }
node_to_wire (rename pairs) = record (bare (codes "rename")) { mappings = pairs }
node_to_wire (stats aggs groups) = record (bare (codes "stats")) { aggs = aggs; group_by = groups }
node_to_wire (timechart agg span groups) = record (bare (codes "timechart")) {
  span = span;
  agg = some agg;
  group_by = groups;
}
node_to_wire (sort keys) = record (bare (codes "sort")) { sort = keys }
node_to_wire (head n) = record (bare (codes "head")) { n = n }
node_to_wire (tail n) = record (bare (codes "tail")) { n = n }
node_to_wire (dedup field) = record (bare (codes "dedup")) { field = field }
node_to_wire (rex r) = record (bare (codes "rex")) {
  field = r.field;
  pat = r.pat;
  alias = r.rename;
  mode = r.mode;
}
node_to_wire (bin field span) = record (bare (codes "bin")) { field = field; span = span }
node_to_wire (lookup l) = record (bare (codes "lookup")) {
  lookup = l.lookup;
  field = l.input_field;
  output_fields = l.output_fields;
  append = l.append;
}
node_to_wire (eventstats aggs groups) = record (bare (codes "eventstats")) {
  aggs = aggs;
  group_by = groups;
}
node_to_wire (streamstats aggs groups window) = record (bare (codes "streamstats")) {
  aggs = aggs;
  group_by = groups;
  window = window;
}
node_to_wire (unsupported name raw) = record (bare (codes "unsupported")) { name = name; raw = raw }
