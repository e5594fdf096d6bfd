-- ===== src/Spl/Serializer.antt =====
-- internal/spl/serializer/serializer.go. `Text` writes the expressions and the pieces of a command,
-- this file the commands and the pipeline. The raw text of an unsupported command is the bytes
-- that the parser cut out, so the whole query is bytes here too.
pub mod Text
pub mod Precedence
pub mod Counts
pub mod Digits
pub mod Values
use quetzalog.Base.{
  ℕ, ℤ, pos, negsuc, zero, suc, ◌+◌, Bool, true, false, ◌&&◌, ◌||◌, not, List, [], ◌∷◌, ◌++◌, codes,
  equal, if◌then◌else◌, Option, none, some,
}
use quetzalog.Base
use quetzalog.Spl.Lexer.Literals.{string_literal}
use quetzalog.Spl.Ast.{
  Expr, where_expr, eval_assignments, Node, Aggregation, SortField, RexNode, LookupNode, search,
  where_of, eval, fields, table, rename, stats, timechart, sort, head, tail, dedup, rex, bin,
  lookup, eventstats, streamstats, unsupported,
}
use quetzalog.Spl.Parser.Source.{utf8, trim_space}
use Text.{join_texts, itoa, serialize_expr, serialize_search, aggs_by, one_agg, prec_leaf}

abbrev empty : Base.Text → Bool
empty s = equal s []

-- `s += word + value` where the value is there.
abbrev with_option : Base.Text → Base.Text → Base.Text
with_option word value = if empty value then [] else word ++ value

unfoldable pub signed_names : Bool → List Base.Text → List Base.Text
signed_names include [] = []
signed_names include (f ∷ fs) = (if include then f else b'-' ∷ f) ∷ signed_names include fs

unfoldable pub rename_bits : List (Base.Text × Base.Text) → List Base.Text
rename_bits [] = []
rename_bits ((from, to) ∷ pairs) = (from ++ codes " as " ++ to) ∷ rename_bits pairs

unfoldable pub sort_bits : List SortField → List Base.Text
sort_bits [] = []
sort_bits (f ∷ fs) = (if f.desc then b'-' ∷ f.field else f.field) ∷ sort_bits fs

abbrev by_groups : List Base.Text → Base.Text
by_groups [] = []
by_groups (g ∷ gs) = codes " by " ++ join_texts (codes ", ") (g ∷ gs)

abbrev output_text : List Base.Text → Base.Text
output_text [] = []
output_text (f ∷ fs) = codes " OUTPUT " ++ join_texts (codes ", ") (f ∷ fs)

abbrev window_text : ℤ → Base.Text
window_text (pos (suc n)) = codes " window=" ++ itoa (pos (suc n))
window_text _ = []

abbrev pub where_text : Option Expr → Base.Text
where_text none = codes "where 1=1"
where_text (some e) = codes "where " ++ serialize_expr e prec_leaf

abbrev eval_bits : List (Base.Text × Base.Text) → List Base.Text
eval_bits [] = []
eval_bits ((field, e) ∷ more) = (field ++ codes "=" ++ e) ∷ eval_bits more

-- `serializeNode` on the commands that it writes itself.
unfoldable pub node_text : Node → Bool → Base.Text
unfolding itoa where_expr eval_assignments
node_text (search names words expr) first =
    let s = serialize_search names words expr in if empty s && first then codes "search" else s
node_text (where_of conditions e) first = where_text (where_expr conditions e)
node_text (eval field e more) first =
    codes "eval " ++ join_texts (codes ", ") (eval_bits (eval_assignments field e more))
node_text (fields include names) first =
    codes "fields " ++ join_texts (codes ", ") (signed_names include names)
node_text (table names) first = codes "table " ++ join_texts (codes ", ") names
node_text (rename pairs) first = codes "rename " ++ join_texts (codes ", ") (rename_bits pairs)
node_text (stats aggs groups) first = codes "stats " ++ aggs_by aggs groups
node_text (timechart agg span groups) first =
    codes "timechart"
    ++ with_option (codes " span=") span
    ++ codes " "
    ++ one_agg agg
    ++ by_groups groups
node_text (sort keys) first = codes "sort " ++ join_texts (codes ", ") (sort_bits keys)
node_text (head n) first = codes "head " ++ itoa n
node_text (tail n) first = codes "tail " ++ itoa n
node_text (dedup field) first = codes "dedup " ++ field
node_text (rex r) first =
    codes "rex"
    ++ with_option (codes " field=") r.field
    ++ codes " "
    ++ string_literal r.pat
    ++ with_option (codes " rename=") r.rename
    ++ with_option (codes " mode=") r.mode
node_text (bin field span) first = codes "bin " ++ field ++ with_option (codes " span=") span
node_text (lookup l) first =
    codes "lookup "
    ++ l.lookup
    ++ codes " "
    ++ l.input_field
    ++ output_text l.output_fields
    ++ (if l.append then codes " APPEND" else [])
node_text (eventstats aggs groups) first = codes "eventstats " ++ aggs_by aggs groups
node_text (streamstats aggs groups window) first =
    codes "streamstats" ++ window_text window ++ codes " " ++ aggs_by aggs groups
node_text (unsupported name raw) first = []

-- `serializeNode`, as bytes.
unfoldable pub serialize_node : Node → Bool → List ℕ
unfolding node_text
serialize_node (unsupported name raw) first = trim_space raw
serialize_node n first = utf8 (node_text n first)

-- The loop of `Serialize`; a command that writes blanks alone is left out.
unfoldable pub serialize_parts : List Node → Bool → List (List ℕ)
unfolding serialize_node
serialize_parts [] first = []
serialize_parts (n ∷ q) first =
    let s = serialize_node n first in
    let more = serialize_parts q false in if empty (trim_space s) then more else s ∷ more

unfoldable pub serialize : List Node → List ℕ
unfolding serialize_parts
serialize q = join_texts (codes "\n| ") (serialize_parts q true)
