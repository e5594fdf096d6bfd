-- ===== src/Spl/Planner/Fields.antt =====
-- How internal/spl/planner/planner.go resolves the name of a field.
use quetzalog.Base.{
  ℕ, Bool, true, false, ◌&&◌, ◌||◌, List, [], ◌∷◌, ◌++◌, Text, codes, equal, ◌==◌, if◌then◌else◌,
  Option, none, some,
}
use quetzalog.Spl.Unicode.{Unicode, to_lower, trim, ascii_letter, ascii_digit}

-- `columns`.
abbrev pub columns : List (Text × Text)
columns =
    (codes "id", codes "id")
    ∷ (codes "timestamp", codes "timestamp")
    ∷ (codes "time", codes "timestamp")
    ∷ (codes "_time", codes "timestamp")
    ∷ (codes "received_at", codes "received_at")
    ∷ (codes "source", codes "source")
    ∷ (codes "sourcename", codes "source")
    ∷ (codes "source_type", codes "source_type")
    ∷ (codes "sourcetype", codes "source_type")
    ∷ (codes "host", codes "host")
    ∷ (codes "ip", codes "ip")
    ∷ (codes "service", codes "service")
    ∷ (codes "application", codes "application")
    ∷ (codes "severity", codes "severity")
    ∷ (codes "sev", codes "severity")
    ∷ (codes "message", codes "message")
    ∷ (codes "event_type", codes "event_type")
    ∷ (codes "eventtype", codes "event_type")
    ∷ (codes "category", codes "category")
    ∷ (codes "action", codes "action")
    ∷ (codes "outcome", codes "outcome")
    ∷ (codes "user", codes "user")
    ∷ (codes "username", codes "user")
    ∷ (codes "user_id", codes "user_id")
    ∷ (codes "process", codes "process")
    ∷ (codes "process_id", codes "process_id")
    ∷ (codes "parent_pid", codes "parent_pid")
    ∷ (codes "file_path", codes "file_path")
    ∷ (codes "destination_ip", codes "destination_ip")
    ∷ (codes "dest_ip", codes "destination_ip")
    ∷ (codes "dst_ip", codes "destination_ip")
    ∷ (codes "destination_port", codes "destination_port")
    ∷ (codes "dest_port", codes "destination_port")
    ∷ (codes "source_ip", codes "source_ip")
    ∷ (codes "src_ip", codes "source_ip")
    ∷ (codes "sourceip", codes "source_ip")
    ∷ (codes "source_port", codes "source_port")
    ∷ (codes "src_port", codes "source_port")
    ∷ (codes "raw", codes "raw")
    ∷ (codes "raw_format", codes "raw_format")
    ∷ (codes "trace_id", codes "trace_id")
    ∷ (codes "span_id", codes "span_id")
    ∷ []

unfoldable pub find_column : List (Text × Text) → Text → Option Text
find_column [] name = none
find_column ((k, c) ∷ m) name =
    let more = find_column m name in if equal k name then some c else more

-- `attrKeyRe`, a nonempty text of ASCII letters, digits, `_` and `-`.
unfoldable pub is_key_rune : ℕ → Bool
is_key_rune c = ascii_letter c || ascii_digit c || c == b'_' || c == b'-'

unfoldable pub all_key_runes : Text → Bool
all_key_runes [] = true
all_key_runes (c ∷ s) = is_key_rune c && all_key_runes s

unfoldable pub is_attr_key : Text → Bool
unfolding all_key_runes
is_attr_key [] = false
is_attr_key (c ∷ s) = all_key_runes (c ∷ s)

-- The kind of a field with its canonical name.
pub data Field : Type 0 where
  column : Text → Field
  attribute : Text → Field
  index : Field
  unknown : Field

abbrev of_column : Text → Option Text → Field
of_column field (some c) = column c
of_column field none = if is_attr_key field then attribute field else unknown

unfoldable pub resolve_field : Unicode → Text → Field
unfolding find_column is_attr_key
resolve_field u field =
    let l = to_lower u (trim field) in
    if equal l []
    then unknown
    else if equal l (codes "index")
    then index
    else of_column field (find_column columns l)

-- The JSON path of an attribute, as SQL text: `json_extract(attributes, '$."key"')`.
unfoldable pub json_extract : Text → Text
json_extract key = codes "json_extract(attributes, '$.\"" ++ (key ++ codes "\"')")

unfoldable pub cast_as : Text → Text → Text
unfolding json_extract
cast_as type key = codes "CAST(" ++ (json_extract key ++ (codes " AS " ++ (type ++ codes ")")))

-- `DistinctExpr`: the expression and whether it is an attribute.
unfoldable pub distinct_of : Field → Option (Text × Bool)
unfolding cast_as
distinct_of (column c) = some (c, false)
distinct_of (attribute key) = some (cast_as (codes "TEXT") key, true)
distinct_of index = some (cast_as (codes "TEXT") (codes "index"), true)
distinct_of unknown = none

unfoldable pub distinct_expr : Unicode → Text → Option (Text × Bool)
unfolding distinct_of
distinct_expr u field = distinct_of (resolve_field u field)

unfoldable pub is_attribute : Field → Bool
is_attribute (attribute key) = true
is_attribute _ = false

unfoldable pub is_attribute_field : Unicode → Text → Bool
unfolding is_attribute
is_attribute_field u field = is_attribute (resolve_field u field)

-- `ColumnOrderExpr`.
unfoldable pub order_of : Field → Option Text
unfolding cast_as
order_of (column c) = some c
order_of (attribute key) = some (cast_as (codes "TEXT") key)
order_of index = some (cast_as (codes "TEXT") (codes "index"))
order_of unknown = none

unfoldable pub column_order_expr : Unicode → Text → Option Text
unfolding order_of
column_order_expr u field = order_of (resolve_field u field)
