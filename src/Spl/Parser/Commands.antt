-- ===== src/Spl/Parser/Commands.antt =====
-- The commands of internal/spl/parser/parser.go that are read word by word.
pub mod Ends
use quetzalog.Base.{
  ℕ, Bool, true, false, not, ◌&&◌, ◌||◌, List, [], ◌∷◌, ◌++◌, Text, codes, equal, one_of,
  if◌then◌else◌, Outcome, ok, err, ◌>>=◌, ◌==◌, atoi, ℤ,
}
use quetzalog.Spl.Unicode.{Unicode, to_lower, to_upper}
use quetzalog.Spl.Lexer.{Token, TokenKind, is_name, is_op, is_keyword}
use quetzalog.Spl.Ast.{
  SortField, RexNode, LookupNode, Node, sort, head, tail, dedup, fields, table, rename, rex, bin,
  lookup,
}
use quetzalog.Spl.Parser.Expression.{ParseError, command_error}
use quetzalog.Spl.Parser.Aggregation.{is_string, is_word, is_eq}

abbrev fail : Text → Outcome ParseError Node
fail message = err (command_error message)

abbrev is_number : TokenKind → Bool
is_number TokenKind.number = true
is_number _ = false

abbrev is_star : TokenKind → Bool
is_star TokenKind.star = true
is_star _ = false

abbrev is_sign : Text → Token → Bool
is_sign sign t = is_op t.kind && equal t.value sign

-- The loop of `parseSort`.
unfoldable pub sort_fields : Unicode → List Token → List SortField
sort_fields u [] = []
sort_fields u (t ∷ []) =
    if is_keyword u t (codes "by")
    then []
    else if is_name t.kind && not (atoi t.value).1
    then record { field = t.value; desc = false } ∷ []
    else []
sort_fields u (t ∷ n ∷ ts) =
    let past = sort_fields u ts in
    let more = sort_fields u (n ∷ ts) in
    if is_keyword u t (codes "by")
    then more
    else if is_sign (codes "-") t && is_name n.kind
    then record { field = n.value; desc = true } ∷ past
    else if is_name t.kind && not (atoi t.value).1
    then record { field = t.value; desc = false } ∷ more
    else more

abbrev sort_of : List SortField → Outcome ParseError Node
sort_of [] = fail (codes "sort requires at least one field")
sort_of (f ∷ fs) = ok (sort (f ∷ fs))

unfoldable pub parse_sort : Unicode → List Token → Outcome ParseError Node
unfolding sort_fields
parse_sort u ts = sort_of (sort_fields u ts)

-- `parseCount`: the first number, which has to be an integer.
unfoldable pub parse_count : List Token → Outcome ParseError ℤ
parse_count [] = err (command_error (codes "requires a number argument"))
parse_count (t ∷ ts) =
    let more = parse_count ts in
    if is_number t.kind
    then (if (atoi t.value).1 then ok (atoi t.value).0 else err (command_error t.value))
    else more

unfoldable pub parse_head : List Token → Outcome ParseError Node
unfolding parse_count
parse_head ts = parse_count ts >>= λ n. ok (head n)

unfoldable pub parse_tail : List Token → Outcome ParseError Node
unfolding parse_count
parse_tail ts = parse_count ts >>= λ n. ok (tail n)

unfoldable pub parse_dedup : List Token → Outcome ParseError Node
parse_dedup [] = fail (codes "dedup requires a field name")
parse_dedup (t ∷ ts) =
    let more = parse_dedup ts in
    if is_name t.kind && not (atoi t.value).1 then ok (dedup t.value) else more

-- `strings.TrimPrefix` by one rune.
unfoldable pub trim_prefix : ℕ → Text → Text
trim_prefix sign [] = []
trim_prefix sign (c ∷ s) = if c == sign then s else c ∷ s

-- The names that `parseFields` collects.
unfoldable pub field_names : List Token → List Text
unfolding trim_prefix
field_names [] = []
field_names (t ∷ ts) =
    let more = field_names ts in
    let f = trim_prefix b'+' (trim_prefix b'-' t.value) in
    if is_word t && not (equal f []) then f ∷ more else more

abbrev is_first : (Token → Bool) → List Token → Bool
is_first test [] = false
is_first test (t ∷ _) = test t

abbrev fields_of : Bool → List Text → Outcome ParseError Node
fields_of include [] = fail (codes "fields requires at least one field")
fields_of include (f ∷ fs) = ok (fields include (f ∷ fs))

-- A leading `-` drops the fields; an operator names no field.
unfoldable pub parse_fields : List Token → Outcome ParseError Node
unfolding field_names
parse_fields ts = fields_of (not (is_first (is_sign (codes "-")) ts)) (field_names ts)

unfoldable pub table_names : List Token → List Text
table_names [] = []
table_names (t ∷ ts) =
    let more = table_names ts in
    if is_word t then t.value ∷ more else if is_star t.kind then codes "*" ∷ more else more

abbrev table_of : List Text → Outcome ParseError Node
table_of [] = fail (codes "table requires at least one field")
table_of (f ∷ fs) = ok (table (f ∷ fs))

unfoldable pub parse_table : List Token → Outcome ParseError Node
unfolding table_names
parse_table ts = table_of (table_names ts)

-- The loop of `parseRename`: `MappingsOrdered`, or the name at which `old as new` is missing.
unfoldable pub rename_pairs : Unicode → List Token → Outcome ParseError (List (Text × Text))
rename_pairs u [] = ok []
rename_pairs u (t ∷ []) = if is_name t.kind then err (command_error t.value) else ok []
rename_pairs u (t ∷ w ∷ []) =
    let more = rename_pairs u (w ∷ []) in
    if is_name t.kind then err (command_error t.value) else more
rename_pairs u (t ∷ w ∷ to ∷ ts) =
    let past = rename_pairs u ts >>= λ ps. ok ((t.value, to.value) ∷ ps) in
    let more = rename_pairs u (w ∷ to ∷ ts) in
    if not (is_name t.kind)
    then more
    else if is_keyword u w (codes "as")
    then past
    else err (command_error t.value)

abbrev rename_of : List (Text × Text) → Outcome ParseError Node
rename_of [] = fail (codes "rename requires at least one mapping")
rename_of (p ∷ ps) = ok (rename (p ∷ ps))

unfoldable pub parse_rename : Unicode → List Token → Outcome ParseError Node
unfolding rename_pairs
parse_rename u ts = rename_pairs u ts >>= rename_of

-- The `switch` of `parseRex` on an option's key.
unfoldable pub set_rex_option : RexNode → Text → Text → RexNode
set_rex_option node key val =
    if equal key (codes "field")
    then record node { field = val }
    else if equal key (codes "rename") || equal key (codes "alias")
    then record node { rename = val }
    else if equal key (codes "mode")
    then record node { mode = val }
    else node

-- A token that is no option is the pattern, an unquoted one only where there is none yet.
unfoldable pub set_rex_pattern : RexNode → Token → RexNode
set_rex_pattern node t =
    if is_string t.kind || (is_name t.kind && equal node.pat [])
    then record node { pat = t.value }
    else node

unfoldable pub rex_loop : Unicode → RexNode → List Token → RexNode
unfolding set_rex_option set_rex_pattern
rex_loop u node [] = node
rex_loop u node (t ∷ []) = set_rex_pattern node t
rex_loop u node (t ∷ w ∷ []) = rex_loop u (set_rex_pattern node t) (w ∷ [])
rex_loop u node (t ∷ w ∷ v ∷ ts) =
    let past = rex_loop u (set_rex_option node (to_lower u t.value) v.value) ts in
    let more = rex_loop u (set_rex_pattern node t) (w ∷ v ∷ ts) in
    if is_name t.kind && is_eq w then past else more

unfoldable pub parse_rex : Unicode → List Token → Outcome ParseError Node
unfolding rex_loop
parse_rex u ts =
    let node = rex_loop u (record { field = []; pat = []; rename = []; mode = [] }) ts in
    if equal node.pat [] then fail (codes "rex requires a pattern") else ok (rex node)

-- The loop of `parseBin`, over the field and the span.
unfoldable pub bin_loop : Unicode → Text → Text → List Token → Text × Text
bin_loop u field span [] = (field, span)
bin_loop u field span (t ∷ []) = (if is_name t.kind && equal field [] then t.value else field, span)
bin_loop u field span (t ∷ w ∷ []) =
    bin_loop u (if is_name t.kind && equal field [] then t.value else field) span (w ∷ [])
bin_loop u field span (t ∷ w ∷ v ∷ ts) =
    let past = bin_loop u field v.value ts in
    let more =
      bin_loop u (if is_name t.kind && equal field [] then t.value else field) span (w ∷ v ∷ ts) in
    if is_keyword u t (codes "span") && is_eq w then past else more

unfoldable pub parse_bin : Unicode → List Token → Outcome ParseError Node
unfolding bin_loop
parse_bin u ts =
    let (field, span) = bin_loop u [] [] ts in
    if equal field [] then fail (codes "bin requires a field") else ok (bin field span)

unfoldable pub words : List Token → List Text
words [] = []
words (t ∷ ts) = let more = words ts in if is_word t then t.value ∷ more else more

-- The `switch` of `parseLookup` on one word.
unfoldable pub lookup_word : Unicode → LookupNode → Text → LookupNode
lookup_word u node w =
    if one_of (codes "OUTPUT" ∷ codes "OUTPUTNEW" ∷ codes "OUTPUTAPPEND" ∷ []) (to_upper u w)
    then node
    else if equal (to_upper u w) (codes "APPEND")
    then record node { append = true }
    else if equal node.lookup []
    then record node { lookup = w }
    else if equal node.input_field [] && not node.append
    then record node { input_field = w }
    else record node { output_fields = node.output_fields ++ (w ∷ []) }

unfoldable pub lookup_loop : Unicode → LookupNode → List Text → LookupNode
unfolding lookup_word
lookup_loop u node [] = node
lookup_loop u node (w ∷ ws) = lookup_loop u (lookup_word u node w) ws

abbrev lookup_of : Unicode → List Text → Outcome ParseError Node
lookup_of u [] = fail (codes "lookup requires a lookup name and an input field")
lookup_of u (w ∷ []) = fail (codes "lookup requires a lookup name and an input field")
lookup_of u (w ∷ v ∷ ws) = ok (
    lookup (
      lookup_loop u (record { lookup = []; input_field = []; output_fields = []; append = false })
        (w ∷ v ∷ ws)))

unfoldable pub parse_lookup : Unicode → List Token → Outcome ParseError Node
unfolding lookup_loop words
parse_lookup u ts = lookup_of u (words ts)
