-- ===== src/Spl/Parser/Aggregation.antt =====
-- The aggregations of `stats`, `eventstats`, `streamstats` and `timechart` in
-- internal/spl/parser/parser.go.
pub mod Ends
use quetzalog.Base.{
  ℕ, zero, suc, ◌+◌, Bool, true, false, ◌&&◌, ◌||◌, List, [], ◌∷◌, ◌++◌, Text, length, take, drop,
  codes, Option, none, some, equal, if◌then◌else◌, Outcome, ok, out_of_fuel, ◌>>=◌, ◌==◌, atoi,
}
use quetzalog.Spl.Unicode.{Unicode, to_lower}
use quetzalog.Spl.Lexer.{Token, TokenKind, is_name, is_op, is_keyword}
use quetzalog.Spl.Ast.{Aggregation, Node, stats, timechart, eventstats, streamstats}
use quetzalog.Spl.Parser.Expression.{ParseError, cur, advance, is_lparen, is_rparen}

unfoldable pub is_string : TokenKind → Bool
is_string TokenKind.string = true
is_string _ = false

abbrev pub is_word : Token → Bool
is_word t = is_name t.kind || is_string t.kind

abbrev pub is_eq : Token → Bool
is_eq t = is_op t.kind && equal t.value (codes "=")

-- Where the last `by` outside parentheses stands. Go counts one depth, which may fall below 0: it is
-- 0 where as many parentheses have opened as closed.
unfoldable pub last_by : Unicode → (i opened closed : ℕ) → List Token → Option ℕ
last_by u i opened closed [] = none
last_by u i opened closed (t ∷ ts) =
    let later =
      last_by u (i + 1) (if is_lparen t.kind then opened + 1 else opened)
        (if is_rparen t.kind then closed + 1 else closed) ts in
    elim later [
      | some k ↦ some k
      | none ↦ if is_keyword u t (codes "by") && opened == closed then some i else none
    ]

-- `aggToks` and `groupToks`.
unfoldable pub split_by : Unicode → List Token → List Token × List Token
split_by u ts = elim (last_by u 0 0 0 ts) [
  | none ↦ (ts, [])
  | some i ↦ (take i ts, drop (i + 1) ts)
]

unfoldable pub group_fields : List Token → List Text
group_fields [] = []
group_fields (t ∷ ts) = let more = group_fields ts in if is_word t then t.value ∷ more else more

unfoldable pub field_piece : Token → TokenKind → Text
field_piece t TokenKind.star = codes "*"
field_piece t TokenKind.name = t.value
field_piece t TokenKind.number = t.value
field_piece t _ = []

-- Behind the `(` of `func(field)`: the field, and what follows the `)`.
unfoldable pub field_body : List Token → Text × List Token
field_body [] = ([], [])
field_body (t ∷ ts) =
    let (field, r) = field_body ts in
    if is_rparen t.kind then ([], ts) else (field_piece t t.kind ++ field, r)

unfoldable pub call_field : List Token → Text × List Token
call_field ts = if is_lparen (cur ts).kind then field_body (advance ts) else ([], ts)

-- `as alias`
unfoldable pub as_alias : Unicode → List Token → Text × List Token
as_alias u ts =
    if is_keyword u (cur ts) (codes "as")
    then (if is_word (cur (advance ts))
        then ((cur (advance ts)).value, advance (advance ts))
        else ([], advance ts))
    else ([], ts)

-- One aggregation, whose function is the name `t`.
unfoldable pub aggregation : Unicode → Token → List Token → Aggregation × List Token
aggregation u t ts =
    let fn = to_lower u t.value in
    let (field, r) = call_field ts in
    let (alias, r') = as_alias u r in
    let field' = if equal fn (codes "count") && equal field [] then codes "*" else field in
    (record { function = fn; field = field'; alias = alias }, r')

-- The loop over `aggToks`, with a bound on its rounds.
unfoldable pub aggregations : ℕ → Unicode → List Token → Outcome ParseError (List Aggregation)
aggregations zero u ts = out_of_fuel
aggregations (suc fuel) u [] = ok []
aggregations (suc fuel) u (t ∷ ts) =
    let skipped = aggregations fuel u ts in
    let (a, r) = aggregation u t ts in
    let more = aggregations fuel u r >>= λ aggs. ok (a ∷ aggs) in
    if is_name t.kind then more else skipped

pub record AggParse : Type 0 where
  pub aggs : List Aggregation
  pub group_by : List Text

unfoldable pub parse_aggregation_node : Unicode → List Token → Outcome ParseError AggParse
parse_aggregation_node u ts =
    let (agg_tokens, group_tokens) = split_by u ts in
    aggregations (suc (length agg_tokens)) u agg_tokens >>= λ aggs.
    ok (record { aggs = aggs; group_by = group_fields group_tokens })

unfoldable pub parse_stats : Unicode → List Token → Outcome ParseError Node
parse_stats u ts = parse_aggregation_node u ts >>= λ p. ok (stats p.aggs p.group_by)

unfoldable pub parse_eventstats : Unicode → List Token → Outcome ParseError Node
parse_eventstats u ts = parse_aggregation_node u ts >>= λ p. ok (eventstats p.aggs p.group_by)

-- Takes every `word=value` out of the tokens: the last value, behind the one given, and the rest.
unfoldable pub take_option : Unicode → Text → Text → List Token → Text × List Token
take_option u word value [] = (value, [])
take_option u word value (t ∷ []) = (value, t ∷ [])
take_option u word value (t ∷ o ∷ []) = (value, t ∷ o ∷ [])
take_option u word value (t ∷ o ∷ v ∷ ts) =
    let found = take_option u word v.value ts in
    let (value', rest) = take_option u word value (o ∷ v ∷ ts) in
    let passed : Text × List Token = (value', t ∷ rest) in
    if is_keyword u t word && is_eq o then found else passed

abbrev pub first_agg : List Aggregation → Aggregation
first_agg [] = record { function = codes "count"; field = codes "*"; alias = [] }
first_agg (a ∷ _) = if equal a.field [] then record a { field = codes "*" } else a

unfoldable pub parse_timechart : Unicode → List Token → Outcome ParseError Node
parse_timechart u ts =
    let (span, rest) = take_option u (codes "span") [] ts in
    parse_aggregation_node u rest >>= λ p. ok (timechart (first_agg p.aggs) span p.group_by)

-- A window that `Atoi` refuses is what `Atoi` returns beside its error. With no window it is 0, as is
-- the number read from the empty text.
unfoldable pub parse_streamstats : Unicode → List Token → Outcome ParseError Node
parse_streamstats u ts =
    let (window, rest) = take_option u (codes "window") [] ts in
    parse_aggregation_node u rest >>= λ p. ok (streamstats p.aggs p.group_by (atoi window).0)
