-- ===== src/Spl/Parser/Pipeline.antt =====
-- `splitPipes` of internal/spl/parser/parser.go, and the commands over an expression.
pub mod Groups
use quetzalog.Base.{
  Bool, true, false, not, ◌&&◌, List, [], ◌∷◌, ◌++◌, Text, codes, Option, none, some, equal,
  if◌then◌else◌, Outcome, ok, ◌>>=◌,
}
use quetzalog.Spl.Unicode.{Unicode}
use quetzalog.Spl.Lexer.{Token, TokenKind, is_eof, is_keyword}
use quetzalog.Spl.Ast.{
  Expr, Exprs, nil, cons, and_of, cmp, text, insert, Condition, Node, search, where_of,
}
use quetzalog.Spl.Parser.Expression.{ParseError, parse_expr_tokens}

abbrev pub is_pipe : TokenKind → Bool
is_pipe TokenKind.pipe = true
is_pipe _ = false

-- The loop of `splitPipes`: the group under way, and those behind it. An empty group is left out.
unfoldable pub split_from : List Token → List Token → List (List Token)
split_from group [] = elim group [ [] ↦ [] | t ∷ ts ↦ (t ∷ ts) ∷ [] ]
split_from group (t ∷ ts) =
    let next_group = split_from [] ts in
    let same = split_from group ts in
    let longer = split_from (group ++ (t ∷ [])) ts in
    if is_eof t.kind
    then same
    else if is_pipe t.kind
    then elim group [ [] ↦ next_group | g ∷ gs ↦ (g ∷ gs) ∷ next_group ]
    else longer

unfoldable pub split_pipes : List Token → List (List Token)
unfolding split_from
split_pipes ts = split_from [] ts

-- `walk` of `flatFieldEquality`, over the map built so far.
unfoldable mutual
  pub flat_fields : List (Text × Text) → Expr → Option (List (Text × Text))
  flat_fields m (cmp field op value) =
      if equal op (codes "=") && not (equal field []) then some (insert field value m) else none
  flat_fields m (and_of es) = flat_fields_all m es
  flat_fields m _ = none

  pub flat_fields_all : List (Text × Text) → Exprs → Option (List (Text × Text))
  flat_fields_all m nil = some m
  flat_fields_all m (cons e es) = elim (flat_fields m e) [
    | none ↦ none
    | some m' ↦ flat_fields_all m' es
  ]

-- `walk` of `exprToConditionsClassic`.
unfoldable mutual
  pub flat_conditions : Expr → Option (List Condition)
  flat_conditions (cmp field op value) =
      if equal field []
      then none
      else some (record { field = field; operator = op; value = value } ∷ [])
  flat_conditions (and_of es) = flat_conditions_all es
  flat_conditions _ = none

  pub flat_conditions_all : Exprs → Option (List Condition)
  flat_conditions_all nil = some []
  flat_conditions_all (cons e es) = elim (flat_conditions e) [
    | none ↦ none
    | some cs ↦ elim (flat_conditions_all es) [ none ↦ none | some ds ↦ some (cs ++ ds) ]
  ]

-- `soleFreeText`, with the empty text for none.
unfoldable pub sole_free_text : Expr → Text
sole_free_text (text value pat) = value
sole_free_text _ = []

unfoldable pub search_of : Expr → Node
search_of e =
    search (elim (flat_fields [] e) [ none ↦ [] | some m ↦ m ]) (sole_free_text e) (some e)

-- `parseSearch` behind a leading word `search`.
unfoldable pub parse_filter : Unicode → List Token → Outcome ParseError Node
unfolding search_of
parse_filter u [] = ok (search [] [] none)
parse_filter u (t ∷ ts) = parse_expr_tokens u (t ∷ ts) >>= λ e. ok (search_of e)

unfoldable pub parse_search : Unicode → List Token → Outcome ParseError Node
unfolding parse_filter
parse_search u [] = parse_filter u []
parse_search u (t ∷ ts) =
    if is_keyword u t (codes "search") then parse_filter u ts else parse_filter u (t ∷ ts)

unfoldable pub parse_where : Unicode → List Token → Outcome ParseError Node
parse_where u ts = parse_expr_tokens u ts >>= λ e.
    ok (where_of (elim (flat_conditions e) [ none ↦ [] | some cs ↦ cs ]) (some e))
