-- ===== src/Spl/Serializer/Text.antt =====
-- The expressions and the pieces of commands in internal/spl/serializer/serializer.go. What Go
-- reads byte by byte to find digits is read rune by rune, since no byte of a longer rune is one.
use quetzalog.Base.{
  ℕ, ℤ, pos, negsuc, zero, suc, ◌+◌, ◌/◌, ◌%◌, Bool, true, false, ◌&&◌, ◌||◌, not, List, [], ◌∷◌,
  ◌++◌, Text, codes, equal, ltb, leb, ◌==◌, if◌then◌else◌, Option, none, some,
}
use quetzalog.Spl.Unicode.{is_space, ascii_letter, ascii_digit}
use quetzalog.Spl.Lexer.Literals.{string_literal}
use quetzalog.Spl.Ast.{
  Expr, Exprs, and_of, or_of, not_of, cmp, in_list, is_null, like, text, nil, cons, Aggregation,
}

-- `strings.Join`.
unfoldable pub join_texts : Text → List Text → Text
join_texts sep [] = []
join_texts sep (s ∷ []) = s
join_texts sep (s ∷ t ∷ ts) = s ++ sep ++ join_texts sep (t ∷ ts)

-- The digits of a number that is not 0, onto the digits behind them; the number bounds the rounds.
unfoldable pub digits_onto : ℕ → ℕ → Text → Text
digits_onto zero n acc = acc
digits_onto (suc fuel) n acc =
    let further = digits_onto fuel (n / 10) ((b'0' + n % 10) ∷ acc) in
    if n == 0 then acc else further

-- `itoa`, on every Go integer but the least.
unfoldable pub itoa : ℤ → Text
unfolding digits_onto
itoa (pos zero) = codes "0"
itoa (pos (suc n)) = digits_onto (suc n) (suc n) []
itoa (negsuc n) = b'-' ∷ digits_onto (suc n) (suc n) []

abbrev within : ℕ → ℕ → ℕ → Bool
within a b c = leb a c && leb c b

unfoldable pub is_ident_safe : ℕ → Bool
is_ident_safe c =
    ascii_letter c
    || ascii_digit c
    || c == b'_'
    || c == b'.'
    || c == b'-'
    || c == b'/'
    || c == b':'
    || c == b'@'
    || c == b'*'
    || c == b'?'

-- The loop of `isNumeric`: whether a point and whether a digit has been read.
unfoldable pub numeric_from : Bool → Bool → Text → Bool
numeric_from dot digits [] = digits
numeric_from dot digits (c ∷ r) =
    let digit = numeric_from dot true r in
    let point = numeric_from true digits r in
    if within b'0' b'9' c then digit else if c == b'.' then if dot then false else point else false

unfoldable pub is_numeric : Text → Bool
unfolding numeric_from
is_numeric [] = false
is_numeric (c ∷ r) =
    if c == b'+' || c == b'-' then numeric_from false false r else numeric_from false false (c ∷ r)

unfoldable pub all_ident_safe : Text → Bool
all_ident_safe [] = true
all_ident_safe (c ∷ r) = is_ident_safe c && all_ident_safe r

unfoldable pub needs_quote : Text → Bool
unfolding is_numeric all_ident_safe
needs_quote [] = true
needs_quote (c ∷ r) =
    if is_numeric (c ∷ r)
    then false
    else if equal (c ∷ r) (codes "*")
    then false
    else not (all_ident_safe (c ∷ r))

-- `valueLiteral`, which does not look at its operator, and `quoteFreeText`, whose empty literal
-- `StringLiteral` writes too.
unfoldable pub value_literal : Text → Text
unfolding needs_quote
value_literal v = if needs_quote v then string_literal v else v

abbrev pub prec_leaf : ℕ
prec_leaf = 0

abbrev pub prec_and : ℕ
prec_and = 1

abbrev pub prec_or : ℕ
prec_or = 2

unfoldable pub maybe_paren : Text → ℕ → ℕ → Text
maybe_paren s own parent = if ltb parent own then codes "(" ++ s ++ codes ")" else s

unfoldable pub value_literals : List Text → List Text
unfolding value_literal
value_literals [] = []
value_literals (v ∷ vs) = value_literal v ∷ value_literals vs

unfoldable pub serialize_in : Text → Bool → List Text → Text
unfolding value_literals join_texts
serialize_in field negate values =
    field
    ++ (if negate then codes " NOT IN (" else codes " IN (")
    ++ join_texts (codes ", ") (value_literals values)
    ++ codes ")"

-- `serializeExpr` and `serializeJoin`, with the precedence around the expression.
unfoldable mutual
  unfolding maybe_paren value_literal serialize_in

  pub serialize_expr : Expr → ℕ → Text
  serialize_expr (and_of es) parent =
      maybe_paren (serialize_join es (codes " AND ") prec_and) prec_and parent
  serialize_expr (or_of es) parent =
      maybe_paren (serialize_join es (codes " OR ") prec_or) prec_or parent
  serialize_expr (not_of e) parent =
      codes "NOT " ++ maybe_paren (serialize_expr e prec_and) prec_leaf (prec_and + 1)
  serialize_expr (cmp field op value) parent = field ++ op ++ value_literal value
  serialize_expr (in_list field negate values) parent = serialize_in field negate values
  serialize_expr (is_null field negate) parent =
      field ++ (if negate then codes " IS NOT NULL" else codes " IS NULL")
  serialize_expr (like field negate pat) parent =
      field ++ (if negate then codes " NOT LIKE " else codes " LIKE ") ++ string_literal pat
  serialize_expr (text value pat) parent = value_literal value

  pub serialize_join : Exprs → Text → ℕ → Text
  serialize_join nil sep own = []
  serialize_join (cons e nil) sep own = serialize_expr e own
  serialize_join (cons e (cons f es)) sep own =
      serialize_expr e own ++ sep ++ serialize_join (cons f es) sep own

-- `flattenAnd`, onto the nodes that stand behind.
unfoldable mutual
  pub flatten_and : Expr → List Expr → List Expr
  flatten_and (and_of es) behind = flatten_all es behind
  flatten_and e behind = e ∷ behind

  pub flatten_all : Exprs → List Expr → List Expr
  flatten_all nil behind = behind
  flatten_all (cons e es) behind = flatten_and e (flatten_all es behind)

unfoldable pub expr_has_field : List Expr → Text → Bool
expr_has_field [] field = false
expr_has_field (cmp f op value ∷ es) field = equal f field || expr_has_field es field
expr_has_field (_ ∷ es) field = expr_has_field es field

unfoldable pub expr_has_text : List Expr → Bool
expr_has_text [] = false
expr_has_text (text value pat ∷ es) = true
expr_has_text (_ ∷ es) = expr_has_text es

unfoldable pub exprs_of : List Expr → Exprs
exprs_of [] = nil
exprs_of (e ∷ es) = cons e (exprs_of es)

unfoldable pub combine_and : List Expr → Option Expr
unfolding exprs_of
combine_and [] = none
combine_and (e ∷ []) = some e
combine_and (e ∷ f ∷ es) = some (and_of (exprs_of (e ∷ f ∷ es)))

-- `<` on Go strings, rune by rune: UTF-8 keeps the order of the runes.
unfoldable pub text_less : Text → Text → Bool
text_less a [] = false
text_less [] (y ∷ b) = true
text_less (x ∷ a) (y ∷ b) = ltb x y || (x == y && text_less a b)

-- `sort.Strings` on the keys of a map, each with its value.
unfoldable pub insert_sorted : Text × Text → List (Text × Text) → List (Text × Text)
insert_sorted p [] = p ∷ []
insert_sorted (k, v) ((k', v') ∷ m) =
    let later = insert_sorted (k, v) m in
    if text_less k' k then (k', v') ∷ later else (k, v) ∷ (k', v') ∷ m

unfoldable pub sort_keys : List (Text × Text) → List (Text × Text)
unfolding insert_sorted
sort_keys [] = []
sort_keys (p ∷ m) = insert_sorted p (sort_keys m)

-- The loop of `mergeSearchExpr` over the keys.
unfoldable pub add_fields : List Expr → List (Text × Text) → List Expr
add_fields nodes [] = nodes
add_fields nodes ((k, v) ∷ m) =
    let kept = add_fields nodes m in
    let added = add_fields (nodes ++ cmp k (codes "=") v ∷ []) m in
    if expr_has_field nodes k then kept else added

unfoldable pub blank : Text → Bool
blank [] = true
blank (c ∷ r) = is_space c && blank r

unfoldable pub add_text : List Expr → Text → List Expr
unfolding blank
add_text nodes words =
    if not (blank words) && not (expr_has_text nodes) then nodes ++ text words [] ∷ [] else nodes

unfoldable pub merge_search_expr : List (Text × Text) → Text → Option Expr → Option Expr
unfolding combine_and add_text sort_keys
merge_search_expr names words e = combine_and (
    add_text (add_fields (elim e [ none ↦ [] | some x ↦ flatten_and x [] ]) (sort_keys names))
      words)

unfoldable pub serialize_search : List (Text × Text) → Text → Option Expr → Text
unfolding merge_search_expr
serialize_search names words e = elim (merge_search_expr names words e) [
  | none ↦ []
  | some x ↦ serialize_expr x prec_leaf
]

abbrev star_field : Text → Bool
star_field f = equal f [] || equal f (codes "*")

unfoldable pub one_agg : Aggregation → Text
one_agg a =
    (if equal a.function (codes "count") && star_field a.field
      then codes "count"
      else if not (star_field a.field)
      then a.function ++ codes "(" ++ a.field ++ codes ")"
      else a.function)
    ++ (if equal a.alias [] then [] else codes " as " ++ a.alias)

unfoldable pub agg_bits : List Aggregation → List Text
unfolding one_agg
agg_bits [] = []
agg_bits (a ∷ aggs) = one_agg a ∷ agg_bits aggs

unfoldable pub aggs_by : List Aggregation → List Text → Text
unfolding agg_bits
aggs_by aggs [] = join_texts (codes ", ") (agg_bits aggs)
aggs_by aggs (g ∷ gs) =
    join_texts (codes ", ") (agg_bits aggs) ++ codes " by " ++ join_texts (codes ", ") (g ∷ gs)
