-- ===== src/Spl/Parser/Expression.antt =====
-- The expression parser of internal/spl/parser/parser.go. An `exprParser` is held as the tokens from
-- its `pos` on; `advance` past the end leaves none. The five mutually recursive methods, with
-- their loops as functions of their own, take a bound on the depth of calls.
pub mod Grammar
pub mod Comparison
pub mod Steps
pub mod Sound
pub mod Complete
use quetzalog.Base.{
  ℕ, zero, suc, ◌+◌, ◌*◌, Bool, true, false, ◌&&◌, ◌||◌, not, List, [], ◌∷◌, Text, length, codes,
  Option, none, some, equal, if◌then◌else◌, Outcome, ok, err, out_of_fuel, ◌>>=◌, one_of, ◌==◌,
}
use quetzalog.Spl.Unicode.{Unicode, equal_fold}
use quetzalog.Spl.Lexer.{Token, TokenKind, is_name, is_op, is_eof, is_keyword}
use quetzalog.Spl.Ast.{Expr, and_pair, or_pair, not_of, cmp, in_list, is_null, like, text}

-- The errors of the package, each with what its message prints.
pub data ParseError : Type 0 where
  unexpected_token : (raw : Text) → (pos : ℕ) → ParseError
  expected_rparen : (pos : ℕ) → ParseError
  expected_null : (pos : ℕ) → ParseError
  expected_value : (pos : ℕ) → ParseError
  expected_lparen_after_in : (pos : ℕ) → ParseError
  expected_rparen_after_list : (pos : ℕ) → ParseError
  command_error : (message : Text) → ParseError

abbrev pub Parse : Type 0 → Type 0
Parse A = Outcome ParseError (A × List Token)

abbrev pub eof_token : Token
eof_token = record { kind = TokenKind.eof; value = []; raw = []; quote = 0; pos = 0 }

unfoldable pub cur : List Token → Token
cur [] = eof_token
cur (t ∷ _) = t

unfoldable pub advance : List Token → List Token
advance [] = []
advance (_ ∷ ts) = ts

-- `peek(1)` and `peek(2)`.
abbrev pub peek1 : List Token → Token
peek1 ts = cur (advance ts)

abbrev pub peek2 : List Token → Token
peek2 ts = cur (advance (advance ts))

unfoldable pub is_comma : TokenKind → Bool
is_comma TokenKind.comma = true
is_comma _ = false

unfoldable pub is_lparen : TokenKind → Bool
is_lparen TokenKind.lparen = true
is_lparen _ = false

unfoldable pub is_rparen : TokenKind → Bool
is_rparen TokenKind.rparen = true
is_rparen _ = false

-- `startsOperand`.
unfoldable pub starts_operand : Unicode → Token → TokenKind → Bool
starts_operand u t TokenKind.name = not (
    is_keyword u t (codes "or")
    || is_keyword u t (codes "and")
    || is_keyword u t (codes "in")
    || is_keyword u t (codes "like")
    || is_keyword u t (codes "is")
    || is_keyword u t (codes "as"))
starts_operand u t TokenKind.string = true
starts_operand u t TokenKind.number = true
starts_operand u t TokenKind.star = true
starts_operand u t TokenKind.lparen = true
starts_operand u t _ = false

-- `opAfter`: the text of a comparison operator.
unfoldable pub comparison_op : Token → Bool
comparison_op t =
    is_op t.kind
    && one_of (codes "=" ∷ codes "!=" ∷ codes "<" ∷ codes "<=" ∷ codes ">" ∷ codes ">=" ∷ [])
        t.value

-- The value of a token that `readValue` takes.
unfoldable pub value_of : Token → TokenKind → Option Text
value_of t TokenKind.string = some t.value
value_of t TokenKind.number = some t.value
value_of t TokenKind.name = some t.value
value_of t TokenKind.star = some (codes "*")
value_of t _ = none

unfoldable pub read_value : List Token → Parse Text
read_value ts = elim (value_of (cur ts) (cur ts).kind) [
  | none ↦ err (expected_value (cur ts).pos)
  | some v ↦ ok (v, advance ts)
]

-- The loop of `readValueList`.
unfoldable pub read_values : List Token → Parse (List Text)
read_values [] = err (expected_value 0)
read_values (t ∷ []) = elim (value_of t t.kind) [
  | none ↦ err (expected_value t.pos)
  | some v ↦ ok (v ∷ [], [])
]
read_values (t ∷ c ∷ ts) =
    let more = read_values ts in
    elim (value_of t t.kind) [
      | none ↦ err (expected_value t.pos)
      | some v ↦
          if is_comma c.kind then (more >>= λ (vs, r). ok (v ∷ vs, r)) else ok (v ∷ [], c ∷ ts)
    ]

-- `readValueList`, behind `IN`.
unfoldable pub read_value_list : Text → Bool → List Token → Parse Expr
read_value_list field negate ts =
    if not (is_lparen (cur ts).kind)
    then err (expected_lparen_after_in (cur ts).pos)
    else read_values (advance ts) >>= λ (vs, r).
        if not (is_rparen (cur r).kind)
        then err (expected_rparen_after_list (cur r).pos)
        else ok (in_list field negate vs, advance r)

-- `IS [NOT] NULL`, behind `IS`.
unfoldable pub read_null : Unicode → Text → Bool → List Token → Parse Expr
read_null u field negate ts =
    if is_keyword u (cur ts) (codes "null")
    then ok (is_null field negate, advance ts)
    else err (expected_null (cur ts).pos)

-- The runes before and behind the first `=` of a name, where one stands behind the first rune.
unfoldable pub split_at_eq : Text → Option (Text × Text)
split_at_eq [] = none
split_at_eq (c ∷ s) =
    if c == b'='
    then some ([], s)
    else elim (split_at_eq s) [ none ↦ none | some (field, val) ↦ some (c ∷ field, val) ]

unfoldable pub split_inline_assignment : Text → Option (Text × Text)
split_inline_assignment s = elim (split_at_eq s) [
  | none ↦ none
  | some (field, val) ↦ if equal field [] then none else some (field, val)
]

-- A name that no operator follows.
unfoldable pub bare_term : Text → Expr
bare_term raw = elim (split_inline_assignment raw) [
  | none ↦ text raw []
  | some (field, val) ↦ cmp field (codes "=") val
]

-- The case of `parseComparison` for a name `t` in front of `ts`.
unfoldable pub parse_name : Unicode → Token → List Token → Parse Expr
parse_name u t ts =
    if comparison_op (cur ts)
    then (read_value (advance ts) >>= λ (v, r). ok (cmp t.value (cur ts).value v, r))
    else if is_keyword u (cur ts) (codes "in")
    then read_value_list t.value false (advance ts)
    else if is_keyword u (cur ts) (codes "not") && is_keyword u (peek1 ts) (codes "in")
    then read_value_list t.value true (advance (advance ts))
    else if is_keyword u (cur ts) (codes "like")
    then (read_value (advance ts) >>= λ (v, r). ok (like t.value false v, r))
    else if is_keyword u (cur ts) (codes "is")
    then (if is_keyword u (peek1 ts) (codes "not")
        then read_null u t.value true (advance (advance ts))
        else read_null u t.value false (advance ts))
    else ok (bare_term t.value, ts)

unfoldable pub parse_comparison : Unicode → Token → TokenKind → List Token → Parse Expr
parse_comparison u t TokenKind.name ts = parse_name u t ts
parse_comparison u t TokenKind.string ts = ok (text t.value t.value, ts)
parse_comparison u t TokenKind.number ts = ok (text t.value [], ts)
parse_comparison u t TokenKind.star ts = ok (text (codes "*") [], ts)
parse_comparison u t _ ts = err (unexpected_token t.raw t.pos)

-- `let` binds what a branch does, so that it is done in that branch alone.
unfoldable mutual
  pub parse_or : ℕ → Unicode → List Token → Parse Expr
  parse_or zero u ts = out_of_fuel
  parse_or (suc fuel) u ts = parse_and fuel u ts >>= λ (left, r). or_loop fuel u left r

  -- The loop of `parseOr`.
  pub or_loop : ℕ → Unicode → Expr → List Token → Parse Expr
  or_loop zero u left ts = out_of_fuel
  or_loop (suc fuel) u left ts =
      let more =
        parse_and fuel u (advance ts) >>= λ (right, r). or_loop fuel u (or_pair left right) r in
      if is_keyword u (cur ts) (codes "or") then more else ok (left, ts)

  pub parse_and : ℕ → Unicode → List Token → Parse Expr
  parse_and zero u ts = out_of_fuel
  parse_and (suc fuel) u ts = parse_unary fuel u ts >>= λ (left, r). and_loop fuel u left r

  -- The loop of `parseAnd`: a word `AND`, or an operand with none in front of it.
  pub and_loop : ℕ → Unicode → Expr → List Token → Parse Expr
  and_loop zero u left ts = out_of_fuel
  and_loop (suc fuel) u left ts =
      let word =
        parse_unary fuel u (advance ts) >>= λ (right, r). and_loop fuel u (and_pair left right) r in
      let operand =
        parse_unary fuel u ts >>= λ (right, r). and_loop fuel u (and_pair left right) r in
      if is_keyword u (cur ts) (codes "and")
      then word
      else if starts_operand u (cur ts) (cur ts).kind
      then operand
      else ok (left, ts)

  pub parse_unary : ℕ → Unicode → List Token → Parse Expr
  parse_unary zero u ts = out_of_fuel
  parse_unary (suc fuel) u ts =
      let negated = parse_unary fuel u (advance ts) >>= λ (inner, r). ok (not_of inner, r) in
      let primary = parse_primary fuel u ts in
      if is_keyword u (cur ts) (codes "not") then negated else primary

  pub parse_primary : ℕ → Unicode → List Token → Parse Expr
  parse_primary zero u ts = out_of_fuel
  parse_primary (suc fuel) u ts =
      let grouped = parse_or fuel u (advance ts) >>= λ (inner, r).
      if not (is_rparen (cur r).kind)
      then err (expected_rparen (cur r).pos)
      else ok (inner, advance r) in
      let negated = parse_unary fuel u (advance ts) >>= λ (inner, r). ok (not_of inner, r) in
      if is_lparen (cur ts).kind
      then grouped
      else if is_keyword u (cur ts) (codes "not")
      then negated
      else parse_comparison u (cur ts) (cur ts).kind (advance ts)

-- Enough for the calls that `parseOr` makes over this many tokens.
abbrev pub depth_bound : List Token → ℕ
depth_bound ts = 4 * length ts + 4

-- `parseExprTokens`.
unfoldable pub parse_expr_tokens : Unicode → List Token → Outcome ParseError Expr
parse_expr_tokens u ts = parse_or (depth_bound ts) u ts >>= λ (e, r).
    if is_eof (cur r).kind then ok e else err (unexpected_token (cur r).raw (cur r).pos)
