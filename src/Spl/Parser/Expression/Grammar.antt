-- ===== src/Spl/Parser/Expression/Grammar.antt =====
-- The grammar in the comment above `exprParser` in internal/spl/parser/parser.go, as relations
-- between the tokens of an expression and its tree. AND binds tighter than OR, both to the left.
use quetzalog.Base.{◌<◌, Bool, true, false, List, [], ◌∷◌, ◌++◌, Text, length, codes, some, ◌≡◌}
use quetzalog.Spl.Unicode.{Unicode}
use quetzalog.Spl.Lexer.{Token, TokenKind, is_keyword}
use quetzalog.Spl.Ast.{Expr, and_pair, or_pair, not_of, cmp, in_list, is_null, like, text}
use quetzalog.Spl.Parser.Expression.{
  comparison_op, value_of, is_comma, is_lparen, is_rparen, bare_term,
}

-- `v, v…`
pub data IsValues : List Token → List Text → Type 0 where
  one : {v : Text} (x : Token) → value_of x x.kind ≡ some v → IsValues (x ∷ []) (v ∷ [])
  another :
      {v : Text} {ts : List Token} {vs : List Text} (x c : Token)
      → value_of x x.kind ≡ some v
      → is_comma c.kind ≡ true
      → IsValues ts vs
      → IsValues (x ∷ c ∷ ts) (v ∷ vs)

-- The tokens of `[NOT]` in front of the last word of a predicate.
pub data IsNegation (u : Unicode) : Bool → List Token → Type 0 where
  plain : IsNegation u false []
  negated : (t : Token) → is_keyword u t (codes "not") ≡ true → IsNegation u true (t ∷ [])

pub data IsComparison (u : Unicode) : List Token → Expr → Type 0 where
  compares :
      {v : Text} {ts : List Token} (t o x : Token)
      → t.kind ≡ TokenKind.name
      → comparison_op o ≡ true
      → value_of x x.kind ≡ some v
      → ts ≡ t ∷ o ∷ x ∷ []
      → IsComparison u ts (cmp t.value o.value v)
  is_in :
      {negate : Bool} {ns vs ts : List Token} {values : List Text}
      (t i open_paren close_paren : Token)
      → t.kind ≡ TokenKind.name
      → IsNegation u negate ns
      → is_keyword u i (codes "in") ≡ true
      → is_lparen open_paren.kind ≡ true
      → IsValues vs values
      → is_rparen close_paren.kind ≡ true
      → ts ≡ t ∷ (ns ++ (i ∷ open_paren ∷ (vs ++ (close_paren ∷ []))))
      → IsComparison u ts (in_list t.value negate values)
  is_like :
      {v : Text} {ts : List Token} (t w x : Token)
      → t.kind ≡ TokenKind.name
      → is_keyword u w (codes "like") ≡ true
      → value_of x x.kind ≡ some v
      → ts ≡ t ∷ w ∷ x ∷ []
      → IsComparison u ts (like t.value false v)
  is_nothing :
      {negate : Bool} {ns ts : List Token} (t w n : Token)
      → t.kind ≡ TokenKind.name
      → is_keyword u w (codes "is") ≡ true
      → IsNegation u negate ns
      → is_keyword u n (codes "null") ≡ true
      → ts ≡ t ∷ w ∷ (ns ++ (n ∷ []))
      → IsComparison u ts (is_null t.value negate)
  is_term :
      {ts : List Token} (t : Token)
      → t.kind ≡ TokenKind.name
      → ts ≡ t ∷ []
      → IsComparison u ts (bare_term t.value)
  is_string :
      {ts : List Token} (t : Token)
      → t.kind ≡ TokenKind.string
      → ts ≡ t ∷ []
      → IsComparison u ts (text t.value t.value)
  is_number :
      {ts : List Token} (t : Token)
      → t.kind ≡ TokenKind.number
      → ts ≡ t ∷ []
      → IsComparison u ts (text t.value [])
  is_star :
      {ts : List Token} (t : Token)
      → t.kind ≡ TokenKind.star
      → ts ≡ t ∷ []
      → IsComparison u ts (text (codes "*") [])

mutual
  pub data IsOr (u : Unicode) : List Token → Expr → Type 0 where
    or_one : {ts : List Token} {e : Expr} → IsAnd u ts e → IsOr u ts e
    or_more :
        {xs ys ts : List Token} {a b : Expr} (t : Token)
        → IsOr u xs a
        → is_keyword u t (codes "or") ≡ true
        → IsAnd u ys b
        → ts ≡ xs ++ (t ∷ ys)
        → IsOr u ts (or_pair a b)

  pub data IsAnd (u : Unicode) : List Token → Expr → Type 0 where
    and_one : {ts : List Token} {e : Expr} → IsUnary u ts e → IsAnd u ts e
    and_more :
        {xs ys ts : List Token} {a b : Expr} (t : Token)
        → IsAnd u xs a
        → is_keyword u t (codes "and") ≡ true
        → IsUnary u ys b
        → ts ≡ xs ++ (t ∷ ys)
        → IsAnd u ts (and_pair a b)
    and_next :
        {xs ys ts : List Token} {a b : Expr}
        → IsAnd u xs a
        → IsUnary u ys b
        → ts ≡ xs ++ ys
        → IsAnd u ts (and_pair a b)

  pub data IsUnary (u : Unicode) : List Token → Expr → Type 0 where
    not_more :
        {xs ts : List Token} {a : Expr} (t : Token)
        → is_keyword u t (codes "not") ≡ true
        → IsUnary u xs a
        → ts ≡ t ∷ xs
        → IsUnary u ts (not_of a)
    parens :
        {xs ts : List Token} {a : Expr} (open_paren close_paren : Token)
        → is_lparen open_paren.kind ≡ true
        → IsOr u xs a
        → is_rparen close_paren.kind ≡ true
        → ts ≡ open_paren ∷ (xs ++ (close_paren ∷ []))
        → IsUnary u ts a
    comparison : {ts : List Token} {e : Expr} → IsComparison u ts e → IsUnary u ts e

-- A parse over `ts` that returned `p.0` read some tokens off the front of `ts`, which spell the
-- tree by the grammar's rule `G`, and left `p.1`.
pub record IsParsed (G : List Token → Expr → Type 0) (ts : List Token) (p : Expr × List Token)
    : Type 0 where
  pub used : List Token
  pub splits : ts ≡ used ++ p.1
  pub moves : 0 < length used
  pub derives : G used p.0
