-- ===== src/Spl/Parser/Expression/Sound.antt =====
-- The expression parser of internal/spl/parser/parser.go against the grammar in `Grammar`.
use quetzalog.Base.{
  ℕ, zero, suc, ◌+◌, ◌*◌, ◌≤◌, true, false, not, List, [], ◌∷◌, ◌++◌, length, codes, ◌≡◌, refl, ap,
  sym, ◌∙◌, arith, Ends, Ends-bind, Ends-if, append-nil, subst,
}
use quetzalog.Spl.Unicode.{Unicode}
use quetzalog.Spl.Lexer.{Token, is_keyword, is_eof}
use quetzalog.Spl.Ast.{Expr, and_pair, or_pair}
use quetzalog.Spl.Parser.Expression.{
  cur, advance, is_lparen, is_rparen, starts_operand, parse_or, or_loop, parse_and, and_loop,
  parse_unary, parse_primary, depth_bound, parse_expr_tokens,
}
use quetzalog.Spl.Parser.Expression.Grammar.{IsOr, or_one, IsAnd, and_one, IsUnary, IsParsed}
use quetzalog.Spl.Parser.Expression.Comparison.{lparen-eq_cons, not-eq_false}
use quetzalog.Spl.Parser.Expression.Steps.{
  length-IsParsed, IsParsed-IsOr, IsParsed-IsAnd, IsParsed-next, IsParsed-not, IsParsed-parens,
  IsParsed-map, parse_comparison-cur, length-advance_keyword,
}

mutual
  unfolding parse_or or_loop parse_and and_loop parse_unary parse_primary

  IsOr-IsParsed :
      (fuel : ℕ) (u : Unicode) (ts : List Token)
      → 4 * length ts + 4 ≤ fuel
      → Ends (IsParsed (IsOr u) ts) (parse_or fuel u ts)
  IsOr-IsParsed zero u ts h = absurd (omega arith)
  IsOr-IsParsed (suc fuel) u ts h =
      Ends-bind (IsParsed (IsAnd u) ts) (IsParsed (IsOr u) ts) (parse_and fuel u ts) _
        (IsAnd-IsParsed fuel u ts (omega arith))
        λ (left, r) p.
          or_loop-IsParsed fuel u left r ts (IsParsed-map (λ us. or_one) p)
            (omega (arith, length-IsParsed p))

  or_loop-IsParsed :
      (fuel : ℕ) (u : Unicode) (left : Expr) (ts whole : List Token)
      → IsParsed (IsOr u) whole (left, ts)
      → 4 * length ts + 3 ≤ fuel
      → Ends (IsParsed (IsOr u) whole) (or_loop fuel u left ts)
  or_loop-IsParsed zero u left ts whole p h = absurd (omega arith)
  or_loop-IsParsed (suc fuel) u left ts whole p h =
      Ends-if (IsParsed (IsOr u) whole) (is_keyword u (cur ts) (codes "or")) _ _
        (λ k.
          Ends-bind (IsParsed (IsAnd u) (advance ts)) (IsParsed (IsOr u) whole)
            (parse_and fuel u (advance ts)) _
            (IsAnd-IsParsed fuel u (advance ts)
              (omega (arith, length-advance_keyword u ts (codes "or") k)))
            λ (right, r) q.
              or_loop-IsParsed fuel u (or_pair left right) r whole (IsParsed-IsOr u ts r p k q)
                (omega (arith, length-IsParsed q, length-advance_keyword u ts (codes "or") k)))
        (λ _. p)

  IsAnd-IsParsed :
      (fuel : ℕ) (u : Unicode) (ts : List Token)
      → 4 * length ts + 3 ≤ fuel
      → Ends (IsParsed (IsAnd u) ts) (parse_and fuel u ts)
  IsAnd-IsParsed zero u ts h = absurd (omega arith)
  IsAnd-IsParsed (suc fuel) u ts h =
      Ends-bind (IsParsed (IsUnary u) ts) (IsParsed (IsAnd u) ts) (parse_unary fuel u ts) _
        (IsUnary-IsParsed fuel u ts (omega arith))
        λ (left, r) p.
          and_loop-IsParsed fuel u left r ts (IsParsed-map (λ us. and_one) p)
            (omega (arith, length-IsParsed p))

  and_loop-IsParsed :
      (fuel : ℕ) (u : Unicode) (left : Expr) (ts whole : List Token)
      → IsParsed (IsAnd u) whole (left, ts)
      → 4 * length ts + 3 ≤ fuel
      → Ends (IsParsed (IsAnd u) whole) (and_loop fuel u left ts)
  and_loop-IsParsed zero u left ts whole p h = absurd (omega arith)
  and_loop-IsParsed (suc fuel) u left ts whole p h =
      Ends-if (IsParsed (IsAnd u) whole) (is_keyword u (cur ts) (codes "and")) _ _
        (λ k.
          Ends-bind (IsParsed (IsUnary u) (advance ts)) (IsParsed (IsAnd u) whole)
            (parse_unary fuel u (advance ts)) _
            (IsUnary-IsParsed fuel u (advance ts)
              (omega (arith, length-advance_keyword u ts (codes "and") k)))
            λ (right, r) q.
              and_loop-IsParsed fuel u (and_pair left right) r whole (IsParsed-IsAnd u ts r p k q)
                (omega (arith, length-IsParsed q, length-advance_keyword u ts (codes "and") k)))
        (λ _.
          Ends-if (IsParsed (IsAnd u) whole) (starts_operand u (cur ts) (cur ts).kind) _ _
            (λ _.
              Ends-bind (IsParsed (IsUnary u) ts) (IsParsed (IsAnd u) whole) (parse_unary fuel u ts)
                _ (IsUnary-IsParsed fuel u ts (omega arith))
                λ (right, r) q.
                  and_loop-IsParsed fuel u (and_pair left right) r whole (IsParsed-next u ts r p q)
                    (omega (arith, length-IsParsed q)))
            (λ _. p))

  IsUnary-IsParsed :
      (fuel : ℕ) (u : Unicode) (ts : List Token)
      → 4 * length ts + 2 ≤ fuel
      → Ends (IsParsed (IsUnary u) ts) (parse_unary fuel u ts)
  IsUnary-IsParsed zero u ts h = absurd (omega arith)
  IsUnary-IsParsed (suc fuel) u ts h =
      Ends-if (IsParsed (IsUnary u) ts) (is_keyword u (cur ts) (codes "not")) _ _
        (λ k.
          Ends-bind (IsParsed (IsUnary u) (advance ts)) (IsParsed (IsUnary u) ts)
            (parse_unary fuel u (advance ts)) _
            (IsUnary-IsParsed fuel u (advance ts)
              (omega (arith, length-advance_keyword u ts (codes "not") k)))
            λ (inner, r) q. IsParsed-not u ts r k q)
        (λ _. primary-IsParsed fuel u ts (omega arith))

  primary-IsParsed :
      (fuel : ℕ) (u : Unicode) (ts : List Token)
      → 4 * length ts + 1 ≤ fuel
      → Ends (IsParsed (IsUnary u) ts) (parse_primary fuel u ts)
  primary-IsParsed zero u ts h = absurd (omega arith)
  primary-IsParsed (suc fuel) u ts h =
      Ends-if (IsParsed (IsUnary u) ts) (is_lparen (cur ts).kind) _ _
        (λ l.
          Ends-bind (IsParsed (IsOr u) (advance ts)) (IsParsed (IsUnary u) ts)
            (parse_or fuel u (advance ts)) _
            (IsOr-IsParsed fuel u (advance ts) (omega (arith, ap length (lparen-eq_cons ts l))))
            λ (inner, r) q.
              Ends-if (IsParsed (IsUnary u) ts) (not (is_rparen (cur r).kind)) _ _ (λ _. tt)
                λ e. IsParsed-parens u ts r l q (not-eq_false e))
        (λ _.
          Ends-if (IsParsed (IsUnary u) ts) (is_keyword u (cur ts) (codes "not")) _ _
            (λ k.
              Ends-bind (IsParsed (IsUnary u) (advance ts)) (IsParsed (IsUnary u) ts)
                (parse_unary fuel u (advance ts)) _
                (IsUnary-IsParsed fuel u (advance ts)
                  (omega (arith, length-advance_keyword u ts (codes "not") k)))
                λ (inner, r) q. IsParsed-not u ts r k q)
            (λ _. parse_comparison-cur u ts))

-- No token of the list is the end of the input. `splitPipes` hands on such lists alone.
abbrev pub NoEof : List Token → Type 0
NoEof [] = Unit
NoEof (t ∷ ts) = (is_eof t.kind ≡ false) × NoEof ts

NoEof-append : (ts us : List Token) → NoEof (ts ++ us) → NoEof us
NoEof-append [] us h = h
NoEof-append (t ∷ ts) us h = NoEof-append ts us h.1

eof-eq_nil : (ts : List Token) → NoEof ts → is_eof (cur ts).kind ≡ true → ts ≡ []
unfolding cur
eof-eq_nil [] h e = refl
eof-eq_nil (t ∷ ts) h e = absurd (ground arith)

-- On every list of tokens with no end-of-input token, `parseExprTokens` ends, with an error or with
-- a tree that the whole list spells by the grammar: AND binds tighter than OR, NOT tighter than
-- both, and all tokens are read.
pub parse_expr_tokens-IsOr :
    (u : Unicode) (ts : List Token) → NoEof ts → Ends (IsOr u ts) (parse_expr_tokens u ts)
unfolding parse_expr_tokens
parse_expr_tokens-IsOr u ts h =
    Ends-bind (IsParsed (IsOr u) ts) (IsOr u ts) (parse_or (depth_bound ts) u ts) _
      (IsOr-IsParsed (depth_bound ts) u ts (omega arith))
      λ (e, r) p.
        Ends-if (IsOr u ts) (is_eof (cur r).kind) _ _
          (λ end.
            let left : r ≡ [] = eof-eq_nil r (NoEof-append p.used r (subst NoEof p.splits h)) end in
            let whole : p.used ≡ ts = sym (p.splits ∙ ap (◌++◌ p.used) left ∙ append-nil p.used) in
            subst (λ us. IsOr u us e) whole p.derives)
          (λ _. tt)

-- It ends on the other lists too.
pub parse_expr_tokens-Ends :
    (u : Unicode) (ts : List Token) → Ends (λ _. Unit {0}) (parse_expr_tokens u ts)
unfolding parse_expr_tokens
parse_expr_tokens-Ends u ts =
    Ends-bind (IsParsed (IsOr u) ts) (λ _. Unit {0}) (parse_or (depth_bound ts) u ts) _
      (IsOr-IsParsed (depth_bound ts) u ts (omega arith))
      λ (e, r) p. Ends-if (λ _. Unit {0}) (is_eof (cur r).kind) _ _ (λ _. tt) (λ _. tt)
