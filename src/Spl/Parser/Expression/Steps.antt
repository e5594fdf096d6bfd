-- ===== src/Spl/Parser/Expression/Steps.antt =====
-- The rules of the grammar applied to parses, for `parseOr` to `parsePrimary` of
-- internal/spl/parser/parser.go.
use quetzalog.Base.{
  ◌+◌, ◌<◌, true, List, [], ◌∷◌, ◌++◌, Text, length, codes, ◌≡◌, refl, ap, sym, ◌∙◌, arith, Ends,
  Ends-map, append_assoc, length-append,
}
use quetzalog.Spl.Unicode.{Unicode}
use quetzalog.Spl.Lexer.{Token, is_keyword}
use quetzalog.Spl.Ast.{Expr, and_pair, or_pair, not_of}
use quetzalog.Spl.Parser.Expression.{cur, advance, is_lparen, is_rparen, parse_comparison}
use quetzalog.Spl.Parser.Expression.Grammar.{
  IsComparison, IsOr, or_more, IsAnd, and_more, and_next, IsUnary, not_more, parens, comparison,
  IsParsed,
}
use quetzalog.Spl.Parser.Expression.Comparison.{
  keyword-eq_cons, lparen-eq_cons, rparen-eq_cons, parse_comparison-IsParsed,
}

-- What is left behind a parse is shorter.
pub length-IsParsed :
    {G : List Token → Expr → Type 0} {ts : List Token} {p : Expr × List Token}
    → IsParsed G ts p
    → length p.1 < length ts
length-IsParsed {p} h = omega (arith, ap length h.splits, length-append h.used p.1, h.moves)

module _ (u : Unicode) {whole : List Token} {a b : Expr} (ts r : List Token) where
  pub IsParsed-IsOr :
      IsParsed (IsOr u) whole (a, ts)
      → is_keyword u (cur ts) (codes "or") ≡ true
      → IsParsed (IsAnd u) (advance ts) (b, r)
      → IsParsed (IsOr u) whole (or_pair a b, r)
  IsParsed-IsOr p k q = record {
    used = p.used ++ (cur ts ∷ q.used);
    splits =
        p.splits
        ∙ ap (◌++◌ p.used) (keyword-eq_cons u ts (codes "or") k ∙ ap (◌∷◌ (cur ts)) q.splits)
        ∙ sym (append_assoc p.used (cur ts ∷ q.used) r);
    moves = omega (arith, length-append p.used (cur ts ∷ q.used));
    derives = or_more (cur ts) p.derives k q.derives refl;
  }

  pub IsParsed-IsAnd :
      IsParsed (IsAnd u) whole (a, ts)
      → is_keyword u (cur ts) (codes "and") ≡ true
      → IsParsed (IsUnary u) (advance ts) (b, r)
      → IsParsed (IsAnd u) whole (and_pair a b, r)
  IsParsed-IsAnd p k q = record {
    used = p.used ++ (cur ts ∷ q.used);
    splits =
        p.splits
        ∙ ap (◌++◌ p.used) (keyword-eq_cons u ts (codes "and") k ∙ ap (◌∷◌ (cur ts)) q.splits)
        ∙ sym (append_assoc p.used (cur ts ∷ q.used) r);
    moves = omega (arith, length-append p.used (cur ts ∷ q.used));
    derives = and_more (cur ts) p.derives k q.derives refl;
  }

  pub IsParsed-next :
      IsParsed (IsAnd u) whole (a, ts)
      → IsParsed (IsUnary u) ts (b, r)
      → IsParsed (IsAnd u) whole (and_pair a b, r)
  IsParsed-next p q = record {
    used = p.used ++ q.used;
    splits = p.splits ∙ ap (◌++◌ p.used) q.splits ∙ sym (append_assoc p.used q.used r);
    moves = omega (arith, length-append p.used q.used, p.moves);
    derives = and_next p.derives q.derives refl;
  }

module _ (u : Unicode) {a : Expr} (ts r : List Token) where
  pub IsParsed-not :
      is_keyword u (cur ts) (codes "not") ≡ true
      → IsParsed (IsUnary u) (advance ts) (a, r)
      → IsParsed (IsUnary u) ts (not_of a, r)
  IsParsed-not k q = record {
    used = cur ts ∷ q.used;
    splits = keyword-eq_cons u ts (codes "not") k ∙ ap (◌∷◌ (cur ts)) q.splits;
    moves = omega arith;
    derives = not_more (cur ts) k q.derives refl;
  }

  pub IsParsed-parens :
      is_lparen (cur ts).kind ≡ true
      → IsParsed (IsOr u) (advance ts) (a, r)
      → is_rparen (cur r).kind ≡ true
      → IsParsed (IsUnary u) ts (a, advance r)
  IsParsed-parens l q e = record {
    used = cur ts ∷ (q.used ++ (cur r ∷ []));
    splits =
        lparen-eq_cons ts l
        ∙ ap (◌∷◌ (cur ts)) (
            q.splits
            ∙ ap (◌++◌ q.used) (rparen-eq_cons r e)
            ∙ sym (append_assoc q.used (cur r ∷ []) (advance r)));
    moves = omega arith;
    derives = parens (cur ts) (cur r) l q.derives e refl;
  }

pub IsParsed-map :
    {G H : List Token → Expr → Type 0} {ts : List Token} {p : Expr × List Token}
    → ((us : List Token) → G us p.0 → H us p.0)
    → IsParsed G ts p
    → IsParsed H ts p
IsParsed-map f h = record {
  used = h.used;
  splits = h.splits;
  moves = h.moves;
  derives = f h.used h.derives;
}

-- At the end of the tokens no predicate is parsed.
pub parse_comparison-cur :
    (u : Unicode) (ts : List Token)
    → Ends (IsParsed (IsUnary u) ts) (parse_comparison u (cur ts) (cur ts).kind (advance ts))
unfolding cur advance
parse_comparison-cur u [] = unfold parse_comparison in tt
parse_comparison-cur u (t ∷ ts) =
    Ends-map (IsParsed (IsComparison u) (t ∷ ts)) (IsParsed (IsUnary u) (t ∷ ts)) _
      (parse_comparison-IsParsed u t t.kind ts refl) (λ p h. IsParsed-map (λ us c. comparison c) h)

pub length-advance_keyword :
    (u : Unicode) (ts : List Token) (word : Text)
    → is_keyword u (cur ts) word ≡ true
    → length ts ≡ length (advance ts) + 1
length-advance_keyword u ts word k = omega (arith, ap length (keyword-eq_cons u ts word k))
