-- ===== src/Spl/Parser/Expression/Comparison.antt =====
-- `parseComparison` of internal/spl/parser/parser.go against the grammar in `Grammar`.
use quetzalog.Base.{
  Bool, true, false, not, ◌&&◌, List, [], ◌∷◌, ◌++◌, Text, codes, some, ◌≡◌, refl, ap, sym, ◌∙◌,
  arith, Bool-cases, Option-cases, inl, inr, ok, Ends, Ends-bind, Ends-if, ◌>>=◌, append_assoc,
}
use quetzalog.Spl.Unicode.{Unicode}
use quetzalog.Spl.Lexer.{Token, TokenKind, is_keyword, is_name, is_op}
use quetzalog.Spl.Ast.{Expr, cmp, like}
use quetzalog.Spl.Parser.Expression.{
  cur, advance, peek1, comparison_op, value_of, is_comma, is_lparen, is_rparen, read_value,
  read_values, read_value_list, read_null, parse_name, parse_comparison,
}
use quetzalog.Spl.Parser.Expression.Grammar.{
  IsValues, one, another, IsNegation, plain, negated, IsComparison, compares, is_in, is_like,
  is_nothing, is_term, is_string, is_number, is_star, IsParsed,
}

-- A token that passes a test is no end of the tokens.
pub keyword-eq_cons :
    (u : Unicode) (ts : List Token) (word : Text)
    → is_keyword u (cur ts) word ≡ true
    → ts ≡ cur ts ∷ advance ts
unfolding cur advance is_keyword is_name
keyword-eq_cons u [] word h = cc
keyword-eq_cons u (t ∷ ts) word h = refl

op-eq_cons : (ts : List Token) → comparison_op (cur ts) ≡ true → ts ≡ cur ts ∷ advance ts
unfolding cur advance comparison_op is_op
op-eq_cons [] h = cc
op-eq_cons (t ∷ ts) h = refl

pub lparen-eq_cons : (ts : List Token) → is_lparen (cur ts).kind ≡ true → ts ≡ cur ts ∷ advance ts
unfolding cur advance is_lparen
lparen-eq_cons [] h = cc
lparen-eq_cons (t ∷ ts) h = refl

pub rparen-eq_cons : (ts : List Token) → is_rparen (cur ts).kind ≡ true → ts ≡ cur ts ∷ advance ts
unfolding cur advance is_rparen
rparen-eq_cons [] h = cc
rparen-eq_cons (t ∷ ts) h = refl

pub not-eq_false : {b : Bool} → not b ≡ false → b ≡ true
not-eq_false {b} h = ground arith

abbrev IsRead : List Token → Text × List Token → Type 0
IsRead ts p = (x : Token) × (value_of x x.kind ≡ some p.0) × (ts ≡ x ∷ p.1)

read_value-IsRead : (ts : List Token) → Ends (IsRead ts) (read_value ts)
unfolding read_value cur advance value_of
read_value-IsRead [] = tt
read_value-IsRead (t ∷ ts) = elim (Option-cases (value_of t t.kind)) [
  | inl e ↦ rw (e, Ends) tt
  | inr (v, e) ↦ rw (e, Ends) (t, e, refl)
]

abbrev AreRead : List Token → List Text × List Token → Type 0
AreRead ts p = (xs : List Token) × IsValues xs p.0 × (ts ≡ xs ++ p.1)

read_values-AreRead : (ts : List Token) → Ends (AreRead ts) (read_values ts)
unfolding read_values
read_values-AreRead [] = tt
read_values-AreRead (t ∷ []) = elim (Option-cases (value_of t t.kind)) [
  | inl e ↦ rw (e, Ends) tt
  | inr (v, e) ↦ rw (e, Ends) (t ∷ [], one t e, refl)
]
read_values-AreRead (t ∷ c ∷ ts) = elim (Option-cases (value_of t t.kind)) [
  | inl e ↦ rw (e, Ends) tt
  | inr (v, e) ↦
      rw (e, Ends)
        (elim (Bool-cases (is_comma c.kind)) [
          | inl comma ↦
              rw (comma, Ends)
                (Ends-bind (AreRead ts) _ (read_values ts) _ (read_values-AreRead ts)
                  (λ p h. (t ∷ c ∷ h.0, another t c e comma h.1, ap (λ r. t ∷ c ∷ r) h.2)))
          | inr other ↦ rw (other, Ends) (t ∷ [], one t e, refl)
        ])
]

module _ (u : Unicode) (t : Token) (name : t.kind ≡ TokenKind.name) (ts : List Token) where
  -- What `parse_name` returns is a predicate that begins with the name `t`.
  abbrev IsPredicate : Expr × List Token → Type 0
  IsPredicate = IsParsed (IsComparison u) (t ∷ ts)

  compares-IsPredicate :
      comparison_op (cur ts) ≡ true
      → Ends IsPredicate
          (read_value (advance ts) >>= λ (v, r). ok (cmp t.value (cur ts).value v, r))
  compares-IsPredicate o =
      Ends-bind (IsRead (advance ts)) IsPredicate (read_value (advance ts)) _
        (read_value-IsRead (advance ts))
        λ p (x, e, s). record {
          used = t ∷ cur ts ∷ x ∷ [];
          splits = ap (◌∷◌ t) (op-eq_cons ts o ∙ ap (◌∷◌ (cur ts)) s);
          moves = omega arith;
          derives = compares t (cur ts) x name o e refl;
        }

  like-IsPredicate :
      is_keyword u (cur ts) (codes "like") ≡ true
      → Ends IsPredicate (read_value (advance ts) >>= λ (v, r). ok (like t.value false v, r))
  like-IsPredicate w =
      Ends-bind (IsRead (advance ts)) IsPredicate (read_value (advance ts)) _
        (read_value-IsRead (advance ts))
        λ p (x, e, s). record {
          used = t ∷ cur ts ∷ x ∷ [];
          splits = ap (◌∷◌ t) (keyword-eq_cons u ts (codes "like") w ∙ ap (◌∷◌ (cur ts)) s);
          moves = omega arith;
          derives = is_like t (cur ts) x name w e refl;
        }

  null-IsPredicate :
      (w : Token) (negate : Bool) (ns rest : List Token)
      → is_keyword u w (codes "is") ≡ true
      → IsNegation u negate ns
      → ts ≡ w ∷ (ns ++ rest)
      → Ends IsPredicate (read_null u t.value negate rest)
  unfolding read_null
  null-IsPredicate w negate ns rest is n s =
      Ends-if IsPredicate (is_keyword u (cur rest) (codes "null")) _ _
        (λ h. record {
          used = t ∷ w ∷ (ns ++ (cur rest ∷ []));
          splits = ap (◌∷◌ t) (
              s
              ∙ ap (λ r. w ∷ (ns ++ r)) (keyword-eq_cons u rest (codes "null") h)
              ∙ ap (◌∷◌ w) (sym (append_assoc ns (cur rest ∷ []) (advance rest))));
          moves = omega arith;
          derives = is_nothing t w (cur rest) name is n h refl;
        })
        (λ _. tt)

  in-IsPredicate :
      (i : Token) (negate : Bool) (ns rest : List Token)
      → is_keyword u i (codes "in") ≡ true
      → IsNegation u negate ns
      → ts ≡ ns ++ (i ∷ rest)
      → Ends IsPredicate (read_value_list t.value negate rest)
  unfolding read_value_list
  in-IsPredicate i negate ns rest is n s =
      Ends-if IsPredicate (not (is_lparen (cur rest).kind)) _ _ (λ _. tt)
        λ l.
          Ends-bind (AreRead (advance rest)) IsPredicate (read_values (advance rest)) _
            (read_values-AreRead (advance rest))
            λ p (xs, e, s').
              Ends-if IsPredicate (not (is_rparen (cur p.1).kind)) _ _ (λ _. tt)
                λ r. record {
                  used = t ∷ (ns ++ (i ∷ cur rest ∷ (xs ++ (cur p.1 ∷ []))));
                  splits = simp append_assoc (
                      ap (◌∷◌ t) (
                        s
                        ∙ ap (λ r. ns ++ (i ∷ r))
                            (lparen-eq_cons rest (not-eq_false l)
                              ∙ ap (◌∷◌ (cur rest))
                                  (s' ∙ ap (◌++◌ xs) (rparen-eq_cons p.1 (not-eq_false r))))));
                  moves = omega arith;
                  derives =
                      is_in t i (cur rest) (cur p.1) name n is (not-eq_false l) e (not-eq_false r)
                        refl;
                }

  parse_name-IsPredicate : Ends IsPredicate (parse_name u t ts)
  unfolding parse_name
  parse_name-IsPredicate =
      Ends-if IsPredicate (comparison_op (cur ts)) _ _ compares-IsPredicate λ _.
        Ends-if IsPredicate (is_keyword u (cur ts) (codes "in")) _ _
          (λ h.
            in-IsPredicate (cur ts) false [] (advance ts) h plain
              (keyword-eq_cons u ts (codes "in") h))
          λ _.
            Ends-if IsPredicate
              (is_keyword u (cur ts) (codes "not") && is_keyword u (peek1 ts) (codes "in")) _ _
              (λ h.
                let (n, i) : (is_keyword u (cur ts) (codes "not") ≡ true)
                    × (is_keyword u (peek1 ts) (codes "in") ≡ true) =
                  ground arith in
                in-IsPredicate (peek1 ts) true (cur ts ∷ []) (advance (advance ts)) i
                  (negated (cur ts) n)
                  (keyword-eq_cons u ts (codes "not") n
                    ∙ ap (◌∷◌ (cur ts)) (keyword-eq_cons u (advance ts) (codes "in") i)))
              λ _.
                Ends-if IsPredicate (is_keyword u (cur ts) (codes "like")) _ _ like-IsPredicate λ _.
                  Ends-if IsPredicate (is_keyword u (cur ts) (codes "is")) _ _
                    (λ w.
                      Ends-if IsPredicate (is_keyword u (peek1 ts) (codes "not")) _ _
                        (λ n.
                          null-IsPredicate (cur ts) true (peek1 ts ∷ []) (advance (advance ts)) w
                            (negated (peek1 ts) n)
                            (keyword-eq_cons u ts (codes "is") w
                              ∙ ap (◌∷◌ (cur ts)) (keyword-eq_cons u (advance ts) (codes "not") n)))
                        (λ _.
                          null-IsPredicate (cur ts) false [] (advance ts) w plain
                            (keyword-eq_cons u ts (codes "is") w)))
                    (λ _. record {
                      used = t ∷ [];
                      splits = refl;
                      moves = omega arith;
                      derives = is_term t name refl;
                    })

pub parse_comparison-IsParsed :
    (u : Unicode) (t : Token) (kind : TokenKind) (ts : List Token)
    → t.kind ≡ kind
    → Ends (IsParsed (IsComparison u) (t ∷ ts)) (parse_comparison u t kind ts)
unfolding parse_comparison
parse_comparison-IsParsed u t TokenKind.name ts h = parse_name-IsPredicate u t h ts
parse_comparison-IsParsed u t TokenKind.string ts h = record {
  used = t ∷ [];
  splits = refl;
  moves = omega arith;
  derives = is_string t h refl;
}
parse_comparison-IsParsed u t TokenKind.number ts h = record {
  used = t ∷ [];
  splits = refl;
  moves = omega arith;
  derives = is_number t h refl;
}
parse_comparison-IsParsed u t TokenKind.star ts h = record {
  used = t ∷ [];
  splits = refl;
  moves = omega arith;
  derives = is_star t h refl;
}
parse_comparison-IsParsed u t _ ts h = tt
