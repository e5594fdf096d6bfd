-- ===== src/Spl/Ast/Flattened.antt =====
-- What `exprToConditions` of internal/spl/ast/command.go makes of an expression.
use quetzalog.Base.{
  Bool, true, false, not, ◌&&◌, ◌||◌, List, [], ◌∷◌, ◌++◌, ◌≡◌, refl, ap, ◌∙◌, Option, none, some,
  arith,
}
use quetzalog.Spl.Ast.{
  Expr, Exprs, cmp, and_of, nil, cons, Condition, condition_exprs, conditions_to_expr,
}
use quetzalog.Spl.Ast.Decode.{walk, walk_all, expr_to_conditions}

abbrev pub none_left : List Condition → Bool
none_left [] = true
none_left (c ∷ cs) = false

-- Whether an expression is a comparison or a conjunction of such, and whether it has one.
unfoldable mutual
  pub is_conjunctive : Expr → Bool
  is_conjunctive (cmp field op value) = true
  is_conjunctive (and_of es) = all_conjunctive es
  is_conjunctive _ = false

  pub all_conjunctive : Exprs → Bool
  all_conjunctive nil = true
  all_conjunctive (cons e es) = is_conjunctive e && all_conjunctive es

unfoldable mutual
  pub has_cmp : Expr → Bool
  has_cmp (cmp field op value) = true
  has_cmp (and_of es) = any_cmp es
  has_cmp _ = false

  pub any_cmp : Exprs → Bool
  any_cmp nil = false
  any_cmp (cons e es) = has_cmp e || any_cmp es

-- What `walk` gathers of an expression.
abbrev Walked : Bool → Bool → Option (List Condition) → Type 0
Walked plain_ some_ none = plain_ ≡ false
Walked plain_ some_ (some cs) = (plain_ ≡ true) × (none_left cs ≡ not some_)

none_left-append : (cs ds : List Condition) → none_left (cs ++ ds) ≡ none_left cs && none_left ds
none_left-append [] ds = refl
none_left-append (c ∷ cs) ds = refl

Walked-cons :
    (p q x y : Bool) (o r : Option (List Condition))
    → Walked p x o
    → Walked q y r
    → Walked
        (p && q)
        (x || y)
        (elim o [ none ↦ none | some cs ↦ elim r [ none ↦ none | some ds ↦ some (cs ++ ds) ] ])
Walked-cons p q x y none r h k = ground (arith, h)
Walked-cons p q x y (some cs) none h k = ground (arith, k)
Walked-cons p q x y (some cs) (some ds) h k =
    (ground (arith, h.0, k.0), none_left-append cs ds ∙ ground (arith, h.1, k.1))

mutual
  unfolding is_conjunctive has_cmp walk

  walk-Walked : (e : Expr) → Walked (is_conjunctive e) (has_cmp e) (walk e)
  walk-Walked (cmp field op value) = (refl, refl)
  walk-Walked (and_of es) = walk_all-Walked es
  walk-Walked _ = refl

  walk_all-Walked : (es : Exprs) → Walked (all_conjunctive es) (any_cmp es) (walk_all es)
  walk_all-Walked nil = (refl, refl)
  walk_all-Walked (cons e es) =
      Walked-cons (is_conjunctive e) (all_conjunctive es) (has_cmp e) (any_cmp es) (walk e)
        (walk_all es) (walk-Walked e) (walk_all-Walked es)

none_left-Walked :
    (p x : Bool) (o : Option (List Condition))
    → Walked p x o
    → none_left (elim o [ none ↦ [] | some cs ↦ cs ]) ≡ not (p && x)
none_left-Walked p x none h = ground (arith, h)
none_left-Walked p x (some cs) h = ground (arith, h.0, h.1)

pub none_left-expr_to_conditions :
    (e : Expr) → none_left (expr_to_conditions (some e)) ≡ not (is_conjunctive e && has_cmp e)
unfolding expr_to_conditions
none_left-expr_to_conditions e =
    none_left-Walked (is_conjunctive e) (has_cmp e) (walk e) (walk-Walked e)

walk_all-condition_exprs : (cs : List Condition) → walk_all (condition_exprs cs) ≡ some cs
unfolding walk condition_exprs
walk_all-condition_exprs [] = refl
walk_all-condition_exprs (c ∷ cs) =
    ap (λ o. elim o [ none ↦ none | some ds ↦ some (c ∷ ds) ]) (walk_all-condition_exprs cs)

-- The expression that `conditionsToExpr` makes of any conditions is flattened by `exprToConditions`
-- to the same conditions, in their order.
pub expr_to_conditions-conditions_to_expr :
    (cs : List Condition) → expr_to_conditions (conditions_to_expr cs) ≡ cs
unfolding expr_to_conditions conditions_to_expr walk
expr_to_conditions-conditions_to_expr [] = refl
expr_to_conditions-conditions_to_expr (c ∷ []) = refl
expr_to_conditions-conditions_to_expr (c ∷ d ∷ cs) =
    ap (λ o. elim o [ none ↦ [] | some ds ↦ ds ]) (walk_all-condition_exprs (c ∷ d ∷ cs))
