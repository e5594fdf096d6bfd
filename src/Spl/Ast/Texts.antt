-- ===== src/Spl/Ast/Texts.antt =====
-- The texts and numbers of a command as internal/spl/ast/command.go sends it, for what encoding/json
-- can carry: valid UTF-8 and Go integers.
use quetzalog.Base.{
  ℤ, pos, negsuc, ◌^◌, ltb, Bool, true, ◌&&◌, List, [], ◌∷◌, Text, Option, none, some,
}
use quetzalog.Spl.Ast.{
  Expr, Exprs, and_of, or_of, not_of, cmp, in_list, is_null, like, text, nil, cons, Condition,
  Aggregation, SortField,
}
use quetzalog.Spl.Ast.Wire.{Wire}

-- Whether a number is one of 64 bits with a sign.
abbrev pub is_int : ℤ → Bool
is_int (pos n) = ltb n (2 ^ 63)
is_int (negsuc n) = ltb n (2 ^ 63)

module _ (valid : Text → Bool) where
  unfoldable pub all_valid : List Text → Bool
  all_valid [] = true
  all_valid (t ∷ ts) = valid t && all_valid ts

  unfoldable pub pairs_valid : List (Text × Text) → Bool
  pairs_valid [] = true
  pairs_valid ((k, v) ∷ m) = valid k && valid v && pairs_valid m

  unfoldable pub conditions_valid : List Condition → Bool
  conditions_valid [] = true
  conditions_valid (c ∷ cs) =
      valid c.field && valid c.operator && valid c.value && conditions_valid cs

  abbrev pub agg_valid : Aggregation → Bool
  agg_valid a = valid a.function && valid a.field && valid a.alias

  unfoldable pub aggs_valid : List Aggregation → Bool
  aggs_valid [] = true
  aggs_valid (a ∷ more) = agg_valid a && aggs_valid more

  unfoldable pub keys_valid : List SortField → Bool
  keys_valid [] = true
  keys_valid (k ∷ keys) = valid k.field && keys_valid keys

  unfoldable mutual
    unfolding all_valid

    pub expr_valid : Expr → Bool
    expr_valid (and_of es) = exprs_valid es
    expr_valid (or_of es) = exprs_valid es
    expr_valid (not_of e) = expr_valid e
    expr_valid (cmp field op value) = valid field && valid op && valid value
    expr_valid (in_list field negate values) = valid field && all_valid values
    expr_valid (is_null field negate) = valid field
    expr_valid (like field negate pat) = valid field && valid pat
    expr_valid (text value pat) = valid value && valid pat

    pub exprs_valid : Exprs → Bool
    exprs_valid nil = true
    exprs_valid (cons e es) = expr_valid e && exprs_valid es

  abbrev if_expr : Option Expr → Bool
  if_expr none = true
  if_expr (some e) = expr_valid e

  abbrev if_agg : Option Aggregation → Bool
  if_agg none = true
  if_agg (some a) = agg_valid a

  -- Whether all texts of a command are valid and its numbers are Go integers.
  unfoldable pub is_sendable : Wire → Bool
  unfolding all_valid pairs_valid conditions_valid aggs_valid keys_valid expr_valid
  is_sendable w =
      all_valid (
        w.kind ∷ w.text ∷ w.span ∷ w.field ∷ w.lookup ∷ w.pat ∷ w.alias ∷ w.mode ∷ w.name ∷ w.raw
        ∷ w.columns)
      && all_valid w.group_by
      && all_valid w.output_fields
      && pairs_valid w.fields
      && pairs_valid w.assignments
      && pairs_valid w.mappings
      && conditions_valid w.conditions
      && if_expr w.expr
      && aggs_valid w.aggs
      && if_agg w.agg
      && keys_valid w.sort
      && is_int w.n
      && is_int w.window
