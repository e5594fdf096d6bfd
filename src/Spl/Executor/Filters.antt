-- ===== src/Spl/Executor/Filters.antt =====
-- The filter of aggregated rows in internal/spl/executor/executor.go.
use quetzalog.Base.{
  Bool, true, false, ◌&&◌, ◌+◌, List, [], ◌∷◌, ◌≡◌, refl, ap, ◌∙◌, Text, if◌then◌else◌, length,
  arith,
}
use quetzalog.Spl.Ast.{Expr, and_pair, not_of}
use quetzalog.Spl.Executor.Post.{Values, eval_expr_bool, keep_rows}

module _ {V F : Type 0} (values : Values V F) where
  if_both :
      (x y : Bool) (p q : List (List (Text × V)))
      → (if x then (if y then p else q) else q) ≡ (if x && (y && true) then p else q)
  if_both true true p q = refl
  if_both true false p q = refl
  if_both false y p q = refl

  keep_rows-if :
      (b : Expr) (x : Bool) (row : List (Text × V)) (more : List (List (Text × V)))
      → keep_rows values b (if x then row ∷ more else more) ≡ (
          if x
          then (if eval_expr_bool values row b
              then row ∷ keep_rows values b more
              else keep_rows values b more)
          else keep_rows values b more)
  unfolding keep_rows
  keep_rows-if b true row more = refl
  keep_rows-if b false row more = refl

  -- A where command after another on aggregated rows keeps the rows, and in the order, that one
  -- where command with the conjunction of the two keeps.
  keep_rows-keep_rows :
      (a b : Expr) (rows : List (List (Text × V)))
      → keep_rows values b (keep_rows values a rows) ≡ keep_rows values (and_pair a b) rows
  unfolding keep_rows eval_expr_bool
  keep_rows-keep_rows a b [] = refl
  keep_rows-keep_rows a b (row ∷ rows) =
      let x = eval_expr_bool values row a in
      let y = eval_expr_bool values row b in
      keep_rows-if b x row (keep_rows values a rows)
      ∙ ap (λ more. if x then (if y then row ∷ more else more) else more)
          (keep_rows-keep_rows a b rows)
      ∙ if_both x y (row ∷ keep_rows values (and_pair a b) rows)
          (keep_rows values (and_pair a b) rows)

  -- A where command on aggregated rows and the one with its negation share the rows between them.
  pub length-keep_rows :
      (e : Expr) (rows : List (List (Text × V)))
      → length (keep_rows values e rows) + length (keep_rows values (not_of e) rows) ≡ length rows
  unfolding keep_rows eval_expr_bool
  length-keep_rows e [] = refl
  length-keep_rows e (row ∷ rows) = ground (arith, length-keep_rows e rows)
