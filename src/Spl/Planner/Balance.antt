-- ===== src/Spl/Planner/Balance.antt =====
-- The arguments bound by the expressions of internal/spl/planner/planner.go.
use quetzalog.Base.{
  Bool, true, false, List, [], ◌∷◌, ◌++◌, map, Text, codes, equal, not, Option, none, some, ◌≡◌,
  refl, ◌∙◌, length, length-append, if_rule, arith,
}
use quetzalog.Spl.Unicode.{Unicode}
use quetzalog.Spl.Ast.{
  Expr, Exprs, and_of, or_of, not_of, cmp, in_list, is_null, like, text, nil, cons,
}
use quetzalog.Spl.Planner.Fields.{
  Field, column, attribute, index, unknown, resolve_field, json_extract, cast_as,
}
use quetzalog.Spl.Planner.Where.{
  Sql, is_equality, null_test, side_of, null_predicate, marks_of, index_predicate, column_of,
  in_side, in_predicate, like_side, like_predicate, text_predicate, column_sql, expr_to_sql,
  exprs_to_sql, matches_all,
}
use quetzalog.Spl.Planner.Marks.{
  marks, all_marks, marks-append, marks-sql_op, marks-join_texts, marks-join_parts, IsUnmarked,
  resolve_field-IsUnmarked,
}

-- As many placeholders as arguments.
unfoldable pub IsBalanced : {F T : Type 0} → Sql F T → Type 0
IsBalanced (sql, bound) = marks sql ≡ length bound

pub marks-cast_as :
    (type key : Text) → marks type ≡ 0 → marks key ≡ 0 → marks (cast_as type key) ≡ 0
unfolding cast_as json_extract marks
marks-cast_as type key h k = simp (marks-append, h, k) refl

-- What stands on the left of IN and LIKE.
unfoldable IsSide : Option Text → Type 0
IsSide (some side) = marks side ≡ 0
IsSide none = Unit

side_of-IsSide : (f : Field) → IsUnmarked f → IsSide (side_of f)
unfolding side_of IsSide IsUnmarked marks
side_of-IsSide (column c) h = h
side_of-IsSide (attribute key) h = marks-cast_as (codes "TEXT") key refl h
side_of-IsSide index h = tt
side_of-IsSide unknown h = tt

all_marks-marks_of : (values : List Text) → all_marks (marks_of values) ≡ length values
unfolding all_marks marks
all_marks-marks_of [] = refl
all_marks-marks_of (v ∷ vs) = omega (arith, all_marks-marks_of vs)

length-map : {A B : Type 0} (f : A → B) (xs : List A) → length (map f xs) ≡ length xs
length-map f [] = refl
length-map f (x ∷ xs) = omega (arith, length-map f xs)

module _ {F : Type 0} (T : Type 0) (parse_float : Text → Option F) where
  index_predicate-IsBalanced :
      (op value : Text) → IsBalanced (index_predicate {T = T} parse_float op value)
  unfolding index_predicate IsBalanced marks
  index_predicate-IsBalanced op value =
      if_rule (IsBalanced {F = F} {T = T}) (not (is_equality op)) _ _
        (λ _. simp (marks-append, marks-sql_op op) refl)
        (λ _.
          if_rule
            (λ t.
              marks (
                t
                ++ codes
                    "(source_type = ? OR source = ? OR CAST(json_extract(attributes, '$.\"index\"') AS TEXT) = ?)")
              ≡ 3)
            (equal op (codes "!=")) _ _ (λ _. refl) (λ _. refl))

  pub column_of-IsBalanced :
      (f : Field) (op value : Text)
      → IsUnmarked f
      → IsBalanced (column_of {T = T} parse_float f op value)
  unfolding column_of IsBalanced IsUnmarked marks
  column_of-IsBalanced index op value h = index_predicate-IsBalanced op value
  column_of-IsBalanced (column c) op value h = simp (marks-append, marks-sql_op op, h) refl
  column_of-IsBalanced (attribute key) op value h =
      if_rule (IsBalanced {F = F} {T = T}) (is_equality op) _ _
        (λ _. simp (marks-append, marks-sql_op op, marks-cast_as (codes "TEXT") key refl h) refl)
        (λ _. simp (marks-append, marks-sql_op op, marks-cast_as (codes "REAL") key refl h) refl)
  column_of-IsBalanced unknown op value h = refl

  in_side-IsBalanced :
      (negate : Bool) (values : List Text) (side : Option Text)
      → IsSide side
      → IsBalanced (in_side {T = T} parse_float negate values side)
  unfolding IsBalanced IsSide marks
  in_side-IsBalanced negate values none h = refl
  in_side-IsBalanced true values (some side) h =
      simp
        (
          marks-append,
          h,
          marks-join_texts (codes ", ") (marks_of values) refl,
          all_marks-marks_of values,
          length-map,
        )
        (omega arith)
  in_side-IsBalanced false values (some side) h =
      simp
        (
          marks-append,
          h,
          marks-join_texts (codes ", ") (marks_of values) refl,
          all_marks-marks_of values,
          length-map,
        )
        (omega arith)

  in_predicate-IsBalanced :
      (f : Field) (negate : Bool) (values : List Text)
      → IsUnmarked f
      → IsBalanced (in_predicate {T = T} parse_float f negate values)
  unfolding in_predicate IsBalanced marks side_of
  in_predicate-IsBalanced f true [] h = refl
  in_predicate-IsBalanced f false [] h = refl
  in_predicate-IsBalanced f negate (v ∷ vs) h =
      in_side-IsBalanced negate (v ∷ vs) (side_of f) (side_of-IsSide f h)

  like_side-IsBalanced :
      (negate : Bool) (pat : Text) (side : Option Text)
      → IsSide side
      → IsBalanced (like_side {T = T} parse_float negate pat side)
  unfolding IsBalanced IsSide marks
  like_side-IsBalanced negate pat none h = refl
  like_side-IsBalanced true pat (some side) h = simp (marks-append, h) refl
  like_side-IsBalanced false pat (some side) h = simp (marks-append, h) refl

  pub text_predicate-IsBalanced :
      (term : Text) → IsBalanced (text_predicate {T = T} parse_float term)
  unfolding text_predicate IsBalanced marks
  text_predicate-IsBalanced term =
      if_rule (IsBalanced {F = F} {T = T}) (matches_all term) _ _ (λ _. refl) (λ _. refl)

null_predicate-unmarked :
    (f : Field) (negate : Bool) → IsUnmarked f → marks (null_predicate f negate) ≡ 0
unfolding null_predicate null_test json_extract IsUnmarked marks
null_predicate-unmarked (column c) true h = simp (marks-append, h) refl
null_predicate-unmarked (column c) false h = simp (marks-append, h) refl
null_predicate-unmarked (attribute key) true h = simp (marks-append, h) refl
null_predicate-unmarked (attribute key) false h = simp (marks-append, h) refl
null_predicate-unmarked index negate h = refl
null_predicate-unmarked unknown negate h = refl

module _ {F : Type 0} (T : Type 0) (u : Unicode) (parse_float : Text → Option F) where
  mutual
    unfolding expr_to_sql exprs_to_sql column_sql like_predicate IsBalanced marks all_marks

    pub expr_to_sql-IsBalanced : (e : Expr) → IsBalanced (expr_to_sql {T = T} u parse_float e)
    expr_to_sql-IsBalanced (and_of es) =
        marks-join_parts (codes " AND ") (exprs_to_sql {T = T} u parse_float es).0 refl
        ∙ exprs_to_sql-IsBalanced es
    expr_to_sql-IsBalanced (or_of es) =
        marks-join_parts (codes " OR ") (exprs_to_sql {T = T} u parse_float es).0 refl
        ∙ exprs_to_sql-IsBalanced es
    expr_to_sql-IsBalanced (not_of e) = simp (marks-append, expr_to_sql-IsBalanced e) (omega arith)
    expr_to_sql-IsBalanced (cmp field op value) =
        column_of-IsBalanced T parse_float (resolve_field u field) op value
          (resolve_field-IsUnmarked u field)
    expr_to_sql-IsBalanced (in_list field negate values) =
        in_predicate-IsBalanced T parse_float (resolve_field u field) negate values
          (resolve_field-IsUnmarked u field)
    expr_to_sql-IsBalanced (is_null field negate) =
        null_predicate-unmarked (resolve_field u field) negate (resolve_field-IsUnmarked u field)
    expr_to_sql-IsBalanced (like field negate pat) =
        like_side-IsBalanced T parse_float negate pat (side_of (resolve_field u field))
          (side_of-IsSide (resolve_field u field) (resolve_field-IsUnmarked u field))
    expr_to_sql-IsBalanced (text value pat) = text_predicate-IsBalanced T parse_float value

    exprs_to_sql-IsBalanced :
        (es : Exprs)
        → all_marks (exprs_to_sql {T = T} u parse_float es).0
          ≡ length (exprs_to_sql {T = T} u parse_float es).1
    exprs_to_sql-IsBalanced nil = refl
    exprs_to_sql-IsBalanced (cons e es) = omega (
      arith,
      expr_to_sql-IsBalanced e,
      exprs_to_sql-IsBalanced es,
      length-append (expr_to_sql {T = T} u parse_float e).1
          (exprs_to_sql {T = T} u parse_float es).1,
    )
