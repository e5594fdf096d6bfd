-- ===== src/Spl/Planner/Values.antt =====
-- What the SQL text of internal/spl/planner/planner.go depends on.
use quetzalog.Base.{
  Bool, true, false, List, [], ◌∷◌, ◌++◌, map, Text, codes, equal, Option, none, some, not,
  if◌then◌else◌, ◌≡◌, refl, sym, ap, if_rule,
}
use quetzalog.Spl.Unicode.{Unicode, trim, drop_space, is_space, ascii_letter, ascii_digit}
use quetzalog.Spl.Ast.{
  where_expr, Expr, Exprs, and_of, or_of, not_of, cmp, in_list, is_null, like, text, nil, cons,
  Node, search, where_of,
}
use quetzalog.Spl.Serializer.Text.{join_texts}
use quetzalog.Spl.Planner.Fields.{Field, column, attribute, index, unknown, resolve_field}
use quetzalog.Spl.Planner.Where.{
  is_equality, side_of, marks_of, index_predicate, column_of, in_side, in_predicate, like_side,
  like_predicate, text_predicate, matches_all, join_parts, column_sql, expr_to_sql, exprs_to_sql,
  sanitize_fts, word_runs, is_word_rune,
}

-- A term in place of another, that matches every event when the other does.
unfoldable pub blank_term : Text → Text
blank_term words = if matches_all words then codes "*" else codes "a"

-- The words of a search, blanked when there are some.
unfoldable pub blank_words : Text → Text
unfolding blank_term
blank_words words = if equal (trim words) [] then [] else blank_term words

-- An expression with every value that the user wrote blanked.
unfoldable mutual
  pub erase : Expr → Expr
  erase (and_of es) = and_of (erase_all es)
  erase (or_of es) = or_of (erase_all es)
  erase (not_of e) = not_of (erase e)
  erase (cmp field op value) = cmp field op []
  erase (in_list field negate values) = in_list field negate (map (λ _. []) values)
  erase (is_null field negate) = is_null field negate
  erase (like field negate pat) = like field negate []
  erase (text value pat) = text (blank_term value) []

  pub erase_all : Exprs → Exprs
  erase_all nil = nil
  erase_all (cons e es) = cons (erase e) (erase_all es)

unfoldable pub erase_fields : List (Text × Text) → List (Text × Text)
erase_fields [] = []
erase_fields ((k, v) ∷ m) = (k, []) ∷ erase_fields m

unfoldable pub erase_option : Option Expr → Option Expr
unfolding erase
erase_option none = none
erase_option (some e) = some (erase e)

-- The commands, with the values of the search and of the `where` commands blanked.
unfoldable pub erase_nodes : List Node → List Node
unfolding erase erase_fields erase_option blank_words where_expr
erase_nodes [] = []
erase_nodes (search fields words e ∷ nodes) =
    search (erase_fields fields) (blank_words words) (erase_option e) ∷ erase_nodes nodes
erase_nodes (where_of conditions e ∷ nodes) =
    where_of [] (erase_option (where_expr conditions e)) ∷ erase_nodes nodes
erase_nodes (node ∷ nodes) = node ∷ erase_nodes nodes

-- Conditionals on one test have equal first parts when their branches have.
pub same_first :
    {A B : Type 0} (b : Bool) (x x2 y y2 : A × B)
    → x.0 ≡ x2.0
    → y.0 ≡ y2.0
    → (if b then x else y).0 ≡ (if b then x2 else y2).0
same_first true x x2 y y2 h k = h
same_first false x x2 y y2 h k = k

matches_all-blank_term : (t : Text) → matches_all (blank_term t) ≡ matches_all t
unfolding blank_term matches_all sanitize_fts word_runs is_word_rune trim drop_space equal is_space
    ascii_letter ascii_digit join_texts
matches_all-blank_term t =
    if_rule (λ s. matches_all s ≡ matches_all t) (matches_all t) (codes "*") (codes "a")
      (λ e. sym e) (λ e. sym e)

marks_of-map : (f : Text → Text) (xs : List Text) → marks_of (map f xs) ≡ marks_of xs
marks_of-map f [] = refl
marks_of-map f (x ∷ xs) = ap (◌∷◌ (codes "?")) (marks_of-map f xs)

module _ {F : Type 0} (T : Type 0) (parse_float : Text → Option F) where
  pub text_predicate-blank_term :
      (t : Text)
      → (text_predicate {T = T} parse_float (blank_term t)).0
        ≡ (text_predicate {T = T} parse_float t).0
  unfolding text_predicate
  text_predicate-blank_term t =
      rw (matches_all-blank_term t) (same_first (matches_all t) _ _ _ _ refl refl)

  pub column_of_value :
      (f : Field) (op v w : Text)
      → (column_of {T = T} parse_float f op v).0 ≡ (column_of {T = T} parse_float f op w).0
  unfolding column_of index_predicate
  column_of_value (column c) op v w = refl
  column_of_value (attribute key) op v w = same_first (is_equality op) _ _ _ _ refl refl
  column_of_value index op v w = same_first (not (is_equality op)) _ _ _ _ refl refl
  column_of_value unknown op v w = refl

  in_side_value :
      (negate : Bool) (values : List Text) (side : Option Text)
      → (in_side {T = T} parse_float negate (map (λ _. []) values) side).0
        ≡ (in_side {T = T} parse_float negate values side).0
  in_side_value negate values none = refl
  in_side_value negate values (some side) =
      ap
        (λ ms.
          side
          ++ (codes " "
              ++ ((if negate then codes "NOT " else [])
                  ++ (codes "IN (" ++ (join_texts (codes ", ") ms ++ codes ")")))))
        (marks_of-map (λ _. []) values)

  in_predicate_value :
      (f : Field) (negate : Bool) (values : List Text)
      → (in_predicate {T = T} parse_float f negate (map (λ _. []) values)).0
        ≡ (in_predicate {T = T} parse_float f negate values).0
  unfolding in_predicate
  in_predicate_value f negate [] = refl
  in_predicate_value f negate (v ∷ vs) = in_side_value negate (v ∷ vs) (side_of f)

  like_side_value :
      (negate : Bool) (p q : Text) (side : Option Text)
      → (like_side {T = T} parse_float negate p side).0
        ≡ (like_side {T = T} parse_float negate q side).0
  like_side_value negate p q none = refl
  like_side_value negate p q (some side) = refl

module _ {F : Type 0} (T : Type 0) (u : Unicode) (parse_float : Text → Option F) where
  mutual
    unfolding expr_to_sql exprs_to_sql column_sql like_predicate erase erase_all

    pub expr_to_sql-erase :
        (e : Expr)
        → (expr_to_sql {T = T} u parse_float (erase e)).0 ≡ (expr_to_sql {T = T} u parse_float e).0
    expr_to_sql-erase (and_of es) = ap (join_parts (codes " AND ")) (exprs_to_sql-erase_all es)
    expr_to_sql-erase (or_of es) = ap (join_parts (codes " OR ")) (exprs_to_sql-erase_all es)
    expr_to_sql-erase (not_of e) = ap (λ s. codes "NOT (" ++ (s ++ codes ")")) (expr_to_sql-erase e)
    expr_to_sql-erase (cmp field op value) =
        column_of_value T parse_float (resolve_field u field) op [] value
    expr_to_sql-erase (in_list field negate values) =
        in_predicate_value T parse_float (resolve_field u field) negate values
    expr_to_sql-erase (is_null field negate) = refl
    expr_to_sql-erase (like field negate pat) =
        like_side_value T parse_float negate [] pat (side_of (resolve_field u field))
    expr_to_sql-erase (text value pat) = text_predicate-blank_term T parse_float value

    exprs_to_sql-erase_all :
        (es : Exprs)
        → (exprs_to_sql {T = T} u parse_float (erase_all es)).0
          ≡ (exprs_to_sql {T = T} u parse_float es).0
    exprs_to_sql-erase_all nil = refl
    exprs_to_sql-erase_all (cons e es) = rw (expr_to_sql-erase e, exprs_to_sql-erase_all es) refl
