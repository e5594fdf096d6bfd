-- ===== src/Spl/Planner/Injection.antt =====
-- What the text of the WHERE clause of internal/spl/planner/planner.go depends on.
use quetzalog.Base.{
  Bool, true, false, List, [], ◌∷◌, Text, codes, equal, Option, none, some, ◌≡◌, refl, ◌∙◌, sym, ap,
  if_rule, inl, inr, Bool-cases,
}
use quetzalog.Spl.Unicode.{Unicode, trim, drop_space, is_space}
use quetzalog.Spl.Ast.{
  where_expr, conditions_to_expr, Expr, Node, search, where_of, stats, timechart,
}
use quetzalog.Spl.Planner.Fields.{resolve_field}
use quetzalog.Spl.Planner.Where.{Arg, Sql, text_predicate, column_sql, matches_all}
use quetzalog.Spl.Planner.Clause.{
  Options, Clauses, add_clause, where_text, field_parts, text_parts, grouped,
  expr_from_search_fields, search_sql, option_sql, where_clauses, search_clause, build_where,
  has_aggregation,
}
use quetzalog.Spl.Planner.Values.{
  blank_term, blank_words, erase_fields, erase_option, erase_nodes, column_of_value,
  text_predicate-blank_term, expr_to_sql-erase,
}

has_aggregation-erase_nodes :
    (nodes : List Node) → has_aggregation (erase_nodes nodes) ≡ has_aggregation nodes
unfolding has_aggregation erase_nodes
has_aggregation-erase_nodes [] = refl
has_aggregation-erase_nodes (stats aggs group_by ∷ nodes) = refl
has_aggregation-erase_nodes (timechart agg span group_by ∷ nodes) = refl
has_aggregation-erase_nodes (_ ∷ nodes) = has_aggregation-erase_nodes nodes

trim-blank_words : (words : Text) → equal (trim (blank_words words)) [] ≡ equal (trim words) []
unfolding blank_words blank_term trim drop_space is_space equal
trim-blank_words words =
    if_rule (λ w. equal (trim w) [] ≡ equal (trim words) []) (equal (trim words) []) []
      (blank_term words) (λ e. sym e)
      (λ e.
        if_rule (λ w. equal (trim w) [] ≡ equal (trim words) []) (matches_all words) (codes "*")
          (codes "a") (λ _. sym e) (λ _. sym e))

module _ {F T : Type 0} where
  add_clause-first :
      (a b : Sql F T) (c d : Clauses F T)
      → a.0 ≡ b.0
      → c.0 ≡ d.0
      → (add_clause a c).0 ≡ (add_clause b d).0
  unfolding add_clause
  add_clause-first a b c d h k = rw (h, k) refl

  where_text-alone :
      (cs : List Text) (b : List (Arg F T))
      → (where_text (cs, b)).0 ≡ (where_text {F = F} {T = T} (cs, [])).0
  unfolding where_text
  where_text-alone [] b = refl
  where_text-alone (c ∷ cs) b = refl

  where_text-first : (c d : Clauses F T) → c.0 ≡ d.0 → (where_text c).0 ≡ (where_text d).0
  where_text-first c d h =
      where_text-alone c.0 c.1
      ∙ ap (λ cs. (where_text {F = F} {T = T} (cs, [])).0) h
      ∙ sym (where_text-alone d.0 d.1)

  grouped-alone :
      (cs : List Text) (b : List (Arg F T))
      → (grouped (cs, b)).0 ≡ (grouped {F = F} {T = T} (cs, [])).0
  grouped-alone [] b = refl
  grouped-alone (c ∷ cs) b = refl

  grouped-first : (c d : Clauses F T) → c.0 ≡ d.0 → (grouped c).0 ≡ (grouped d).0
  grouped-first c d h =
      grouped-alone c.0 c.1
      ∙ ap (λ cs. (grouped {F = F} {T = T} (cs, [])).0) h
      ∙ sym (grouped-alone d.0 d.1)

module _ {F : Type 0} (T : Type 0) (u : Unicode) (parse_float : Text → Option F) where
  field_parts-erase_fields :
      (m : List (Text × Text))
      → (field_parts {T = T} u parse_float (erase_fields m)).0
        ≡ (field_parts {T = T} u parse_float m).0
  unfolding field_parts erase_fields column_sql
  field_parts-erase_fields [] = refl
  field_parts-erase_fields ((k, v) ∷ m) =
      rw
        (
          column_of_value T parse_float (resolve_field u k) (codes "=") [] v,
          field_parts-erase_fields m,
        )
        refl

  text_predicate-blank_words :
      (words : Text)
      → equal (trim words) [] ≡ false
      → (text_predicate {T = T} parse_float (blank_words words)).0
        ≡ (text_predicate {T = T} parse_float words).0
  unfolding blank_words
  text_predicate-blank_words words h = rw (h) (text_predicate-blank_term T parse_float words)

  text_parts-blank_words :
      (words : Text)
      → (text_parts {T = T} u parse_float (blank_words words)).0
        ≡ (text_parts {T = T} u parse_float words).0
  unfolding text_parts
  text_parts-blank_words words = elim (Bool-cases (equal (trim words) [])) [
    | inl e ↦ rw (trim-blank_words words, e) refl
    | inr e ↦ rw (trim-blank_words words, e) (ap (λ p. p ∷ []) (text_predicate-blank_words words e))
  ]

  search_sql-erase :
      (m : List (Text × Text)) (words : Text) (e : Option Expr)
      → (search_sql {T = T} u parse_float (erase_fields m) (blank_words words) (erase_option e)).0
        ≡ (search_sql {T = T} u parse_float m words e).0
  unfolding search_sql erase_option expr_from_search_fields
  search_sql-erase m words (some e) = expr_to_sql-erase T u parse_float e
  search_sql-erase m words none =
      grouped-first _ _ (rw (field_parts-erase_fields m, text_parts-blank_words words) refl)

  option_sql-erase_option :
      (e : Option Expr)
      → (option_sql {T = T} u parse_float (where_expr [] (erase_option e))).0
        ≡ (option_sql {T = T} u parse_float e).0
  unfolding option_sql erase_option where_expr conditions_to_expr
  option_sql-erase_option none = refl
  option_sql-erase_option (some e) = expr_to_sql-erase T u parse_float e

  where_clauses-erase_nodes :
      (aggregated : Bool) (nodes : List Node) (rest : Clauses F T)
      → (where_clauses u parse_float aggregated (erase_nodes nodes) rest).0
        ≡ (where_clauses u parse_float aggregated nodes rest).0
  unfolding where_clauses erase_nodes
  where_clauses-erase_nodes aggregated [] rest = refl
  where_clauses-erase_nodes true (where_of conditions e ∷ nodes) rest =
      where_clauses-erase_nodes true nodes rest
  where_clauses-erase_nodes false (where_of conditions e ∷ nodes) rest =
      add_clause-first {F = F} {T = T}
        (option_sql u parse_float (where_expr [] (erase_option (where_expr conditions e))))
        (option_sql u parse_float (where_expr conditions e))
        (where_clauses u parse_float false (erase_nodes nodes) rest)
        (where_clauses u parse_float false nodes rest)
        (option_sql-erase_option (where_expr conditions e))
        (where_clauses-erase_nodes false nodes rest)
  where_clauses-erase_nodes aggregated (_ ∷ nodes) rest =
      where_clauses-erase_nodes aggregated nodes rest

  search_clause-erase_nodes :
      (nodes : List Node) (a b : Clauses F T)
      → a.0 ≡ b.0
      → (search_clause u parse_float (erase_nodes nodes) a).0
        ≡ (search_clause u parse_float nodes b).0
  unfolding search_clause erase_nodes
  search_clause-erase_nodes [] a b h = h
  search_clause-erase_nodes (search m words e ∷ nodes) a b h =
      add_clause-first {F = F} {T = T}
        (search_sql u parse_float (erase_fields m) (blank_words words) (erase_option e))
        (search_sql u parse_float m words e) a b (search_sql-erase m words e) h
  search_clause-erase_nodes (_ ∷ nodes) a b h = h

  -- The text of the WHERE clause does not depend on the values that the user wrote.
  pub build_where-erase_nodes :
      (nodes : List Node) (opts : Options T)
      → (build_where u parse_float (erase_nodes nodes) opts).0
        ≡ (build_where u parse_float nodes opts).0
  unfolding build_where
  build_where-erase_nodes nodes opts = where_text-first _ _ (
      search_clause-erase_nodes nodes _ _ (
        rw (has_aggregation-erase_nodes nodes)
          (where_clauses-erase_nodes (has_aggregation nodes) nodes _)))
