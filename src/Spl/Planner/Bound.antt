-- ===== src/Spl/Planner/Bound.antt =====
-- The arguments that `BuildWhere` of internal/spl/planner/planner.go binds.
use quetzalog.Base.{
  ◌+◌, Bool, true, false, ◌||◌, List, [], ◌∷◌, ◌++◌, Text, codes, equal, equal_iff, Option, none,
  some, ◌≡◌, refl, ◌∙◌, sym, ap, length, length-append, if_rule, inl, inr, Bool-cases, arith,
}
use quetzalog.Spl.Unicode.{Unicode, trim}
use quetzalog.Spl.Ast.{Expr, where_expr, Node, search, where_of}
use quetzalog.Spl.Planner.Fields.{resolve_field}
use quetzalog.Spl.Planner.Where.{Arg, time_arg, Sql, column_sql}
use quetzalog.Spl.Planner.Marks.{
  marks, all_marks, marks-append, marks-join_texts, resolve_field-IsUnmarked,
}
use quetzalog.Spl.Planner.Balance.{
  IsBalanced, column_of-IsBalanced, text_predicate-IsBalanced, expr_to_sql-IsBalanced,
}
use quetzalog.Spl.Planner.Clause.{
  Options, Clauses, kept_clause, add_clause, time_clause, where_text, field_parts, text_parts,
  grouped, expr_from_search_fields, search_sql, option_sql, where_clauses, search_clause,
  build_where, has_aggregation,
}

-- As many placeholders in the clauses as arguments.
unfoldable AreBalanced : {F T : Type 0} → Clauses F T → Type 0
AreBalanced (clauses, bound) = all_marks clauses ≡ length bound

all_marks-append : (s t : List Text) → all_marks (s ++ t) ≡ all_marks s + all_marks t
unfolding all_marks
all_marks-append [] t = omega arith
all_marks-append (c ∷ s) t = omega (arith, all_marks-append s t)

-- Only texts without a placeholder are left out.
all_marks-kept_clause : (sql : Text) → all_marks (kept_clause sql) ≡ marks sql
unfolding kept_clause all_marks marks equal
all_marks-kept_clause sql =
    if_rule (λ cs. all_marks cs ≡ marks sql) (equal sql [] || equal sql (codes "1=1")) [] (sql ∷ [])
      (λ e. elim (Bool-cases (equal sql [])) [
        | inl f ↦ sym (ap marks ((equal_iff sql []).0 f))
        | inr f ↦ sym (ap marks ((equal_iff sql (codes "1=1")).0 (ground (arith, e, f))))
      ])
      (λ _. omega arith)

module _ {F T : Type 0} where
  add_clause-AreBalanced :
      (sql : Sql F T) (rest : Clauses F T)
      → IsBalanced sql
      → AreBalanced rest
      → AreBalanced (add_clause sql rest)
  unfolding add_clause AreBalanced IsBalanced
  add_clause-AreBalanced (sql, bound) (clauses, more) h k = omega (
    arith,
    all_marks-append (kept_clause sql) clauses,
    all_marks-kept_clause sql,
    length-append bound more,
  )

  time_clause-AreBalanced :
      (sql : Text) (t : Option T) (rest : Clauses F T)
      → marks sql ≡ 1
      → AreBalanced rest
      → AreBalanced (time_clause sql t rest)
  unfolding time_clause IsBalanced all_marks
  time_clause-AreBalanced sql none rest h k = k
  time_clause-AreBalanced sql (some t) rest h k =
      add_clause-AreBalanced (sql, time_arg t ∷ []) rest h k

  where_text-IsBalanced : (c : Clauses F T) → AreBalanced c → IsBalanced (where_text c)
  unfolding where_text AreBalanced IsBalanced marks all_marks
  where_text-IsBalanced ([], bound) h = h
  where_text-IsBalanced (c ∷ cs, bound) h = marks-join_texts (codes " AND ") (c ∷ cs) refl ∙ h

  grouped-IsBalanced : (c : List Text × List (Arg F T)) → AreBalanced c → IsBalanced (grouped c)
  unfolding AreBalanced IsBalanced marks all_marks
  grouped-IsBalanced ([], bound) h = h
  grouped-IsBalanced (c ∷ cs, bound) h =
      simp (marks-append, marks-join_texts (codes " AND ") (c ∷ cs) refl, h) (omega arith)

module _ {F : Type 0} (T : Type 0) (u : Unicode) (parse_float : Text → Option F) where
  field_parts-AreBalanced :
      (m : List (Text × Text)) → AreBalanced (field_parts {T = T} u parse_float m)
  unfolding field_parts AreBalanced all_marks column_sql IsBalanced
  field_parts-AreBalanced [] = refl
  field_parts-AreBalanced ((k, v) ∷ m) = omega (
    arith,
    column_of-IsBalanced T parse_float (resolve_field u k) (codes "=") v
        (resolve_field-IsUnmarked u k),
    field_parts-AreBalanced m,
    length-append (column_sql {T = T} u parse_float k (codes "=") v).1
        (field_parts {T = T} u parse_float m).1,
  )

  text_parts-AreBalanced : (words : Text) → AreBalanced (text_parts {T = T} u parse_float words)
  unfolding text_parts AreBalanced all_marks IsBalanced
  text_parts-AreBalanced words =
      if_rule (AreBalanced {F = F} {T = T}) (equal (trim words) []) _ _ (λ _. refl)
        (λ _. omega (arith, text_predicate-IsBalanced T parse_float words))

  search_sql-IsBalanced :
      (fields : List (Text × Text)) (words : Text) (e : Option Expr)
      → IsBalanced (search_sql {T = T} u parse_float fields words e)
  unfolding search_sql expr_from_search_fields AreBalanced
  search_sql-IsBalanced fields words (some e) = expr_to_sql-IsBalanced T u parse_float e
  search_sql-IsBalanced fields words none =
      grouped-IsBalanced
        (
          (field_parts {T = T} u parse_float fields).0
              ++ (text_parts {T = T} u parse_float words).0,
          (field_parts {T = T} u parse_float fields).1
              ++ (text_parts {T = T} u parse_float words).1,
        )
        (omega (
          arith,
          all_marks-append (field_parts {T = T} u parse_float fields).0
              (text_parts {T = T} u parse_float words).0,
          length-append (field_parts {T = T} u parse_float fields).1
              (text_parts {T = T} u parse_float words).1,
          field_parts-AreBalanced fields,
          text_parts-AreBalanced words,
        ))

  option_sql-IsBalanced : (e : Option Expr) → IsBalanced (option_sql {T = T} u parse_float e)
  unfolding option_sql IsBalanced marks
  option_sql-IsBalanced none = refl
  option_sql-IsBalanced (some e) = expr_to_sql-IsBalanced T u parse_float e

  where_clauses-AreBalanced :
      (aggregated : Bool) (nodes : List Node) (rest : Clauses F T)
      → AreBalanced rest
      → AreBalanced (where_clauses u parse_float aggregated nodes rest)
  unfolding where_clauses
  where_clauses-AreBalanced aggregated [] rest h = h
  where_clauses-AreBalanced true (where_of conditions e ∷ nodes) rest h =
      where_clauses-AreBalanced true nodes rest h
  where_clauses-AreBalanced false (where_of conditions e ∷ nodes) rest h =
      add_clause-AreBalanced (option_sql u parse_float (where_expr conditions e)) _
        (option_sql-IsBalanced (where_expr conditions e))
        (where_clauses-AreBalanced false nodes rest h)
  where_clauses-AreBalanced aggregated (_ ∷ nodes) rest h =
      where_clauses-AreBalanced aggregated nodes rest h

  search_clause-AreBalanced :
      (nodes : List Node) (rest : Clauses F T)
      → AreBalanced rest
      → AreBalanced (search_clause u parse_float nodes rest)
  unfolding search_clause
  search_clause-AreBalanced (search fields words e ∷ nodes) rest h =
      add_clause-AreBalanced (search_sql u parse_float fields words e) rest
        (search_sql-IsBalanced fields words e) h
  search_clause-AreBalanced _ rest h = h

  -- The WHERE clause of a query has exactly as many placeholders as `BuildWhere` binds arguments,
  -- for every query, every time range, and every `strconv.ParseFloat`.
  pub build_where-IsBalanced :
      (nodes : List Node) (opts : Options T) → IsBalanced (build_where u parse_float nodes opts)
  unfolding build_where AreBalanced all_marks marks
  build_where-IsBalanced nodes opts = where_text-IsBalanced _ (
      search_clause-AreBalanced nodes _ (
        where_clauses-AreBalanced (has_aggregation nodes) nodes _ (
          time_clause-AreBalanced (codes "timestamp >= ?") opts.earliest _ refl
            (time_clause-AreBalanced (codes "timestamp <= ?") opts.latest ([], []) refl refl))))
