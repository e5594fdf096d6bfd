-- ===== src/Spl/Planner/Where.antt =====
-- The WHERE clause that internal/spl/planner/planner.go builds. A Go function that appends to
-- `args` returns what it appends. A Go float and a time are parameters, as is `strconv.ParseFloat`;
-- a time that is zero is none.
use quetzalog.Base.{
  ℕ, Bool, ◌||◌, not, List, [], ◌∷◌, ◌++◌, map, Text, codes, equal, one_of, ◌==◌, if◌then◌else◌,
  Option, none, some,
}
use quetzalog.Spl.Unicode.{Unicode, trim, ascii_letter, ascii_digit}
use quetzalog.Spl.Ast.{
  Expr, Exprs, and_of, or_of, not_of, cmp, in_list, is_null, like, text, nil, cons,
}
use quetzalog.Spl.Serializer.Text.{join_texts}
use quetzalog.Spl.Planner.Fields.{
  Field, column, attribute, index, unknown, resolve_field, json_extract, cast_as,
}

pub data Arg (F T : Type 0) : Type 0 where
  text_arg : Text → Arg F T
  number_arg : F → Arg F T
  time_arg : T → Arg F T

-- SQL text, and the arguments of its placeholders.
abbrev pub Sql : Type 0 → Type 0 → Type 0
Sql F T = Text × List (Arg F T)

unfoldable pub is_equality : Text → Bool
is_equality op = one_of (codes "=" ∷ codes "!=" ∷ codes "==" ∷ []) op

unfoldable pub sql_op : Text → Text
sql_op op =
    if one_of (codes "!=" ∷ codes "<" ∷ codes "<=" ∷ codes ">" ∷ codes ">=" ∷ []) op
    then op
    else codes "="

-- `[[:alnum:]_]`.
unfoldable pub is_word_rune : ℕ → Bool
is_word_rune c = ascii_letter c || ascii_digit c || c == b'_'

abbrev flush : Text → List Text → List Text
flush [] more = more
flush (c ∷ run) more = (c ∷ run) ∷ more

-- `ftsTokenRe.FindAllString`, behind the run under way.
unfoldable pub word_runs : Text → Text → List Text
word_runs run [] = flush run []
word_runs run (c ∷ s) =
    let longer = word_runs (run ++ (c ∷ [])) s in
    let fresh = word_runs [] s in if is_word_rune c then longer else flush run fresh

abbrev quoted : Text → Text
quoted w = b'"' ∷ (w ++ (b'"' ∷ []))

unfoldable pub sanitize_fts : Text → Text
unfolding word_runs
sanitize_fts q = elim (word_runs [] q) [
  | [] ↦ quoted []
  | w ∷ ws ↦ join_texts (codes " AND ") (map quoted (w ∷ ws))
]

-- A term that matches every event.
unfoldable pub matches_all : Text → Bool
unfolding sanitize_fts
matches_all term = equal (trim term) (codes "*") || equal (sanitize_fts term) (quoted [])

unfoldable pub null_test : Text → Bool → Text
null_test expr negate = expr ++ (if negate then codes " IS NOT NULL" else codes " IS NULL")

-- The column or attribute on the left of IN and LIKE; none for what they refuse.
unfoldable pub side_of : Field → Option Text
unfolding cast_as
side_of (column c) = some c
side_of (attribute key) = some (cast_as (codes "TEXT") key)
side_of _ = none

unfoldable pub null_predicate : Field → Bool → Text
unfolding null_test json_extract
null_predicate (column c) negate = null_test c negate
null_predicate (attribute key) negate = null_test (json_extract key) negate
null_predicate _ negate = codes "1=0"

abbrev pub marks_of : List Text → List Text
marks_of = map (λ _. codes "?")

-- The end of `joinLogical`, on the parts.
unfoldable pub join_parts : Text → List Text → Text
join_parts sep [] = codes "1=1"
join_parts sep (p ∷ []) = p
join_parts sep (p ∷ q ∷ ps) = codes "(" ++ (join_texts sep (p ∷ q ∷ ps) ++ codes ")")

module _ {F T : Type 0} (parse_float : Text → Option F) where
  unfoldable pub coerce : Text → Text → Arg F T
  coerce op value =
      if is_equality op
      then text_arg value
      else elim (parse_float (trim value)) [ some f ↦ number_arg f | none ↦ text_arg value ]

  unfoldable pub index_predicate : Text → Text → Sql F T
  unfolding coerce cast_as
  index_predicate op value =
      if not (is_equality op)
      then (
        cast_as (codes "REAL") (codes "index") ++ (codes " " ++ (sql_op op ++ codes " ?")),
        coerce op value ∷ [],
      )
      else (
        (if equal op (codes "!=") then codes "NOT " else [])
            ++ codes
                "(source_type = ? OR source = ? OR CAST(json_extract(attributes, '$.\"index\"') AS TEXT) = ?)",
        text_arg value ∷ text_arg value ∷ text_arg value ∷ [],
      )

  -- `ColumnSQL`, on the field resolved.
  unfoldable pub column_of : Field → Text → Text → Sql F T
  unfolding index_predicate coerce cast_as
  column_of index op value = index_predicate op value
  column_of (column c) op value =
      (c ++ (codes " " ++ (sql_op op ++ codes " ?")), coerce op value ∷ [])
  column_of (attribute key) op value =
      if is_equality op
      then (
        cast_as (codes "TEXT") key ++ (codes " " ++ (sql_op op ++ codes " ?")),
        text_arg value ∷ [],
      )
      else (
        cast_as (codes "REAL") key ++ (codes " " ++ (sql_op op ++ codes " ?")),
        coerce op value ∷ [],
      )
  column_of unknown op value = (codes "1=0", [])

  abbrev pub in_side : Bool → List Text → Option Text → Sql F T
  in_side negate values none = (codes "1=0", [])
  in_side negate values (some side) = (
    side
        ++ (codes " "
            ++ ((if negate then codes "NOT " else [])
                ++ (codes "IN (" ++ (join_texts (codes ", ") (marks_of values) ++ codes ")")))),
    map text_arg values,
  )

  unfoldable pub in_predicate : Field → Bool → List Text → Sql F T
  unfolding side_of
  in_predicate f negate [] = (if negate then codes "1=1" else codes "1=0", [])
  in_predicate f negate (v ∷ vs) = in_side negate (v ∷ vs) (side_of f)

  abbrev pub like_side : Bool → Text → Option Text → Sql F T
  like_side negate pat none = (codes "1=0", [])
  like_side negate pat (some side) =
      (side ++ (if negate then codes " NOT LIKE ?" else codes " LIKE ?"), text_arg pat ∷ [])

  unfoldable pub like_predicate : Field → Bool → Text → Sql F T
  unfolding side_of
  like_predicate f negate pat = like_side negate pat (side_of f)

  unfoldable pub text_predicate : Text → Sql F T
  text_predicate term = if matches_all term then (codes "1=1", []) else (
    codes "rowid IN (SELECT rowid FROM events_fts WHERE events_fts MATCH ?)",
    text_arg (sanitize_fts term) ∷ [],
  )

module _ {F T : Type 0} (u : Unicode) (parse_float : Text → Option F) where
  unfoldable pub column_sql : Text → Text → Text → Sql F T
  column_sql field op value = column_of parse_float (resolve_field u field) op value

  -- `ExprToSQL`, and the loop of `joinLogical`.
  unfoldable mutual
    pub expr_to_sql : Expr → Sql F T
    expr_to_sql (and_of es) =
        let (parts, bound) = exprs_to_sql es in (join_parts (codes " AND ") parts, bound)
    expr_to_sql (or_of es) =
        let (parts, bound) = exprs_to_sql es in (join_parts (codes " OR ") parts, bound)
    expr_to_sql (not_of e) =
        let (inner, bound) = expr_to_sql e in (codes "NOT (" ++ (inner ++ codes ")"), bound)
    expr_to_sql (cmp field op value) = column_sql field op value
    expr_to_sql (in_list field negate values) =
        in_predicate parse_float (resolve_field u field) negate values
    expr_to_sql (is_null field negate) = (null_predicate (resolve_field u field) negate, [])
    expr_to_sql (like field negate pat) =
        like_predicate parse_float (resolve_field u field) negate pat
    expr_to_sql (text value pat) = text_predicate parse_float value

    pub exprs_to_sql : Exprs → List Text × List (Arg F T)
    exprs_to_sql nil = ([], [])
    exprs_to_sql (cons e es) =
        let (part, bound) = expr_to_sql e in
        let (parts, more) = exprs_to_sql es in (part ∷ parts, bound ++ more)
