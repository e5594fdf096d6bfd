-- ===== src/Spl/Planner/Marks.antt =====
-- The placeholders in the SQL text of internal/spl/planner/planner.go.
use quetzalog.Base.{
  ℕ, suc, ◌+◌, Bool, true, ◌&&◌, List, [], ◌∷◌, ◌++◌, Text, codes, equal, equal_iff, ◌==◌,
  if◌then◌else◌, some, ◌≡◌, refl, ◌∙◌, ap, if_rule, Bool-cases, Option-cases, inl, inr, arith,
  one_of,
}
use quetzalog.Spl.Unicode.{Unicode, to_lower, trim, ascii_letter, ascii_digit}
use quetzalog.Spl.Serializer.Text.{join_texts}
use quetzalog.Spl.Planner.Fields.{
  Field, column, attribute, index, unknown, resolve_field, columns, find_column, is_attr_key,
  is_key_rune, all_key_runes,
}
use quetzalog.Spl.Planner.Where.{sql_op, join_parts}

-- How many placeholders a text has.
unfoldable pub marks : Text → ℕ
marks [] = 0
marks (c ∷ s) = let more = marks s in if c == b'?' then suc more else more

pub marks-append : (s t : Text) → marks (s ++ t) ≡ marks s + marks t
unfolding marks
marks-append [] t = omega arith
marks-append (c ∷ s) t = ground (arith, marks-append s t)

marks-key : (s : Text) → all_key_runes s ≡ true → marks s ≡ 0
unfolding marks all_key_runes is_key_rune ascii_letter ascii_digit
marks-key [] h = refl
marks-key (c ∷ s) h = ground (arith, marks-key s)

-- How many placeholders several texts have.
unfoldable pub all_marks : List Text → ℕ
unfolding marks
all_marks [] = 0
all_marks (t ∷ ts) = marks t + all_marks ts

-- A canonical name without a placeholder.
unfoldable pub IsUnmarked : Field → Type 0
IsUnmarked (column c) = marks c ≡ 0
IsUnmarked (attribute key) = marks key ≡ 0
IsUnmarked _ = Unit

unfoldable all_unmarked : List (Text × Text) → Bool
all_unmarked [] = true
all_unmarked ((k, c) ∷ m) = marks c == 0 && all_unmarked m

columns-unmarked : all_unmarked columns ≡ true
unfolding all_unmarked marks
columns-unmarked = refl

find_column-unmarked :
    (m : List (Text × Text)) (name c : Text)
    → all_unmarked m ≡ true
    → find_column m name ≡ some c
    → marks c ≡ 0
unfolding all_unmarked find_column
find_column-unmarked [] name c h k = absurd (cc)
find_column-unmarked ((key, d) ∷ m) name c h k = ground (arith, find_column-unmarked m name c)

marks-attr_key : (s : Text) → is_attr_key s ≡ true → marks s ≡ 0
unfolding is_attr_key
marks-attr_key [] h = absurd (cc)
marks-attr_key (c ∷ s) h = marks-key (c ∷ s) h

pub resolve_field-IsUnmarked : (u : Unicode) (field : Text) → IsUnmarked (resolve_field u field)
unfolding resolve_field IsUnmarked
resolve_field-IsUnmarked u field =
    if_rule IsUnmarked (equal (to_lower u (trim field)) []) unknown _ (λ _. tt)
      (λ _.
        if_rule IsUnmarked (equal (to_lower u (trim field)) (codes "index")) index _ (λ _. tt)
          (λ _. elim (Option-cases (find_column columns (to_lower u (trim field)))) [
            | inl e ↦ rw (e) (
                if_rule IsUnmarked (is_attr_key field) (attribute field) unknown
                  (marks-attr_key field) (λ _. tt))
            | inr (c, e) ↦ rw (e) (find_column-unmarked columns _ c columns-unmarked e)
          ]))

marks-one_of : (ts : List Text) (s : Text) → one_of ts s ≡ true → all_marks ts ≡ 0 → marks s ≡ 0
unfolding one_of all_marks
marks-one_of [] s h k = absurd (cc)
marks-one_of (t ∷ ts) s h k = elim (Bool-cases (equal s t)) [
  | inl e ↦ ap marks ((equal_iff s t).0 e) ∙ omega arith
  | inr e ↦ marks-one_of ts s (ground (arith, e)) (omega arith)
]

pub marks-sql_op : (op : Text) → marks (sql_op op) ≡ 0
unfolding sql_op marks all_marks
marks-sql_op op =
    let others = codes "!=" ∷ codes "<" ∷ codes "<=" ∷ codes ">" ∷ codes ">=" ∷ [] in
    if_rule (λ t. marks t ≡ 0) (one_of others op) op (codes "=")
      (λ e. marks-one_of others op e refl) (λ _. refl)

pub marks-join_texts :
    (sep : Text) (ts : List Text) → marks sep ≡ 0 → marks (join_texts sep ts) ≡ all_marks ts
unfolding join_texts all_marks marks
marks-join_texts sep [] h = refl
marks-join_texts sep (t ∷ []) h = omega arith
marks-join_texts sep (t ∷ s ∷ ts) h =
    simp (marks-append, h, marks-join_texts sep (s ∷ ts) h) (omega arith)

pub marks-join_parts :
    (sep : Text) (ts : List Text) → marks sep ≡ 0 → marks (join_parts sep ts) ≡ all_marks ts
unfolding join_parts all_marks marks
marks-join_parts sep [] h = refl
marks-join_parts sep (t ∷ []) h = omega arith
marks-join_parts sep (t ∷ s ∷ ts) h =
    simp (marks-append, marks-join_texts sep (t ∷ s ∷ ts) h) (omega arith)
