-- ===== src/Spl/Samples/Writing.antt =====
-- Runs of the serializer and of the row commands, internal/spl/serializer and internal/spl/executor.
use quetzalog.Base.{
  some, ok, one_of, equal, pos, negsuc, List, [], ◌∷◌, ◌≤◌, ◌++◌, ◌≡◌, refl, codes, length, take,
  true, Text,
}
use quetzalog.Spl.Unicode.{
  ascii-IsStandard, to_lower, ascii_lower, ascii_upper, ascii, ascii_letter, ascii_digit,
}
use quetzalog.Spl.Lexer.Scan.{is_name_part}
use quetzalog.Spl.Lexer.{Lexer, new_lexer, next}
use quetzalog.Spl.Serializer.{serialize}
use quetzalog.Spl.Serializer.Text.{
  value_literal, needs_quote, is_numeric, numeric_from, all_ident_safe, is_ident_safe,
}
use quetzalog.Spl.Serializer.Values.{
  reads_back, is_plain, are_plain, is_plain_rune, is_lead, ends_name, read_value-value_literal,
}
use quetzalog.Spl.Serializer.Precedence.{serialize-not_and}
use quetzalog.Spl.Ast.{Expr, cmp, or_pair, and_pair, not_of, where_of, search, Node, head, tail}
use quetzalog.Spl.Parser.Expression.{read_value}
use quetzalog.Spl.Executor.Rows.{
  dedup_from, value_for, find, aliased, head_n, apply_head_tail, dedup_rows, row_key,
}
use quetzalog.Spl.Executor.Rows.Limits.{length-apply_head_tail}
use quetzalog.Spl.Executor.Rows.Dedup.{HasNoRepeat, first_with, dedup_rows-first_with}

abbrev sample_rows : List (List (Text × Text))
sample_rows =
    ((codes "host", codes "a") ∷ (codes "id", codes "1") ∷ [])
    ∷ ((codes "host", codes "b") ∷ (codes "id", codes "2") ∷ [])
    ∷ ((codes "host", codes "a") ∷ (codes "id", codes "3") ∷ [])
    ∷ []

abbrev repeated_rows : List (List (Text × Text))
repeated_rows =
    ((codes "host", codes "a") ∷ [])
    ∷ ((codes "host", codes "a") ∷ [])
    ∷ ((codes "host", codes "b") ∷ [])
    ∷ []

abbrev head_query : List Node
head_query = head (pos 2) ∷ head (negsuc 0) ∷ []

abbrev tail_query : List Node
tail_query = head (pos 2) ∷ tail (pos 1) ∷ []

length-apply_head_tail_example :
    length (apply_head_tail tail_query sample_rows) ≤ head_n tail_query (length sample_rows)
length-apply_head_tail_example = length-apply_head_tail tail_query sample_rows

abbrev print_value : Text → Text
print_value v = v

dedup_rows-first_with_example :
    HasNoRepeat
      (row_key ascii [] print_value (codes "host"))
      (dedup_rows ascii [] print_value sample_rows (codes "host"))
    × ((value : Text)
        → first_with
            (row_key ascii [] print_value (codes "host"))
            value
            (dedup_rows ascii [] print_value sample_rows (codes "host"))
          ≡ first_with (row_key ascii [] print_value (codes "host")) value sample_rows)
dedup_rows-first_with_example =
    dedup_rows-first_with ascii [] print_value sample_rows (codes "host")

-- `head 2` lets `runRows` fetch two rows, of which `dedup host` leaves one; of all the rows it
-- leaves two.
dedup_rows_sample :
    (length (dedup_rows ascii [] print_value repeated_rows (codes "host")) ≡ 2)
    × (length (dedup_rows ascii [] print_value (take 2 repeated_rows) (codes "host")) ≡ 1)
unfolding dedup_rows dedup_from row_key value_for find aliased to_lower ascii ascii_lower
    ascii_upper one_of equal
dedup_rows_sample = (refl, refl)

abbrev ask : Text → Expr
ask name = cmp name (codes "=") (codes "1")

abbrev negated_both : Expr
negated_both = or_pair (not_of (and_pair (ask (codes "a")) (ask (codes "b")))) (ask (codes "c"))

abbrev negated_first : Expr
negated_first = or_pair (and_pair (not_of (ask (codes "a"))) (ask (codes "b"))) (ask (codes "c"))

serialize-not_and_example :
    (serialize ([] ++ where_of [] (some negated_both) ∷ head_query)
      ≡ serialize ([] ++ where_of [] (some negated_first) ∷ head_query))
    × (serialize ([] ++ search ((codes "host", codes "x") ∷ []) [] (some negated_both) ∷ head_query)
        ≡ serialize
            ([] ++ search ((codes "host", codes "x") ∷ []) [] (some negated_first) ∷ head_query))
serialize-not_and_example =
    serialize-not_and [] head_query [] ((codes "host", codes "x") ∷ []) [] (ask (codes "a"))
      (ask (codes "b")) (ask (codes "c"))

abbrev host_lexer : Lexer
host_lexer = new_lexer (codes "web-01 x")

host_text : host_lexer.rest ≡ value_literal (codes "web-01") ++ codes " x"
unfolding value_literal needs_quote is_numeric numeric_from all_ident_safe is_ident_safe
    ascii_letter ascii_digit ascii_upper equal
host_text = refl

host-reads_back : reads_back (codes "web-01") ≡ true
unfolding reads_back is_plain are_plain is_plain_rune is_lead ascii_letter ascii_digit ascii_upper
host-reads_back = refl

host-ends_name : ends_name ascii (codes " x") ≡ true
unfolding ends_name is_name_part ascii ascii_letter ascii_digit ascii_upper
host-ends_name = refl

read_value-value_literal_example :
    ((next ascii host_lexer).0.rest ≡ codes " x")
    × (read_value ((next ascii host_lexer).1 ∷ []) ≡ ok (codes "web-01", []))
read_value-value_literal_example =
    read_value-value_literal ascii host_lexer (codes "web-01") (codes " x") [] ascii-IsStandard
      host-reads_back host-ends_name host_text
