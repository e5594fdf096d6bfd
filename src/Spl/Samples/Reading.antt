-- ===== src/Spl/Samples/Reading.antt =====
-- Runs of the scanner and the parser, internal/spl/lexer and internal/spl/parser.
use quetzalog.Spl.Samples.{token}
use quetzalog.Base.{
  ok, one_of, equal, List, [], ◌∷◌, ◌++◌, ◌≡◌, ◌⊎◌, ◌↔◌, refl, arith, codes, length, true, Text,
  Ends, out_of_fuel,
}
use quetzalog.Spl.Unicode.{
  equal_fold, ascii_lower, ascii_upper, ascii, ascii_letter, ascii_digit, is_space,
}
use quetzalog.Spl.Lexer.Scan.{
  is_digit, is_name_start, is_name_part, name_span, scan_operator, prev_allows_negative,
}
use quetzalog.Spl.Lexer.Progress.{opens_negative}
use quetzalog.Spl.Lexer.{
  is_keyword, is_name, next_at, skip_from, scan_name, scan_op, scan_number, scan_string,
  negative_ahead, is_op, Token, TokenKind, Lexer, new_lexer, next, skip_space, is_eof, tokenize,
}
use quetzalog.Spl.Lexer.Literals.{
  literal_body, literal_rune, string_literal, has_no_control, next-string_literal,
}
use quetzalog.Spl.Lexer.Rounds.{MeetsNegative, goes_on, here, later, Spelled}
use quetzalog.Spl.Lexer.Tokens.{tokenize-Ends, tokenize-MeetsNegative}
use quetzalog.Spl.Parser.Expression.{comparison_op, parse_expr_tokens}
use quetzalog.Spl.Parser.Expression.Complete.{
  Filter, compare, both, either, negation, spell, meaning, IsFilter, parse_expr_tokens-spell,
}
use quetzalog.Spl.Parser.Expression.Grammar.{IsOr}
use quetzalog.Spl.Parser.Expression.Sound.{NoEof, parse_expr_tokens-IsOr}
use quetzalog.Spl.Parser.Pipeline.{split_pipes}
use quetzalog.Spl.Parser.Pipeline.Groups.{join, AreStages, IsStage, split_pipes-join}
use quetzalog.Spl.Parser.Query.{parse_tokens, parse_query}
use quetzalog.Spl.Parser.Query.Ends.{parse_tokens-Ends, parse_query-MeetsNegative}

abbrev filter_text : Text
filter_text = codes "host=\"a\" | head 5"

abbrev negative_text : Text
negative_text = codes "x=-5"

abbrev pipe_token : Token
pipe_token = token TokenKind.pipe (codes "|")

abbrev end_token : Token
end_token = token TokenKind.eof []

-- `not a = 1 or b = 2 and c`.
abbrev filter_tokens : List Token
filter_tokens =
    token TokenKind.name (codes "not")
    ∷ token TokenKind.name (codes "a")
    ∷ token TokenKind.op (codes "=")
    ∷ token TokenKind.number (codes "1")
    ∷ token TokenKind.name (codes "or")
    ∷ token TokenKind.name (codes "b")
    ∷ token TokenKind.op (codes "=")
    ∷ token TokenKind.number (codes "2")
    ∷ token TokenKind.name (codes "and")
    ∷ token TokenKind.name (codes "c")
    ∷ []

abbrev head_tokens : List Token
head_tokens = token TokenKind.name (codes "head") ∷ token TokenKind.number (codes "5") ∷ []

abbrev stages : List (List Token)
stages = filter_tokens ∷ head_tokens ∷ []

end_token-IsEof : is_eof end_token.kind ≡ true
unfolding is_eof
end_token-IsEof = refl

filter_tokens-NoEof : NoEof filter_tokens
unfolding is_eof
filter_tokens-NoEof =
    (refl, (refl, (refl, (refl, (refl, (refl, (refl, (refl, (refl, (refl, tt))))))))))

tokenize-Ends_example :
    MeetsNegative ascii (new_lexer filter_text)
    ⊎ Ends (Spelled 0 filter_text) (tokenize 18 ascii filter_text)
tokenize-Ends_example = tokenize-Ends ascii filter_text 18 (omega arith)

parse_expr_tokens-IsOr_example :
    Ends (IsOr ascii filter_tokens) (parse_expr_tokens ascii filter_tokens)
parse_expr_tokens-IsOr_example = parse_expr_tokens-IsOr ascii filter_tokens filter_tokens-NoEof

filter_tokens-IsStage : IsStage filter_tokens
unfolding is_eof
filter_tokens-IsStage = (
  refl,
  refl,
  (
    refl,
    refl,
    (
      refl,
      refl,
      (
        refl,
        refl,
        (refl, refl, (refl, refl, (refl, refl, (refl, refl, (refl, refl, (refl, refl, tt)))))),
      ),
    ),
  ),
)

stages-AreStages : AreStages stages
unfolding is_eof
stages-AreStages =
    ((λ e. cc), filter_tokens-IsStage, ((λ e. cc), (refl, refl, (refl, refl, tt)), tt))

abbrev negative_lexer : Lexer
negative_lexer = new_lexer negative_text

negative_text-MeetsNegative : MeetsNegative ascii negative_lexer
unfolding goes_on is_eof is_op equal next next_at skip_space skip_from is_space is_digit
    is_name_start is_name_part ascii ascii_letter ascii_digit scan_name scan_op scan_number
    scan_string name_span scan_operator prev_allows_negative negative_ahead opens_negative
negative_text-MeetsNegative = later negative_lexer refl (
    later (next ascii negative_lexer).0 refl
      (here (next ascii (next ascii negative_lexer).0).0 refl))

string_literal_lexer :
    (new_lexer (codes "\"a\\\"b\" ")).rest ≡ string_literal (codes "a\"b") ++ codes " "
unfolding string_literal literal_body literal_rune
string_literal_lexer = refl

tokenize-MeetsNegative_example : tokenize 100 ascii negative_text ≡ out_of_fuel
tokenize-MeetsNegative_example =
    tokenize-MeetsNegative ascii negative_text 100 negative_text-MeetsNegative

abbrev literal_lexer : Lexer
literal_lexer = new_lexer (codes "\"a\\\"b\" ")

next-string_literal_example :
    ((next ascii literal_lexer).1.kind ≡ TokenKind.string)
    × (((next ascii literal_lexer).1.value ≡ codes "a\"b") ↔ (has_no_control (codes "a\"b") ≡ true))
    × ((next ascii literal_lexer).1.quote ≡ b'"')
    × ((next ascii literal_lexer).0.rest ≡ codes " ")
next-string_literal_example =
    next-string_literal ascii literal_lexer (codes "a\"b") (codes " ") string_literal_lexer

parse_query-MeetsNegative_example :
    (parse_query ascii negative_text ≡ out_of_fuel) ↔ MeetsNegative ascii (new_lexer negative_text)
parse_query-MeetsNegative_example = parse_query-MeetsNegative ascii negative_text

parse_tokens-Ends_example :
    Ends
      (λ ns. length ns ≡ length (split_pipes (join pipe_token end_token stages)))
      (parse_tokens ascii [] (join pipe_token end_token stages))
parse_tokens-Ends_example = parse_tokens-Ends ascii [] (join pipe_token end_token stages)

split_pipes-join_example : split_pipes (join pipe_token end_token stages) ≡ stages
split_pipes-join_example =
    split_pipes-join pipe_token end_token stages refl end_token-IsEof stages-AreStages

abbrev test_of : Text → Filter
test_of name =
    compare (token TokenKind.name name) (token TokenKind.op (codes "="))
      (token TokenKind.string (codes "1"))

-- `(not a = "1" or (b = "1" and c = "1"))`.
abbrev filter : Filter
filter = either (negation (test_of (codes "a"))) (both (test_of (codes "b")) (test_of (codes "c")))

filter-IsFilter : IsFilter ascii filter
unfolding IsFilter is_keyword is_name is_op equal_fold equal ascii ascii_lower ascii_upper one_of
    comparison_op
filter-IsFilter = ((refl, refl, refl, refl), ((refl, refl, refl, refl), (refl, refl, refl, refl)))

parse_expr_tokens-spell_example : parse_expr_tokens ascii (spell filter) ≡ ok (meaning filter)
parse_expr_tokens-spell_example = parse_expr_tokens-spell ascii filter filter-IsFilter
