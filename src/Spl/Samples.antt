-- ===== src/Spl/Samples.antt =====
-- Runs of the models of internal/spl on small inputs: reading a query, and writing it and cutting its
-- rows.
mod Reading
mod Writing
mod Planning
mod Wiring
mod Running
mod Sorting
use quetzalog.Base.{
  ok, one_of, equal, pos, negsuc, List, [], ◌∷◌, ◌≤◌, ◌++◌, ◌≡◌, ◌⊎◌, ◌↔◌, refl, arith, codes,
  length, take, true, Text, Ends, out_of_fuel,
}
use quetzalog.Spl.Unicode.{
  ascii-IsStandard, to_lower, ascii_lower, ascii_upper, ascii, ascii_letter, ascii_digit, is_space,
}
use quetzalog.Spl.Lexer.Scan.{
  is_digit, is_name_start, is_name_part, name_span, scan_operator, prev_allows_negative,
}
use quetzalog.Spl.Lexer.Progress.{opens_negative}
use quetzalog.Spl.Lexer.{
  next_at, skip_from, scan_name, scan_op, scan_number, scan_string, negative_ahead, is_op, Token,
  TokenKind, Lexer, new_lexer, next, skip_space, is_eof, tokenize,
}
use quetzalog.Spl.Lexer.Literals.{
  literal_body, literal_rune, string_literal, has_no_control, next-string_literal,
}
use quetzalog.Spl.Lexer.Rounds.{MeetsNegative, goes_on, here, later, Spelled}
use quetzalog.Spl.Lexer.Tokens.{tokenize-Ends, tokenize-MeetsNegative, has_no_negative}
use quetzalog.Spl.Serializer.{serialize}
use quetzalog.Spl.Serializer.Text.{
  value_literal, needs_quote, is_numeric, numeric_from, all_ident_safe, is_ident_safe, itoa,
  digits_onto,
}
use quetzalog.Spl.Serializer.Values.{
  reads_back, is_plain, are_plain, is_plain_rune, is_lead, ends_name, read_value-value_literal,
}
use quetzalog.Spl.Serializer.Digits.{ends_number}
use quetzalog.Spl.Serializer.Counts.{IsCount}
use quetzalog.Spl.Parser.Commands.{parse_head, parse_tail}
use quetzalog.Spl.Serializer.Precedence.{serialize-not_and}
use quetzalog.Spl.Ast.{Expr, cmp, or_pair, and_pair, not_of, where_of, Node, head, tail}
use quetzalog.Spl.Parser.Expression.{read_value, parse_expr_tokens}
use quetzalog.Spl.Parser.Expression.Grammar.{IsOr}
use quetzalog.Spl.Parser.Expression.Sound.{NoEof, parse_expr_tokens-IsOr}
use quetzalog.Spl.Parser.Aggregation.{split_by, parse_aggregation_node}
use quetzalog.Spl.Parser.Aggregation.Ends.{parse_aggregation_node-Ends}
use quetzalog.Spl.Parser.Pipeline.{split_pipes}
use quetzalog.Spl.Parser.Pipeline.Groups.{
  join, concat, stage_tokens, AreStages, IsStage, split_pipes-join,
}
use quetzalog.Spl.Parser.Query.{parse_tokens, parse_query}
use quetzalog.Spl.Parser.Query.Ends.{parse_tokens-Ends, parse_query-MeetsNegative}
use quetzalog.Spl.Executor.Rows.{
  dedup_from, value_for, find, aliased, head_n, apply_head_tail, dedup_rows, row_key,
}
use quetzalog.Spl.Executor.Rows.Limits.{HasNoTail, length-apply_head_tail}
use quetzalog.Spl.Executor.Rows.Dedup.{HasNoRepeat, first_with, dedup_rows-first_with}

abbrev pub token : TokenKind → Text → Token
token kind value = record { kind = kind; value = value; raw = value; quote = 0; pos = 0 }
