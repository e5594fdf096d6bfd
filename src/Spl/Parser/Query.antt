-- ===== src/Spl/Parser/Query.antt =====
-- `parseEval`, the dispatch on a stage's leading word, and `Parse` of internal/spl/parser/parser.go.
pub mod Ends
use quetzalog.Base.{
  ℕ, suc, ◌+◌, Bool, true, false, not, ◌&&◌, List, [], ◌∷◌, reverse, reverse_onto, Text, length,
  codes, Option, none, some, equal, if◌then◌else◌, Outcome, ok, err, out_of_fuel, ◌>>=◌, ◌==◌,
}
use quetzalog.Spl.Unicode.{Unicode, to_lower, is_space}
use quetzalog.Spl.Lexer.{Token, TokenKind, is_name, LexError, tokenize}
use quetzalog.Spl.Lexer.Literals.{string_literal}
use quetzalog.Spl.Ast.{Node, eval, unsupported}
use quetzalog.Spl.Parser.Expression.{ParseError, command_error, is_lparen, is_rparen}
use quetzalog.Spl.Parser.Aggregation.{
  is_string, is_eq, parse_stats, parse_eventstats, parse_timechart, parse_streamstats,
}
use quetzalog.Spl.Parser.Commands.{
  parse_sort, parse_head, parse_tail, parse_dedup, parse_fields, parse_table, parse_rename,
  parse_rex, parse_bin, parse_lookup,
}
use quetzalog.Spl.Parser.Pipeline.{split_pipes, parse_search, parse_where}
use quetzalog.Spl.Parser.Source.{raw_slice, utf8}

-- `strings.TrimRight(out, " ")`, over the text in reverse.
unfoldable pub trim_blanks : Text → Text
trim_blanks [] = []
trim_blanks (c ∷ s) = let more = trim_blanks s in if c == b' ' then more else c ∷ s

-- `strings.TrimSpace` at one end.
unfoldable pub trim_spaces : Text → Text
trim_spaces [] = []
trim_spaces (c ∷ s) = let more = trim_spaces s in if is_space c then more else c ∷ s

-- Whether a rune has to be set off from `out`, the text so far in reverse, by a space.
abbrev needs_blank : Text → Bool
needs_blank [] = false
needs_blank (c ∷ _) = not (c == b' ')

abbrev is_open : Text → Bool
is_open [] = false
is_open (c ∷ _) = c == b'('

-- One round of the last loop of `renderTokens`. A group holds no pipe and no end of the input.
unfoldable pub render_token : Text → Token → TokenKind → Text
unfolding trim_blanks
render_token out t TokenKind.lparen = b'(' ∷ out
render_token out t TokenKind.rparen = b')' ∷ trim_blanks out
render_token out t TokenKind.comma = b' ' ∷ b',' ∷ trim_blanks out
render_token out t TokenKind.op =
    b' ' ∷ reverse_onto t.value (if needs_blank out then b' ' ∷ out else out)
render_token out t TokenKind.string =
    reverse_onto (string_literal t.value)
      (if needs_blank out && not (is_open out) then b' ' ∷ out else out)
render_token out t TokenKind.star =
    reverse_onto (codes "*") (if needs_blank out && not (is_open out) then b' ' ∷ out else out)
render_token out t _ =
    reverse_onto t.value (if needs_blank out && not (is_open out) then b' ' ∷ out else out)

unfoldable pub render_from : Text → List Token → Text
unfolding render_token
render_from out [] = out
render_from out (t ∷ ts) = render_from (render_token out t t.kind) ts

unfoldable pub render_tokens : List Token → Text
unfolding render_from trim_spaces
render_tokens ts = trim_spaces (reverse (trim_spaces (render_from [] ts)))

-- The loop of `splitAtFirstEq`: the value of the token in front of the first `=` outside
-- parentheses, and the tokens behind it. The depth is 0 where as many have opened as closed.
unfoldable pub split_eq_from :
    Option Text → (opened closed : ℕ) → List Token → Option (Text × List Token)
split_eq_from before opened closed [] = none
split_eq_from before opened closed (t ∷ ts) =
    let more =
      split_eq_from (some t.value) (if is_lparen t.kind then opened + 1 else opened)
        (if is_rparen t.kind then closed + 1 else closed) ts in
    if is_eq t && opened == closed
    then elim before [ none ↦ none | some field ↦ some (field, ts) ]
    else more

-- The text of the expression: the value of a lone string, and the rendered tokens otherwise.
unfoldable pub eval_text : List Token → Text
unfolding render_tokens
eval_text [] = []
eval_text (t ∷ []) = if is_string t.kind then t.value else render_tokens (t ∷ [])
eval_text (t ∷ s ∷ ts) = render_tokens (t ∷ s ∷ ts)

abbrev eval_of : Option (Text × List Token) → Outcome ParseError Node
eval_of none = err (command_error (codes "eval: expected field=expression"))
eval_of (some (field, rest)) =
    if equal field []
    then err (command_error (codes "eval: expected field=expression"))
    else if equal (eval_text rest) []
    then err (command_error field)
    else ok (eval field (eval_text rest) ((field, eval_text rest) ∷ []))

unfoldable pub parse_eval : List Token → Outcome ParseError Node
unfolding split_eq_from eval_text
parse_eval [] = err (command_error (codes "eval requires an expression"))
parse_eval (t ∷ ts) = eval_of (split_eq_from none 0 0 (t ∷ ts))

-- The last words of the table.
unfoldable pub late_command : Unicode → Text → List Token → Option (Outcome ParseError Node)
late_command u word ts =
    if equal word (codes "dedup")
    then some (parse_dedup ts)
    else if equal word (codes "rex")
    then some (parse_rex u ts)
    else if equal word (codes "bin")
    then some (parse_bin u ts)
    else if equal word (codes "lookup")
    then some (parse_lookup u ts)
    else if equal word (codes "eventstats")
    then some (parse_eventstats u ts)
    else if equal word (codes "streamstats")
    then some (parse_streamstats u ts)
    else none

-- The parser that `commandKeywords` holds for a word, applied to the tokens behind it.
unfoldable pub command : Unicode → Text → List Token → Option (Outcome ParseError Node)
command u word ts =
    if equal word (codes "search")
    then some (parse_search u ts)
    else if equal word (codes "where")
    then some (parse_where u ts)
    else if equal word (codes "eval")
    then some (parse_eval ts)
    else if equal word (codes "fields")
    then some (parse_fields ts)
    else if equal word (codes "table")
    then some (parse_table ts)
    else if equal word (codes "rename")
    then some (parse_rename u ts)
    else if equal word (codes "stats")
    then some (parse_stats u ts)
    else if equal word (codes "timechart")
    then some (parse_timechart u ts)
    else if equal word (codes "sort")
    then some (parse_sort u ts)
    else if equal word (codes "head")
    then some (parse_head ts)
    else if equal word (codes "tail")
    then some (parse_tail ts)
    else late_command u word ts

-- A stage that leads with no command: the base search if it is the first, and kept otherwise.
unfoldable pub uncommanded : Unicode → List ℕ → Bool → Token → List Token → Outcome ParseError Node
uncommanded u input first t ts =
    if first
    then parse_search u (t ∷ ts)
    else ok (unsupported (to_lower u t.value) (raw_slice input (t ∷ ts)))

-- `dispatch`; a group is never empty.
unfoldable pub dispatch : Unicode → List ℕ → Bool → List Token → Outcome ParseError Node
dispatch u input first [] = err (command_error [])
dispatch u input first (t ∷ ts) =
    if is_name t.kind
    then elim (command u (to_lower u t.value) ts) [
      | none ↦ uncommanded u input first t ts
      | some node ↦ node
    ]
    else uncommanded u input first t ts

-- The loop of `Parse`; the flag is `i == 0`.
unfoldable pub dispatch_all :
    Unicode → List ℕ → Bool → List (List Token) → Outcome ParseError (List Node)
dispatch_all u input first [] = ok []
dispatch_all u input first (g ∷ gs) =
    dispatch u input first g >>= λ n. dispatch_all u input false gs >>= λ ns. ok (n ∷ ns)

-- `Parse`, over the parser's tokens and the bytes of its input.
unfoldable pub parse_tokens : Unicode → List ℕ → List Token → Outcome ParseError (List Node)
parse_tokens u input ts = dispatch_all u input true (split_pipes ts)

pub data QueryError : Type 0 where
  lex : LexError → QueryError
  parse : ParseError → QueryError

abbrev parsed : Outcome ParseError (List Node) → Outcome QueryError (List Node)
parsed (ok ns) = ok ns
parsed (err e) = err (parse e)
parsed out_of_fuel = out_of_fuel

abbrev parse_lexed : Unicode → Text → Outcome LexError (List Token) → Outcome QueryError (List Node)
parse_lexed u input (ok ts) = parsed (parse_tokens u (utf8 input) ts)
parse_lexed u input (err e) = err (lex e)
parse_lexed u input out_of_fuel = out_of_fuel

-- `New(input)` and `Parse`, with as many rounds of the scanner as it needs where it ends.
unfoldable pub parse_query : Unicode → Text → Outcome QueryError (List Node)
parse_query u input = parse_lexed u input (tokenize (suc (length input)) u input)
