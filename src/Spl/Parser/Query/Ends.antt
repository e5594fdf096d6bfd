-- ===== src/Spl/Parser/Query/Ends.antt =====
-- When `New` and `Parse` of internal/spl/parser/parser.go return.
use quetzalog.Base.{
  if◌then◌else◌, ℕ, suc, ◌≤◌, Bool, true, false, List, [], ◌∷◌, ◌≡◌, ◌≢◌, ◌↔◌, refl, ap, arith,
  length, codes, Text, Option, none, some, Outcome, ok, err, out_of_fuel, ◌>>=◌, bind-Ended, Ends,
  Ends-bind, Ends-Ended, Ended-Ends, if_rule, inl, inr, atoi,
}
use quetzalog.Spl.Unicode.{Unicode, to_lower}
use quetzalog.Spl.Lexer.{Token, is_name, tokenize, new_lexer, LexError}
use quetzalog.Spl.Lexer.Rounds.{MeetsNegative, Spelled}
use quetzalog.Spl.Lexer.Tokens.{tokenize-Ends, tokenize-MeetsNegative}
use quetzalog.Spl.Ast.{Node, stats, timechart, eventstats, streamstats}
use quetzalog.Spl.Parser.Expression.{ParseError, parse_expr_tokens}
use quetzalog.Spl.Parser.Expression.Sound.{parse_expr_tokens-Ends}
use quetzalog.Spl.Parser.Aggregation.{
  AggParse, first_agg, parse_aggregation_node, take_option, split_by, parse_stats, parse_eventstats,
  parse_timechart, parse_streamstats,
}
use quetzalog.Spl.Parser.Aggregation.Ends.{parse_aggregation_node-Ends}
use quetzalog.Spl.Parser.Commands.Ends.{
  parse_sort-Ended, parse_head-Ended, parse_tail-Ended, parse_dedup-Ended, parse_fields-Ended,
  parse_table-Ended, parse_rename-Ended, parse_rex-Ended, parse_bin-Ended, parse_lookup-Ended,
}
use quetzalog.Spl.Parser.Pipeline.{split_pipes, parse_filter, search_of, parse_search, parse_where}
use quetzalog.Spl.Parser.Query.{
  split_eq_from, eval_of, parse_eval, command, late_command, uncommanded, dispatch, dispatch_all,
  parsed, parse_tokens, parse_lexed, parse_query,
}
use quetzalog.Spl.Parser.Source.{utf8}

expression-Ended : (u : Unicode) (ts : List Token) → parse_expr_tokens u ts ≢ out_of_fuel
expression-Ended u ts =
    Ends-Ended (λ _. Unit {0}) (parse_expr_tokens u ts) (parse_expr_tokens-Ends u ts)

parse_filter-Ended : (u : Unicode) (ts : List Token) → parse_filter u ts ≢ out_of_fuel
parse_filter-Ended u [] = unfold parse_filter in λ h. cc
parse_filter-Ended u (t ∷ ts) =
    unfold parse_filter in
    bind-Ended (parse_expr_tokens u (t ∷ ts)) (λ e. ok (search_of e)) (expression-Ended u (t ∷ ts))
      λ e h. cc

parse_search-Ended : (u : Unicode) (ts : List Token) → parse_search u ts ≢ out_of_fuel
parse_search-Ended u [] = unfold parse_search in parse_filter-Ended u []
parse_search-Ended u (t ∷ ts) =
    unfold parse_search in
    λ h. ground (arith, parse_filter-Ended u ts, parse_filter-Ended u (t ∷ ts))

parse_where-Ended : (u : Unicode) (ts : List Token) → parse_where u ts ≢ out_of_fuel
parse_where-Ended u ts =
    unfold parse_where in bind-Ended (parse_expr_tokens u ts) _ (expression-Ended u ts) λ e h. cc

eval_of-Ended : (o : Option (Text × List Token)) → eval_of o ≢ out_of_fuel
eval_of-Ended none h = cc
eval_of-Ended (some (field, rest)) h = ground arith

parse_eval-Ended : (ts : List Token) → parse_eval ts ≢ out_of_fuel
unfolding parse_eval
parse_eval-Ended [] = λ h. cc
parse_eval-Ended (t ∷ ts) = eval_of-Ended (split_eq_from none 0 0 (t ∷ ts))

node-Ended :
    (u : Unicode) (ts : List Token) (f : AggParse → Node)
    → (parse_aggregation_node u ts >>= λ p. ok (f p)) ≢ out_of_fuel
node-Ended u ts f =
    bind-Ended (parse_aggregation_node u ts) (λ p. ok (f p))
      (Ends-Ended (λ p. length p.aggs ≤ length (split_by u ts).0) (parse_aggregation_node u ts)
        (parse_aggregation_node-Ends u ts))
      λ p h. cc

parse_stats-Ended : (u : Unicode) (ts : List Token) → parse_stats u ts ≢ out_of_fuel
unfolding parse_stats
parse_stats-Ended u ts = node-Ended u ts (λ p. stats p.aggs p.group_by)

parse_eventstats-Ended : (u : Unicode) (ts : List Token) → parse_eventstats u ts ≢ out_of_fuel
unfolding parse_eventstats
parse_eventstats-Ended u ts = node-Ended u ts (λ p. eventstats p.aggs p.group_by)

parse_timechart-Ended : (u : Unicode) (ts : List Token) → parse_timechart u ts ≢ out_of_fuel
unfolding parse_timechart
parse_timechart-Ended u ts =
    let (span, rest) = take_option u (codes "span") [] ts in
    node-Ended u rest (λ p. timechart (first_agg p.aggs) span p.group_by)

parse_streamstats-Ended : (u : Unicode) (ts : List Token) → parse_streamstats u ts ≢ out_of_fuel
unfolding parse_streamstats
parse_streamstats-Ended u ts =
    let (window, rest) = take_option u (codes "window") [] ts in
    node-Ended u rest (λ p. streamstats p.aggs p.group_by (atoi window).0)

-- A command that is found ends: by the entry of the table, or by those behind it.
found-Ended :
    (b : Bool) (x m : Outcome ParseError Node) (more : Option (Outcome ParseError Node))
    → x ≢ out_of_fuel
    → (more ≡ some m → m ≢ out_of_fuel)
    → (if b then some x else more) ≡ some m
    → m ≢ out_of_fuel
found-Ended true x m more h k e = λ c. h (cc)
found-Ended false x m more h k e = k e

module _ (u : Unicode) (word : Text) (ts : List Token) (m : Outcome ParseError Node) where
  late_command-Ended : late_command u word ts ≡ some m → m ≢ out_of_fuel
  unfolding late_command
  late_command-Ended found h = ground (
    arith,
    parse_dedup-Ended ts,
    parse_rex-Ended u ts,
    parse_bin-Ended u ts,
    parse_lookup-Ended u ts,
    parse_eventstats-Ended u ts,
    parse_streamstats-Ended u ts,
  )

  command-Ended : command u word ts ≡ some m → m ≢ out_of_fuel
  unfolding command
  command-Ended = found-Ended _ _ m _ (parse_search-Ended u ts) (
      found-Ended _ _ m _ (parse_where-Ended u ts) (
        found-Ended _ _ m _ (parse_eval-Ended ts) (
          found-Ended _ _ m _ (parse_fields-Ended ts) (
            found-Ended _ _ m _ (parse_table-Ended ts) (
              found-Ended _ _ m _ (parse_rename-Ended u ts) (
                found-Ended _ _ m _ (parse_stats-Ended u ts) (
                  found-Ended _ _ m _ (parse_timechart-Ended u ts) (
                    found-Ended _ _ m _ (parse_sort-Ended u ts) (
                      found-Ended _ _ m _ (parse_head-Ended ts)
                        (found-Ended _ _ m _ (parse_tail-Ended ts) late_command-Ended))))))))))

module _ (u : Unicode) (input : List ℕ) where
  uncommanded-Ended :
      (first : Bool) (t : Token) (ts : List Token) → uncommanded u input first t ts ≢ out_of_fuel
  unfolding uncommanded
  uncommanded-Ended true t ts = parse_search-Ended u (t ∷ ts)
  uncommanded-Ended false t ts = λ h. cc

  dispatch-Ended : (first : Bool) (g : List Token) → dispatch u input first g ≢ out_of_fuel
  unfolding dispatch
  dispatch-Ended first [] = λ h. cc
  dispatch-Ended first (t ∷ ts) =
      if_rule (λ m. m ≢ out_of_fuel) (is_name t.kind)
        (elim (command u (to_lower u t.value) ts) [
          | none ↦ uncommanded u input first t ts
          | some node ↦ node
        ])
        (uncommanded u input first t ts)
        (λ _.
          of_command (command u (to_lower u t.value) ts) (command-Ended u (to_lower u t.value) ts))
        (λ _. uncommanded-Ended first t ts)
    where
      of_command :
          (o : Option (Outcome ParseError Node))
          → ((m : Outcome ParseError Node) → o ≡ some m → m ≢ out_of_fuel)
          → elim o as (λ _. Outcome ParseError Node) [
            | none ↦ uncommanded u input first t ts
            | some node ↦ node
          ]
            ≢ out_of_fuel
      of_command none h = uncommanded-Ended first t ts
      of_command (some m) h = h m refl

  dispatch_all-Ends :
      (first : Bool) (gs : List (List Token))
      → Ends (λ ns. length ns ≡ length gs) (dispatch_all u input first gs)
  unfolding dispatch_all
  dispatch_all-Ends first [] = refl
  dispatch_all-Ends first (g ∷ gs) =
      Ends-bind (λ _. Unit {0}) (λ ns. length ns ≡ length (g ∷ gs)) (dispatch u input first g) _
        (Ended-Ends (λ _. Unit {0}) (dispatch u input first g) (dispatch-Ended first g) (λ _. tt))
        λ n _.
          Ends-bind (λ ns. length ns ≡ length gs) (λ ns. length ns ≡ length (g ∷ gs))
            (dispatch_all u input false gs) _ (dispatch_all-Ends false gs) λ ns h. ap suc h

  -- `Parse` ends on every list of tokens, with an error or with one command for each stage.
  pub parse_tokens-Ends :
      (ts : List Token) → Ends (λ ns. length ns ≡ length (split_pipes ts)) (parse_tokens u input ts)
  unfolding parse_tokens
  parse_tokens-Ends ts = dispatch_all-Ends true (split_pipes ts)

parse_lexed-Ends :
    (u : Unicode) (input : Text) (P : List Token → Type 0) (m : Outcome LexError (List Token))
    → Ends P m
    → parse_lexed u input m ≢ out_of_fuel
parse_lexed-Ends u input P (ok ts) h = parsed-Ended (parse_tokens u (utf8 input) ts) (
    Ends-Ended (λ ns. length ns ≡ length (split_pipes ts)) (parse_tokens u (utf8 input) ts)
      (parse_tokens-Ends u (utf8 input) ts))
  where
    parsed-Ended : (m : Outcome ParseError (List Node)) → m ≢ out_of_fuel → parsed m ≢ out_of_fuel
    parsed-Ended (ok ns) h = λ c. cc
    parsed-Ended (err e) h = λ c. cc
    parsed-Ended out_of_fuel h = λ _. h refl
parse_lexed-Ends u input P (err e) h = λ c. cc
parse_lexed-Ends u input P out_of_fuel h = λ _. h

-- `New` and `Parse` return, with commands or with an error, on exactly those inputs on which the
-- scanner comes to no negative number.
pub parse_query-MeetsNegative :
    (u : Unicode) (input : Text)
    → (parse_query u input ≡ out_of_fuel) ↔ MeetsNegative u (new_lexer input)
parse_query-MeetsNegative u input = (stops, diverges)
  where
    stops : parse_query u input ≡ out_of_fuel → MeetsNegative u (new_lexer input)
    stops h = elim (tokenize-Ends u input (suc (length input)) (omega arith)) [
      | inl m ↦ m
      | inr ends ↦ absurd (
          parse_lexed-Ends u input (Spelled 0 input) (tokenize (suc (length input)) u input) ends
            (unfold parse_query in h))
    ]

    diverges : MeetsNegative u (new_lexer input) → parse_query u input ≡ out_of_fuel
    diverges m = unfold parse_query in rw (tokenize-MeetsNegative u input (suc (length input)) m)
