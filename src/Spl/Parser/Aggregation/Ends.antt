-- ===== src/Spl/Parser/Aggregation/Ends.antt =====
-- The rounds of the loop over aggregations in `parseAggregationNode` of
-- internal/spl/parser/parser.go.
use quetzalog.Base.{
  ℕ, zero, suc, ◌≤◌, ◌<◌, List, [], ◌∷◌, arith, length, Ends, Ends-bind, Ends-if, Ends-map,
}
use quetzalog.Spl.Unicode.{Unicode}
use quetzalog.Spl.Lexer.{Token, is_name}
use quetzalog.Spl.Parser.Expression.{advance}
use quetzalog.Spl.Parser.Aggregation.{
  field_body, call_field, as_alias, aggregation, aggregations, split_by, parse_aggregation_node,
}

length-advance : (ts : List Token) → length (advance ts) ≤ length ts
unfolding advance
length-advance [] = omega arith
length-advance (t ∷ ts) = omega arith

length-field_body : (ts : List Token) → length (field_body ts).1 ≤ length ts
unfolding field_body
length-field_body [] = omega arith
length-field_body (t ∷ ts) = ground (arith, length-field_body ts)

length-call_field : (ts : List Token) → length (call_field ts).1 ≤ length ts
unfolding call_field
length-call_field ts = ground (arith, length-field_body (advance ts), length-advance ts)

length-as_alias : (u : Unicode) (ts : List Token) → length (as_alias u ts).1 ≤ length ts
unfolding as_alias
length-as_alias u ts = ground (arith, length-advance ts, length-advance (advance ts))

length-aggregation :
    (u : Unicode) (t : Token) (ts : List Token) → length (aggregation u t ts).1 ≤ length ts
unfolding aggregation
length-aggregation u t ts = omega (arith, length-call_field ts, length-as_alias u (call_field ts).1)

aggregations-Ends :
    (fuel : ℕ) (u : Unicode) (ts : List Token)
    → length ts < fuel
    → Ends (λ aggs. length aggs ≤ length ts) (aggregations fuel u ts)
unfolding aggregations
aggregations-Ends zero u ts h = absurd (omega arith)
aggregations-Ends (suc fuel) u [] h = omega arith
aggregations-Ends (suc fuel) u (t ∷ ts) h =
    Ends-if (λ aggs. length aggs ≤ length (t ∷ ts)) (is_name t.kind) _ _
      (λ _.
        Ends-bind (λ aggs. length aggs ≤ length (aggregation u t ts).1)
          (λ aggs. length aggs ≤ length (t ∷ ts)) (aggregations fuel u (aggregation u t ts).1) _
          (aggregations-Ends fuel u (aggregation u t ts).1
            (omega (arith, length-aggregation u t ts)))
          λ aggs k. omega (arith, length-aggregation u t ts))
      (λ _.
        Ends-map (λ aggs. length aggs ≤ length ts) (λ aggs. length aggs ≤ length (t ∷ ts))
          (aggregations fuel u ts) (aggregations-Ends fuel u ts (omega arith))
          λ aggs k. omega arith)

-- The aggregations of a command are read to an end, and there are no more of them than tokens in
-- front of `by`.
pub parse_aggregation_node-Ends :
    (u : Unicode) (ts : List Token)
    → Ends (λ p. length p.aggs ≤ length (split_by u ts).0) (parse_aggregation_node u ts)
unfolding parse_aggregation_node
parse_aggregation_node-Ends u ts =
    Ends-bind (λ aggs. length aggs ≤ length (split_by u ts).0)
      (λ p. length p.aggs ≤ length (split_by u ts).0)
      (aggregations (suc (length (split_by u ts).0)) u (split_by u ts).0) _
      (aggregations-Ends (suc (length (split_by u ts).0)) u (split_by u ts).0 (omega arith))
      λ aggs h. h
