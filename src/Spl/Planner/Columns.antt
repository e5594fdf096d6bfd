-- ===== src/Spl/Planner/Columns.antt =====
-- The columns, the names and the reach of `BuildAggregate` in internal/spl/planner/planner.go.
use quetzalog.Base.{
  ℕ, ℤ, suc, ◌≤◌, ◌≡◌, refl, false, List, [], ◌∷◌, ◌++◌, Text, ◌==◌, if◌then◌else◌, Option, length,
  length-append, arith,
}
use quetzalog.Spl.Unicode.{Unicode}
use quetzalog.Spl.Ast.{Aggregation, Node, stats, timechart}
use quetzalog.Spl.Planner.Clause.{has_aggregation}
use quetzalog.Spl.Planner.Aggregate.{
  Built, nothing_built, add_agg, add_group, add_aggs, add_groups, add_bucket, add_command,
  add_commands, assemble, build_aggregate, quote_ident, drop_quotes, strip_minus, span_seconds,
}

-- How often a text has a rune.
unfoldable pub occurrences : ℕ → Text → ℕ
occurrences rune [] = 0
occurrences rune (c ∷ s) = let more = occurrences rune s in if c == rune then suc more else more

occurrences-drop_quotes :
    (rune : ℕ) (s : Text)
    → occurrences rune (drop_quotes s) ≡ (if rune == b'"' then 0 else occurrences rune s)
unfolding occurrences drop_quotes
occurrences-drop_quotes rune [] = ground arith
occurrences-drop_quotes rune (c ∷ s) = ground (arith, occurrences-drop_quotes rune s)

-- Whatever the name, `quoteIdent` writes a double quote, a text without double quotes, and a double
-- quote; every other rune is in that text as often as in the name behind the signs in front of it.
pub occurrences-quote_ident :
    (s : Text) (rune : ℕ)
    → (body : Text) × (quote_ident s ≡ b'"' ∷ (body ++ (b'"' ∷ [])))
      × (occurrences b'"' body ≡ 0)
      × (occurrences rune body ≡ (if rune == b'"' then 0 else occurrences rune (strip_minus s)))
unfolding quote_ident
occurrences-quote_ident s rune = (
  drop_quotes (strip_minus s),
  refl,
  occurrences-drop_quotes b'"' (strip_minus s),
  occurrences-drop_quotes rune (strip_minus s),
)

-- As many columns as expressions selected, of which some are grouped by.
unfoldable pub IsAligned : Built → Type 0
IsAligned b = (length b.sel ≡ length b.columns) × (length b.group_by ≤ length b.sel)

module _ {F : Type 0} (u : Unicode) (parse_float : Text → Option F) (scaled : F → ℕ → ℤ) where
  add_agg-IsAligned :
      (a : Aggregation) (b : Built) → IsAligned b → IsAligned (add_agg u parse_float scaled a b)
  unfolding add_agg IsAligned
  add_agg-IsAligned a b h = simp (length-append) (omega (arith, h.0), omega (arith, h.1))

  add_group-IsAligned :
      (g : Text) (b : Built) → IsAligned b → IsAligned (add_group u parse_float scaled g b)
  unfolding add_group IsAligned
  add_group-IsAligned g b h = simp (length-append) (omega (arith, h.0), omega (arith, h.1))

  add_bucket-IsAligned :
      (s : Text) (b : Built) → IsAligned b → IsAligned (add_bucket u parse_float scaled s b)
  unfolding add_bucket IsAligned
  add_bucket-IsAligned s b h = simp (length-append) (omega (arith, h.0), omega (arith, h.1))

  add_aggs-IsAligned :
      (aggs : List Aggregation) (b : Built)
      → IsAligned b
      → IsAligned (add_aggs u parse_float scaled aggs b)
  unfolding add_aggs
  add_aggs-IsAligned [] b h = h
  add_aggs-IsAligned (a ∷ aggs) b h = add_aggs-IsAligned aggs _ (add_agg-IsAligned a b h)

  add_groups-IsAligned :
      (gs : List Text) (b : Built) → IsAligned b → IsAligned (add_groups u parse_float scaled gs b)
  unfolding add_groups
  add_groups-IsAligned [] b h = h
  add_groups-IsAligned (g ∷ gs) b h = add_groups-IsAligned gs _ (add_group-IsAligned g b h)

  add_command-IsAligned :
      (node : Node) (b : Built) → IsAligned b → IsAligned (add_command u parse_float scaled node b)
  unfolding add_command IsAligned
  add_command-IsAligned (stats aggs gs) b h =
      add_groups-IsAligned gs _ (add_aggs-IsAligned aggs b h)
  add_command-IsAligned (timechart agg span gs) b h =
      add_groups-IsAligned gs _ (
        add_agg-IsAligned agg _ (add_bucket-IsAligned (span_seconds u parse_float scaled span) b h))
  add_command-IsAligned _ b h = h

  -- The loop of `BuildAggregate` keeps as many column names as expressions selected, and groups by
  -- no more expressions than it selects.
  pub add_commands-IsAligned :
      (nodes : List Node) (b : Built)
      → IsAligned b
      → IsAligned (add_commands u parse_float scaled nodes b)
  unfolding add_commands
  add_commands-IsAligned [] b h = h
  add_commands-IsAligned (node ∷ nodes) b h =
      add_commands-IsAligned nodes _ (add_command-IsAligned node b h)

  add_commands-nothing :
      (nodes : List Node) (b : Built)
      → has_aggregation nodes ≡ false
      → (add_commands u parse_float scaled nodes b).sel ≡ b.sel
  unfolding add_commands add_command has_aggregation
  add_commands-nothing [] b h = refl
  add_commands-nothing (stats aggs gs ∷ nodes) b h = absurd (cc)
  add_commands-nothing (timechart agg span gs ∷ nodes) b h = absurd (cc)
  add_commands-nothing (node ∷ nodes) b h = add_commands-nothing nodes _ h

  -- A query for which `HasAggregation` is false has no aggregate SQL: `BuildAggregate` returns the
  -- empty `AggSQL`, whatever its sort commands order by.
  build_aggregate-nothing_built :
      (nodes : List Node)
      → has_aggregation nodes ≡ false
      → build_aggregate u parse_float scaled nodes ≡ assemble nothing_built
  unfolding build_aggregate assemble
  build_aggregate-nothing_built nodes h =
      rw (assemble, add_commands-nothing nodes nothing_built h) refl
