-- ===== src/Spl/Ast/Accepted.antt =====
-- The queries that `Validate` of internal/spl/ast/command.go accepts, and those that start with a
-- search.
use quetzalog.Base.{
  ◌≡◌, refl, Bool, true, ◌&&◌, not, List, [], ◌∷◌, ◌++◌, Text, codes, equal, one_of, if_rule, arith,
}
use quetzalog.Spl.Unicode.{Unicode, to_lower, trim}
use quetzalog.Spl.Ast.{
  Aggregation, Node, search, stats, timechart, eventstats, streamstats, unsupported,
}
use quetzalog.Spl.Ast.Wire.{command_type}
use quetzalog.Spl.Ast.Validate.{
  supported_aggs, supported, is_supported_command, unsupported_commands, unsupported_name,
  some_aggs, timechart_aggs, validate_agg, validate_aggs, aggs_of, validate_node, validate_nodes,
  validate, ensure_search_first,
}

-- Every aggregate calls one of the supported functions, in any case and between any spaces.
unfoldable pub known_aggs : Unicode → List Aggregation → Bool
known_aggs u [] = true
known_aggs u (a ∷ more) = one_of supported_aggs (to_lower u (trim a.function)) && known_aggs u more

unfoldable pub all_known : Unicode → List Node → Bool
unfolding known_aggs
all_known u [] = true
all_known u (node ∷ nodes) = known_aggs u (aggs_of node) && all_known u nodes

append-none : {A : Type 0} (xs ys : List A) → xs ++ ys ≡ [] → (xs ≡ []) × (ys ≡ [])
append-none [] ys h = (refl, h)
append-none (x ∷ xs) ys h = absurd (cc)

module _ (u : Unicode) where
  validate_agg-known :
      (component : Text) (a : Aggregation)
      → validate_agg u component a ≡ []
      → one_of supported_aggs (to_lower u (trim a.function)) ≡ true
  unfolding validate_agg
  validate_agg-known component a h =
      let fn = to_lower u (trim a.function) in
      if_rule (λ ps. ps ≡ [] → one_of supported_aggs fn ≡ true) (equal fn []) _ _
        (λ _ k. absurd (cc))
        (λ _.
          if_rule (λ ps. ps ≡ [] → one_of supported_aggs fn ≡ true) (not (one_of supported_aggs fn))
            _ _ (λ _ k. absurd (cc)) (λ e k. ground (arith, e)))
        h

  validate_aggs-known :
      (component : Text) (aggs : List Aggregation)
      → validate_aggs u component aggs ≡ []
      → known_aggs u aggs ≡ true
  unfolding validate_aggs known_aggs
  validate_aggs-known component [] h = refl
  validate_aggs-known component (a ∷ more) h = ground (
    arith,
    validate_agg-known component a,
    validate_aggs-known component more,
    append-none (validate_agg u component a) (validate_aggs u component more) h,
  )

  some_aggs-known :
      (component : Text) (aggs : List Aggregation)
      → some_aggs u component aggs ≡ []
      → known_aggs u aggs ≡ true
  some_aggs-known component [] h = absurd (cc)
  some_aggs-known component (a ∷ more) h = validate_aggs-known component (a ∷ more) h

  timechart_aggs-known :
      (aggs : List Aggregation) → timechart_aggs u aggs ≡ [] → known_aggs u aggs ≡ true
  timechart_aggs-known [] h = absurd (cc)
  timechart_aggs-known (a ∷ more) h = validate_aggs-known (codes "timechart") (a ∷ more) h

  validate_node-known :
      (node : Node)
      → validate_node u node ≡ []
      → (unsupported_name node ≡ []) × (known_aggs u (aggs_of node) ≡ true)
  unfolding validate_node unsupported_name aggs_of known_aggs command_type is_supported_command
      one_of equal
  validate_node-known (stats aggs groups) h = (refl, some_aggs-known (codes "stats") aggs h)
  validate_node-known (eventstats aggs groups) h =
      (refl, some_aggs-known (codes "eventstats") aggs h)
  validate_node-known (streamstats aggs groups window) h =
      (refl, some_aggs-known (codes "streamstats") aggs h)
  validate_node-known (timechart a span groups) h =
      (refl, timechart_aggs-known (aggs_of (timechart a span groups)) h)
  validate_node-known (unsupported name raw) h = absurd (cc)
  validate_node-known _ h = (refl, refl)

  validate_nodes-known :
      (nodes : List Node)
      → validate_nodes u nodes ≡ []
      → (unsupported_commands nodes ≡ []) × (all_known u nodes ≡ true)
  unfolding validate_nodes unsupported_commands all_known
  validate_nodes-known [] h = (refl, refl)
  validate_nodes-known (node ∷ nodes) h =
      let parts = append-none (validate_node u node) (validate_nodes u nodes) h in
      let one = validate_node-known node parts.0 in
      let others = validate_nodes-known nodes parts.1 in
      (rw (one.0, others.0) refl, ground (arith, one.1, others.1))

  -- A query in which `Validate` finds no problem has only commands that the builder knows, and calls
  -- only supported aggregate functions.
  pub validate-known :
      (nodes : List Node)
      → validate u nodes ≡ []
      → (supported nodes ≡ true) × (all_known u nodes ≡ true)
  unfolding validate supported
  validate-known [] h = absurd (cc)
  validate-known (node ∷ nodes) h =
      let known = validate_nodes-known (node ∷ nodes) h in (rw (known.0) refl, known.1)

  -- `EnsureSearchFirst` changes nothing when it is done twice, and `Validate` then finds exactly the
  -- problems of the commands that were there before, none of which is that the query is empty.
  ensure_search_first_lem :
      (nodes : List Node)
      → (ensure_search_first (ensure_search_first nodes) ≡ ensure_search_first nodes)
        × (validate u (ensure_search_first nodes) ≡ validate_nodes u nodes)
  unfolding ensure_search_first validate validate_nodes validate_node
  ensure_search_first_lem [] = (refl, refl)
  ensure_search_first_lem (search m words e ∷ nodes) = (refl, refl)
  ensure_search_first_lem (_ ∷ nodes) = (refl, refl)
