-- ===== src/Graph/Answers.antt =====
-- When `Neighbors` of internal/graph/graph.go returns an error.
use quetzalog.Base.{
  ℕ, ℤ, pos, negsuc, zero, suc, ◌≢◌, inl, inr, List, [], ◌∷◌, if_rule, Option, none, some,
  Option-cases,
}
use quetzalog.Graph.{NodeRef, Edges}
use quetzalog.Graph.Neighbors.{
  Entity, Sweep, visit_all, sweep, levels, start, capped, neighbors, is_empty,
}

some_not_none : {A : Type 0} (a : A) → some a ≢ none
some_not_none a e = absurd (cc)

module _ (edges_of : NodeRef → Option Edges) (entity_of : NodeRef → Option Entity)
    (answers : (n : NodeRef) → edges_of n ≢ none) where
  sweep-answers :
      (level : ℕ) (queue : List NodeRef) (s : Sweep) → sweep edges_of entity_of level queue s ≢ none
  unfolding sweep
  sweep-answers level [] s = some_not_none s
  sweep-answers level (cur ∷ queue) s = elim (Option-cases (edges_of cur)) [
    | inl e ↦ absurd (answers cur e)
    | inr (edges, e) ↦
        rw (sweep, e) (sweep-answers level queue (visit_all edges_of entity_of level edges s))
  ]

  levels-answers : (left level : ℕ) (s : Sweep) → levels edges_of entity_of left level s ≢ none
  unfolding levels
  levels-answers zero level s = some_not_none s
  levels-answers (suc left) level s =
      if_rule (λ o. o ≢ none) (is_empty s.next) (some s) _ (λ _. some_not_none s)
        (λ _. elim (Option-cases (sweep edges_of entity_of level s.next (record s { next = [] }))) [
          | inl e ↦ absurd (sweep-answers level s.next (record s { next = [] }) e)
          | inr (t, e) ↦ rw (e) (levels-answers left (suc level) t)
        ])

  -- A traversal returns an error only when a query for the edges of some node fails.
  pub neighbors-answers :
      (root : NodeRef) (depth : ℤ) → neighbors edges_of entity_of root depth ≢ none
  unfolding neighbors
  neighbors-answers root (negsuc n) = some_not_none []
  neighbors-answers root (pos zero) = some_not_none []
  neighbors-answers root (pos (suc n)) =
      elim (Option-cases (levels edges_of entity_of (capped (suc n)) 1 (start root))) [
        | inl e ↦ absurd (levels-answers (capped (suc n)) 1 (start root) e)
        | inr (t, e) ↦ rw (neighbors, e) (some_not_none t.result)
      ]
