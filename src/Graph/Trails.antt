-- ===== src/Graph/Trails.antt =====
-- The paths that `Path` of internal/graph/graph.go returns.
use quetzalog.Base.{
  ℕ, ℤ, zero, suc, ◌+◌, ◌≤◌, ◌<◌, ◌≡◌, subst, inl, inr, true, List, [], ◌∷◌, ◌++◌, if◌then◌else◌,
  if_rule, Option, none, some, Option-cases, leb, length, length-append, arith,
}
use quetzalog.Graph.{NodeRef, has, same_ref, EdgeMeta, Edges}
use quetzalog.Graph.Sweep.{ends, All, All-snoc, All-map, Holds, same_ref_iff}
use quetzalog.Graph.Reach.{All-members}
use quetzalog.Graph.Paths.{
  GraphPath, Step, first, step_node, nodes_to, path_from, max_paths, Search, Progress, going,
  returned, failed, search_next, search_edges, search_step, search_frontier, hop, hops_of,
  find_paths, none_next, no_paths,
}

-- A list of nodes from one to another along so many edges.
pub data Route (edges_of : NodeRef → Option Edges) (from : NodeRef)
    : List NodeRef → NodeRef → ℕ → Type 0 where
  begin : Route edges_of from (from ∷ []) from 0
  extend :
      {ns : List NodeRef} {m n : NodeRef} {k : ℕ} {edges : Edges}
      → Route edges_of from ns m k
      → edges_of m ≡ some edges
      → has (ends edges) n ≡ true
      → Route edges_of from (ns ++ (n ∷ [])) n (suc k)

-- What holds of a search that goes on, and of the paths that it has returned.
abbrev During : (Search → Type 0) → (List GraphPath → Type 0) → Progress → Type 0
During P Q (going s) = P s
During P Q (returned ps) = Q ps
During P Q failed = Unit

module _ (edges_of : NodeRef → Option Edges) (from to : NodeRef) where
  -- A route of at most `d` edges.
  abbrev IsRoute : ℕ → GraphPath → Type 0
  IsRoute d p = (k : ℕ) × Route edges_of from p.nodes to k × (k ≤ d)

  abbrev IsReached : ℕ → Step → Type 0
  IsReached d st = Route edges_of from (nodes_to st) (step_node st) d

  unfoldable IsFound : ℕ → List GraphPath → Type 0
  IsFound d ps = All (IsRoute d) ps × (length ps ≤ max_paths)

  unfoldable IsUnder : ℕ → Search → Type 0
  IsUnder d s = All (IsRoute d) s.paths × (length s.paths < max_paths) × All (IsReached d) s.next

  found :
      (d : ℕ) (cur : Step) (nb : NodeRef) (meta : EdgeMeta) (s : Search)
      → Route edges_of from (nodes_to cur ++ (nb ∷ [])) nb d
      → IsUnder d s
      → same_ref nb to ≡ true
      → All (IsRoute d) (s.paths ++ (path_from cur nb meta.status ∷ []))
  unfolding IsUnder path_from
  found d cur nb meta s r h e = All-snoc _ s.paths _ h.0 (
    d,
    subst (λ n. Route edges_of from (nodes_to cur ++ (nb ∷ [])) n d) ((same_ref_iff nb to).0 e) r,
    omega arith,
  )

  search_next-IsUnder :
      (d : ℕ) (cur : Step) (nb : NodeRef) (meta : EdgeMeta) (s : Search)
      → Route edges_of from (nodes_to cur ++ (nb ∷ [])) nb d
      → IsUnder d s
      → During (IsUnder d) (IsFound d) (search_next to cur nb meta s)
  unfolding search_next IsUnder IsFound path_from nodes_to
  search_next-IsUnder d cur nb meta s r h =
      if_rule (During (IsUnder d) (IsFound d)) (same_ref nb to) _ _
        (λ e.
          if_rule (During (IsUnder d) (IsFound d))
            (leb max_paths (length (s.paths ++ (path_from cur nb meta.status ∷ [])))) _ _
            (λ f. (
              found d cur nb meta s r h e,
              omega (arith, length-append s.paths (path_from cur nb meta.status ∷ []), h.1),
            ))
            (λ f. (found d cur nb meta s r h e, ground (arith, f), h.2)))
        (λ e.
          if_rule (During (IsUnder d) (IsFound d)) (has s.seen nb) _ _ (λ f. h)
            (λ f. (h.0, h.1, All-snoc _ s.next _ h.2 r)))

  During-then :
      (d : ℕ) (o : Progress) (f : Search → Progress)
      → During (IsUnder d) (IsFound d) o
      → ((s : Search) → IsUnder d s → During (IsUnder d) (IsFound d) (f s))
      → During
          (IsUnder d)
          (IsFound d)
          (elim o [ going s ↦ f s | returned ps ↦ returned ps | failed ↦ failed ])
  During-then d (going s) f h k = k s h
  During-then d (returned ps) f h k = h
  During-then d failed f h k = tt

  search_edges-IsUnder :
      (d : ℕ) (cur : Step) (edges : Edges) (s : Search)
      → All (λ n. Route edges_of from (nodes_to cur ++ (n ∷ [])) n d) (ends edges)
      → IsUnder d s
      → During (IsUnder d) (IsFound d) (search_edges to cur edges s)
  unfolding search_edges All
  search_edges-IsUnder d cur [] s r h = h
  search_edges-IsUnder d cur ((nb, meta) ∷ edges) s r h =
      During-then d (search_next to cur nb meta s) (search_edges to cur edges)
        (search_next-IsUnder d cur nb meta s r.0 h)
        (λ t k. search_edges-IsUnder d cur edges t r.1 k)

  search_step-IsUnder :
      (d : ℕ) (cur : Step) (s : Search)
      → IsReached d cur
      → IsUnder (suc d) s
      → During
          (IsUnder (suc d))
          (IsFound (suc d))
          (search_step edges_of to cur (edges_of (step_node cur)) s)
  search_step-IsUnder d cur s r h = elim (Option-cases (edges_of (step_node cur))) [
    | inl e ↦ rw (e) tt
    | inr (edges, e) ↦ rw (e) (
        search_edges-IsUnder (suc d) cur edges s
          (All-map _ _ (ends edges) (λ n i. extend r e i) (All-members (ends edges))) h)
  ]

  search_frontier-IsUnder :
      (d : ℕ) (frontier : List Step) (s : Search)
      → All (IsReached d) frontier
      → IsUnder (suc d) s
      → During (IsUnder (suc d)) (IsFound (suc d)) (search_frontier edges_of to frontier s)
  unfolding search_frontier All
  search_frontier-IsUnder d [] s r h = h
  search_frontier-IsUnder d (cur ∷ frontier) s r h =
      During-then (suc d) (search_step edges_of to cur (edges_of (step_node cur)) s)
        (search_frontier edges_of to frontier) (search_step-IsUnder d cur s r.0 h)
        (λ t k. search_frontier-IsUnder d frontier t r.1 k)

  -- A search is over with its paths, found on routes that are no longer than it has made hops.
  IsFound-longer : (d e : ℕ) (ps : List GraphPath) → d ≤ e → IsFound d ps → IsFound e ps
  unfolding IsFound
  IsFound-longer d e ps b h = (All-map _ _ ps (λ p i. (i.0, i.1, omega (arith, b, i.2))) h.0, h.1)

  under : (d : ℕ) (s : Search) → IsUnder d s → IsFound d s.paths
  unfolding IsUnder IsFound
  under d s h = (h.0, omega (arith, h.1))

  bumped : (d : ℕ) (s : Search) → IsUnder d s → IsUnder (suc d) (record s { next = [] })
  unfolding IsUnder All
  bumped d s h = (All-map _ _ s.paths (λ p i. (i.0, i.1, omega (arith, i.2))) h.0, h.1, tt)

  hop_rest :
      (left d : ℕ) (o : Progress)
      → During (IsUnder (suc d)) (IsFound (suc d)) o
      → ((t : Search) → IsUnder (suc d) t → Holds (IsFound (suc left + d)) (hop edges_of to left t))
      → Holds (IsFound (suc left + d)) (elim o [
        | going t ↦
            let more = hop edges_of to left t in if no_paths t.paths then more else some t.paths
        | returned ps ↦ some ps
        | failed ↦ none
      ])
  hop_rest left d (going t) h f =
      if_rule (Holds (IsFound (suc left + d))) (no_paths t.paths) _ _ (λ _. f t h)
        (λ _. IsFound-longer (suc d) (suc left + d) t.paths (omega arith) (under (suc d) t h))
  hop_rest left d (returned ps) h f = IsFound-longer (suc d) (suc left + d) ps (omega arith) h
  hop_rest left d failed h f = tt

  hop-IsFound :
      (left d : ℕ) (s : Search) → IsUnder d s → Holds (IsFound (left + d)) (hop edges_of to left s)
  unfolding hop IsUnder IsFound
  hop-IsFound zero d s h = IsFound-longer d (zero + d) s.paths (omega arith) (under d s h)
  hop-IsFound (suc left) d s h =
      if_rule (Holds (IsFound (suc left + d))) (none_next s.next) _ _
        (λ _. IsFound-longer d (suc left + d) s.paths (omega arith) (under d s h))
        (λ _.
          hop_rest left d (search_frontier edges_of to s.next (record s { next = [] }))
            (search_frontier-IsUnder d s.next (record s { next = [] }) h.2 (bumped d s h))
            (λ t k.
              subst (λ n. Holds (IsFound n) (hop edges_of to left t)) (omega arith)
                (hop-IsFound left (suc d) t k)))

  -- A search that no query fails in returns at most `maxPaths` paths, each of which is a route from
  -- the one node to the other along no more edges than the hops asked for, where 1 stands for less,
  -- and than `MaxDepth`.
  pub find_paths-Route :
      (hops : ℤ)
      → Holds
          (λ ps.
            All (λ p. (k : ℕ) × Route edges_of from p.nodes to k × (k ≤ hops_of hops)) ps
            × (length ps ≤ max_paths))
          (find_paths edges_of from to hops)
  unfolding find_paths IsFound IsUnder All nodes_to
  find_paths-Route hops =
      if_rule (Holds (IsFound (hops_of hops))) (same_ref from to) _ _
        (λ e. (
          (
            (
              0,
              subst (λ n. Route edges_of from (from ∷ []) n 0) ((same_ref_iff from to).0 e) begin,
              omega arith,
            ),
            tt,
          ),
          omega arith,
        ))
        (λ _.
          subst
            (λ n. Holds (IsFound n) (
              hop edges_of to (hops_of hops)
                (record { seen = from ∷ []; next = first from ∷ []; paths = [] })))
            (omega arith)
            (hop-IsFound (hops_of hops) 0
              (record { seen = from ∷ []; next = first from ∷ []; paths = [] })
              (tt, omega arith, (begin, tt))))
