-- ===== src/Graph/Samples.antt =====
-- Runs of the traversals, internal/graph/graph.go, on a graph of three nodes.
use quetzalog.Base.{
  ℕ, pos, ◌≤◌, ◌≡◌, ◌≢◌, refl, true, [], ◌∷◌, codes, equal, if◌then◌else◌, if_rule, Option, none,
  some, length, arith,
}
use quetzalog.Graph.{NodeRef, same_ref, has, EdgeMeta, Edges}
use quetzalog.Graph.Neighbors.{Entity, neighbors, max_depth}
use quetzalog.Graph.Sweep.{All, Holds, distinct, nodes_of}
use quetzalog.Graph.Reach.{Walk, here, along, neighbors-distinct, neighbors-Walk}
use quetzalog.Graph.Nearest.{returns_by, neighbors-returns_by}
use quetzalog.Graph.Answers.{neighbors-answers}
use quetzalog.Graph.Paths.{find_paths, hops_of, max_paths}
use quetzalog.Graph.Trails.{Route, find_paths-Route}

abbrev user : NodeRef
user = record { kind = codes "user"; value = codes "ann" }

abbrev host : NodeRef
host = record { kind = codes "host"; value = codes "web" }

abbrev address : NodeRef
address = record { kind = codes "ip"; value = codes "::1" }

abbrev seen_edge : EdgeMeta
seen_edge = record { relation = codes "uses"; status = codes "observed"; source = [] }

-- The user uses the host, which has the address.
unfoldable sample_edges : NodeRef → Option Edges
unfolding same_ref
sample_edges n =
    if same_ref n user
    then some ((host, seen_edge) ∷ [])
    else if same_ref n host
    then some ((user, seen_edge) ∷ (address, seen_edge) ∷ [])
    else some ((host, seen_edge) ∷ [])

abbrev no_entity : NodeRef → Option Entity
no_entity n = none

neighbors-distinct_example :
    Holds (λ ts. distinct (nodes_of ts) ≡ true) (neighbors sample_edges no_entity user (pos 2))
neighbors-distinct_example = neighbors-distinct sample_edges no_entity user (pos 2)

neighbors-Walk_example :
    Holds
      (All (λ t. Walk sample_edges user t.node t.depth × (t.depth ≤ 2) × (t.depth ≤ max_depth)))
      (neighbors sample_edges no_entity user (pos 2))
neighbors-Walk_example = neighbors-Walk sample_edges no_entity user 2

user-address : Walk sample_edges user address 2
unfolding sample_edges has equal
user-address =
    along {m = host} {edges = (user, seen_edge) ∷ (address, seen_edge) ∷ []}
      (along {m = user} {edges = (host, seen_edge) ∷ []} here refl refl) refl refl

two_within : 2 ≤ max_depth
two_within = omega arith

some_deep : 1 ≤ 2
some_deep = omega arith

no_deeper : 2 ≤ 2
no_deeper = omega arith

neighbors-returns_by_example :
    Holds (λ ts. returns_by address 2 ts ≡ true) (neighbors sample_edges no_entity user (pos 2))
neighbors-returns_by_example =
    neighbors-returns_by sample_edges no_entity user address 2 2 user-address some_deep no_deeper
      two_within

sample_edges-answers : (n : NodeRef) → sample_edges n ≢ none
unfolding sample_edges
sample_edges-answers n =
    if_rule (λ o. o ≢ none) (same_ref n user) _ _ (λ _ e. absurd (cc))
      (λ _. if_rule (λ o. o ≢ none) (same_ref n host) _ _ (λ _ e. absurd (cc)) (λ _ e. absurd (cc)))

neighbors-answers_example : neighbors sample_edges no_entity user (pos 2) ≢ none
neighbors-answers_example =
    neighbors-answers sample_edges no_entity sample_edges-answers user (pos 2)

find_paths-Route_example :
    Holds
      (λ ps.
        All (λ p. (k : ℕ) × Route sample_edges user p.nodes address k × (k ≤ hops_of (pos 3))) ps
        × (length ps ≤ max_paths))
      (find_paths sample_edges user address (pos 3))
find_paths-Route_example = find_paths-Route sample_edges user address (pos 3)
