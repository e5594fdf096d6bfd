-- ===== src/Graph.antt =====
-- internal/graph/graph.go: the traversals of the knowledge graph. The two queries of the database
-- are parameters: the edges around a node under the state filter, which may fail, and the entity
-- row of a node. The map that `edgesOf` returns is a list in the order in which Go walks it.
pub mod Neighbors
pub mod Sweep
pub mod Reach
pub mod Levels
pub mod Nearest
pub mod Answers
pub mod Paths
pub mod Trails
mod Samples
use quetzalog.Base.{
  ℕ, ℤ, Bool, true, false, ◌&&◌, List, [], ◌∷◌, ◌++◌, map, Text, codes, equal, if◌then◌else◌,
  Option, none, some,
}
use quetzalog.Spl.Serializer.Text.{join_texts}

pub record NodeRef : Type 0 where
  pub kind : Text
  pub value : Text

-- `==` on `NodeRef`.
unfoldable pub same_ref : NodeRef → NodeRef → Bool
same_ref a b = equal a.kind b.kind && equal a.value b.value

-- Whether a set of nodes, a Go map to true, has a node.
unfoldable pub has : List NodeRef → NodeRef → Bool
unfolding same_ref
has [] n = false
has (m ∷ ms) n = elim (same_ref m n) [ true ↦ true | false ↦ has ms n ]

pub record EdgeMeta : Type 0 where
  pub relation : Text
  pub status : Text
  pub source : Text

-- `map[NodeRef]edgeMeta`.
abbrev pub Edges : Type 0
Edges = List (NodeRef × EdgeMeta)

-- `statesFilter`: the SQL text and the arguments that it binds.
unfoldable pub states_filter : List Text → Text × List Text
states_filter [] = ([], [])
states_filter (s ∷ ss) = (
  codes " AND COALESCE(m.status, 'observed') IN ("
      ++ (join_texts (codes ",") (map (λ _. codes "?") (s ∷ ss)) ++ codes ")"),
  s ∷ ss,
)
