-- ===== src/Graph/Neighbors.antt =====
-- `Neighbors` of internal/graph/graph.go.
use quetzalog.Base.{
  ℕ, ℤ, pos, negsuc, zero, suc, Bool, true, false, List, [], ◌∷◌, ◌++◌, Text, codes, if◌then◌else◌,
  Option, none, some, leb,
}
use quetzalog.Graph.{NodeRef, has, EdgeMeta, Edges}

-- The columns of an entity row: its count, and its first and last time as text.
pub record Entity : Type 0 where
  pub count : ℤ
  pub first_seen : Text
  pub last_seen : Text

pub record TraversalNode : Type 0 where
  pub node : NodeRef
  pub relation : Text
  pub depth : ℕ
  pub status : Text
  pub source : Text
  pub count : ℤ
  pub first_seen : Text
  pub last_seen : Text

-- `result`, `visited` and `next`.
pub record Sweep : Type 0 where
  pub result : List TraversalNode
  pub visited : List NodeRef
  pub next : List NodeRef

abbrev pub max_depth : ℕ
max_depth = 4

unfoldable pub root_node : NodeRef → TraversalNode
root_node root = record {
  node = root;
  relation = [];
  depth = 0;
  status = codes "observed";
  source = [];
  count = pos 0;
  first_seen = [];
  last_seen = [];
}

-- The entity row of a node as far as it was scanned; none where nothing of it was.
abbrev or_unseen : Option Entity → Entity
or_unseen (some e) = e
or_unseen none = record { count = pos 0; first_seen = []; last_seen = [] }

unfoldable pub reached_node : ℕ → NodeRef → EdgeMeta → Entity → TraversalNode
reached_node level nb meta e = record {
  node = nb;
  relation = meta.relation;
  depth = level;
  status = meta.status;
  source = meta.source;
  count = e.count;
  first_seen = e.first_seen;
  last_seen = e.last_seen;
}

abbrev pub is_empty : List NodeRef → Bool
is_empty [] = true
is_empty (n ∷ ns) = false

abbrev pub start : NodeRef → Sweep
start root = record { result = root_node root ∷ []; visited = root ∷ []; next = root ∷ [] }

abbrev pub capped : ℕ → ℕ
capped depth = if leb depth max_depth then depth else max_depth

module _ (edges_of : NodeRef → Option Edges) (entity_of : NodeRef → Option Entity) where
  -- One round of the loop over the edges of a node.
  unfoldable pub visit : ℕ → NodeRef → EdgeMeta → Sweep → Sweep
  unfolding has reached_node
  visit level nb meta s = if has s.visited nb then s else record {
    result = s.result ++ (reached_node level nb meta (or_unseen (entity_of nb)) ∷ []);
    visited = s.visited ++ (nb ∷ []);
    next = s.next ++ (nb ∷ []);
  }

  unfoldable pub visit_all : ℕ → Edges → Sweep → Sweep
  unfolding visit
  visit_all level [] s = s
  visit_all level ((nb, meta) ∷ edges) s = visit_all level edges (visit level nb meta s)

  -- The loop over the queue, which stops at the first error.
  unfoldable pub sweep : ℕ → List NodeRef → Sweep → Option Sweep
  unfolding visit_all
  sweep level [] s = some s
  sweep level (cur ∷ queue) s = elim (edges_of cur) [
    | none ↦ none
    | some edges ↦ sweep level queue (visit_all level edges s)
  ]

  -- The loop over the levels: how many are left, and the level under way.
  unfoldable pub levels : ℕ → ℕ → Sweep → Option Sweep
  unfolding sweep
  levels zero level s = some s
  levels (suc left) level s =
      if is_empty s.next then some s else elim (sweep level s.next (record s { next = [] })) [
        | none ↦ none
        | some s' ↦ levels left (suc level) s'
      ]

  unfoldable pub neighbors : NodeRef → ℤ → Option (List TraversalNode)
  unfolding levels root_node
  neighbors root (negsuc n) = some []
  neighbors root (pos zero) = some []
  neighbors root (pos (suc n)) = elim (levels (capped (suc n)) 1 (start root)) [
    | none ↦ none
    | some s ↦ some s.result
  ]
