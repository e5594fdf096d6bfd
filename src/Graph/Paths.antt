-- ===== src/Graph/Paths.antt =====
-- `Path` of internal/graph/graph.go. A step points to its parent; the first step has none.
use quetzalog.Base.{
  ℕ, ℤ, pos, negsuc, zero, suc, Bool, true, false, List, [], ◌∷◌, ◌++◌, Text, equal, if◌then◌else◌,
  Option, none, some, leb, length,
}
use quetzalog.Graph.{NodeRef, has, same_ref, EdgeMeta, Edges}
use quetzalog.Graph.Neighbors.{capped}

pub record GraphPath : Type 0 where
  pub nodes : List NodeRef
  pub states : List Text

-- `step`.
pub data Step : Type 0 where
  first : NodeRef → Step
  after : Step → NodeRef → (rel status : Text) → Step

abbrev pub step_node : Step → NodeRef
step_node (first n) = n
step_node (after parent n rel status) = n

-- The loop of `pathFrom` over the parents.
unfoldable pub nodes_to : Step → List NodeRef
nodes_to (first n) = n ∷ []
nodes_to (after parent n rel status) = nodes_to parent ++ (n ∷ [])

unfoldable pub states_to : Step → List Text
states_to (first n) = []
states_to (after parent n rel status) =
    let before = states_to parent in if equal rel [] then before else before ++ (status ∷ [])

unfoldable pub path_from : Step → NodeRef → Text → GraphPath
unfolding nodes_to states_to
path_from cur nb status = record {
  nodes = nodes_to cur ++ (nb ∷ []);
  states = states_to cur ++ (status ∷ []);
}

abbrev pub max_paths : ℕ
max_paths = 20

-- `seen`, `next` and `paths`.
pub record Search : Type 0 where
  pub seen : List NodeRef
  pub next : List Step
  pub paths : List GraphPath

-- Whether the search goes on, has returned its paths, or has failed.
pub data Progress : Type 0 where
  going : Search → Progress
  returned : List GraphPath → Progress
  failed : Progress

unfoldable pub search_next : NodeRef → Step → NodeRef → EdgeMeta → Search → Progress
unfolding has same_ref path_from
search_next to cur nb meta s =
    let paths = s.paths ++ (path_from cur nb meta.status ∷ []) in
    if same_ref nb to
    then if leb max_paths (length paths) then returned paths else going (record s { paths = paths })
    else if has s.seen nb
    then going s
    else going (record s {
      seen = s.seen ++ (nb ∷ []);
      next = s.next ++ (after cur nb meta.relation meta.status ∷ []);
    })

-- The loop over the edges of a node.
unfoldable pub search_edges : NodeRef → Step → Edges → Search → Progress
unfolding search_next
search_edges to cur [] s = going s
search_edges to cur ((nb, meta) ∷ edges) s = elim (search_next to cur nb meta s) [
  | going s' ↦ search_edges to cur edges s'
  | returned paths ↦ returned paths
  | failed ↦ failed
]

abbrev pub none_next : List Step → Bool
none_next [] = true
none_next (s ∷ ss) = false

abbrev pub no_paths : List GraphPath → Bool
no_paths [] = true
no_paths (p ∷ ps) = false

-- The bounds on `maxHops`.
abbrev pub hops_of : ℤ → ℕ
hops_of (negsuc n) = 1
hops_of (pos zero) = 1
hops_of (pos (suc n)) = capped (suc n)

module _ (edges_of : NodeRef → Option Edges) where
  abbrev pub search_step : NodeRef → Step → Option Edges → Search → Progress
  search_step to cur none s = failed
  search_step to cur (some edges) s = search_edges to cur edges s

  -- The loop over the frontier.
  unfoldable pub search_frontier : NodeRef → List Step → Search → Progress
  unfolding search_edges
  search_frontier to [] s = going s
  search_frontier to (cur ∷ frontier) s = elim (search_step to cur (edges_of (step_node cur)) s) [
    | going s' ↦ search_frontier to frontier s'
    | returned paths ↦ returned paths
    | failed ↦ failed
  ]

  -- The loop over the hops, which are counted down. The paths are those of the search when it has
  -- found some or has no frontier left.
  unfoldable pub hop : NodeRef → ℕ → Search → Option (List GraphPath)
  unfolding search_frontier
  hop to zero s = some s.paths
  hop to (suc left) s =
      if none_next s.next
      then some s.paths
      else elim (search_frontier to s.next (record s { next = [] })) [
        | going s' ↦ let more = hop to left s' in if no_paths s'.paths then more else some s'.paths
        | returned paths ↦ some paths
        | failed ↦ none
      ]

  unfoldable pub find_paths : NodeRef → NodeRef → ℤ → Option (List GraphPath)
  unfolding hop same_ref
  find_paths from to hops =
      if same_ref from to
      then some (record { nodes = from ∷ []; states = [] } ∷ [])
      else hop to (hops_of hops) (record { seen = from ∷ []; next = first from ∷ []; paths = [] })
