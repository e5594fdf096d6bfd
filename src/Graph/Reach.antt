-- ===== src/Graph/Reach.antt =====
-- What `Neighbors` of internal/graph/graph.go returns: which nodes, and at what depth.
use quetzalog.Base.{
  ◌+◌, ◌≤◌, ℕ, ℤ, pos, negsuc, zero, suc, ◌≡◌, refl, sym, ap, subst, ◌∙◌, true, List, [], ◌∷◌, ◌++◌,
  map, if_rule, Option, none, some, arith,
}
use quetzalog.Graph.{NodeRef, has, EdgeMeta, Edges}
use quetzalog.Graph.Neighbors.{
  Entity, TraversalNode, Sweep, root_node, reached_node, visit, sweep, levels, start, capped,
  neighbors, max_depth,
}
use quetzalog.Graph.Sweep.{
  distinct, distinct-snoc, nodes_of, ends, All, All-snoc, All-map, Holds, visit_all_rule,
  sweep_rule, levels_rule, same_ref_iff,
}

-- A walk of so many edges from the root to a node.
pub data Walk (edges_of : NodeRef → Option Edges) (root : NodeRef) : NodeRef → ℕ → Type 0 where
  here : Walk edges_of root root 0
  along :
      {m n : NodeRef} {k : ℕ} {edges : Edges}
      → Walk edges_of root m k
      → edges_of m ≡ some edges
      → has (ends edges) n ≡ true
      → Walk edges_of root n (suc k)

map-snoc :
    {A B : Type 0} (f : A → B) (xs : List A) (x : A)
    → map f (xs ++ (x ∷ [])) ≡ map f xs ++ (f x ∷ [])
map-snoc f [] x = refl
map-snoc f (y ∷ xs) x = ap (◌∷◌ (f y)) (map-snoc f xs x)

pub All-always : {A : Type 0} (P : A → Type 0) (xs : List A) → ((x : A) → P x) → All P xs
unfolding All
All-always P [] f = tt
All-always P (x ∷ xs) f = (f x, All-always P xs f)

pub Holds-map :
    {A : Type 0} (P Q : A → Type 0) (o : Option A) → ((a : A) → P a → Q a) → Holds P o → Holds Q o
Holds-map P Q none f h = tt
Holds-map P Q (some a) f h = f a h

pub Holds-result :
    (P : List TraversalNode → Type 0) (o : Option Sweep)
    → Holds (λ s. P s.result) o
    → Holds P (elim o [ none ↦ none | some s ↦ some s.result ])
Holds-result P none h = tt
Holds-result P (some s) h = h

-- Each node of a list is one of them.
pub All-members : (xs : List NodeRef) → All (λ n. has xs n ≡ true) xs
unfolding All has
All-members [] = tt
All-members (x ∷ xs) = (
  ground (arith, (same_ref_iff x x).1 refl),
  All-map (λ n. has xs n ≡ true) (λ n. has (x ∷ xs) n ≡ true) xs (λ n h. ground (arith, h))
      (All-members xs),
)

capped_bounds : (n : ℕ) → (capped n ≤ n) × (capped n ≤ max_depth)
capped_bounds n = ground arith

-- The nodes of the result are those visited, in order, and no node is there twice.
unfoldable pub IsOrdered : Sweep → Type 0
IsOrdered s = (nodes_of s.result ≡ s.visited) × (distinct s.visited ≡ true)

module _ (edges_of : NodeRef → Option Edges) (entity_of : NodeRef → Option Entity) where
  visit-IsOrdered :
      (level : ℕ) (nb : NodeRef) (meta : EdgeMeta) (s : Sweep)
      → IsOrdered s
      → IsOrdered (visit edges_of entity_of level nb meta s)
  unfolding visit IsOrdered reached_node
  visit-IsOrdered level nb meta s h =
      if_rule IsOrdered (has s.visited nb) s _ (λ _. h)
        (λ e. (
          map-snoc (λ t. t.node) s.result _ ∙ ap (λ ns. ns ++ (nb ∷ [])) h.0,
          distinct-snoc s.visited nb h.1 e,
        ))

  pub levels-IsOrdered :
      (left level : ℕ) (s : Sweep)
      → IsOrdered s
      → Holds IsOrdered (levels edges_of entity_of left level s)
  unfolding IsOrdered
  levels-IsOrdered left level s h =
      levels_rule edges_of entity_of (λ _. IsOrdered)
        (λ level s h.
          sweep_rule edges_of entity_of level IsOrdered (λ _. Unit)
            (λ cur edges s _ _ k.
              visit_all_rule edges_of entity_of level IsOrdered (λ _. Unit)
                (λ nb meta s _ j. visit-IsOrdered level nb meta s j) edges s
                (All-always (λ _. Unit) (ends edges) (λ _. tt)) k)
            s.next _ (All-always (λ _. Unit) s.next (λ _. tt)) h)
        (λ level s _ h. h) left level s h

  -- A traversal that no query fails in returns no node twice.
  pub neighbors-distinct :
      (root : NodeRef) (depth : ℤ)
      → Holds (λ ts. distinct (nodes_of ts) ≡ true) (neighbors edges_of entity_of root depth)
  unfolding neighbors distinct IsOrdered has root_node
  neighbors-distinct root (negsuc n) = refl
  neighbors-distinct root (pos zero) = refl
  neighbors-distinct root (pos (suc n)) =
      Holds-result (λ ts. distinct (nodes_of ts) ≡ true)
        (levels edges_of entity_of (capped (suc n)) 1 (start root))
        (Holds-map _ _ (levels edges_of entity_of (capped (suc n)) 1 (start root))
          (λ s h. subst (λ ns. distinct ns ≡ true) (sym h.0) h.1)
          (levels-IsOrdered (capped (suc n)) 1 (start root) (refl, refl)))

  -- A result of which each node is at the end of a walk as long as its depth, which is at most `d`,
  -- and a queue of nodes at the end of a walk of `d` edges.
  unfoldable IsWalked : NodeRef → ℕ → Sweep → Type 0
  IsWalked root zero s = ⊥
  IsWalked root (suc d) s =
      All (λ t. Walk edges_of root t.node t.depth × (t.depth ≤ d)) s.result
      × All (λ n. Walk edges_of root n d) s.next

  visit-IsWalked :
      (root : NodeRef) (d : ℕ) (nb : NodeRef) (meta : EdgeMeta) (s : Sweep)
      → Walk edges_of root nb d
      → IsWalked root (suc d) s
      → IsWalked root (suc d) (visit edges_of entity_of d nb meta s)
  unfolding visit IsWalked reached_node
  visit-IsWalked root d nb meta s w h =
      if_rule (IsWalked root (suc d)) (has s.visited nb) s _ (λ _. h)
        (λ _. (All-snoc _ s.result _ h.0 (w, omega arith), All-snoc _ s.next nb h.1 w))

  sweep-IsWalked :
      (root : NodeRef) (d : ℕ) (s : Sweep)
      → IsWalked root (suc d) s
      → Holds
          (IsWalked root (suc (suc d)))
          (sweep edges_of entity_of (suc d) s.next (record s { next = [] }))
  unfolding IsWalked All
  sweep-IsWalked root d s h =
      sweep_rule edges_of entity_of (suc d) (IsWalked root (suc (suc d)))
        (λ n. Walk edges_of root n d)
        (λ cur edges s w e k.
          visit_all_rule edges_of entity_of (suc d) (IsWalked root (suc (suc d)))
            (λ n. Walk edges_of root n (suc d))
            (λ nb meta s j. visit-IsWalked root (suc d) nb meta s j) edges s
            (All-map _ _ (ends edges) (λ n j. along w e j) (All-members (ends edges))) k)
        s.next (record s { next = [] }) h.1
        (All-map _ _ s.result (λ t k. (k.0, omega (arith, k.1))) h.0, tt)

  level-IsWalked :
      (root : NodeRef) (level : ℕ) (s : Sweep)
      → IsWalked root level s
      → Holds
          (IsWalked root (suc level))
          (sweep edges_of entity_of level s.next (record s { next = [] }))
  unfolding IsWalked
  level-IsWalked root zero s h = absurd h
  level-IsWalked root (suc d) s h = sweep-IsWalked root d s h

  done-IsWalked :
      (root : NodeRef) (level : ℕ) (s : Sweep)
      → s.next ≡ []
      → IsWalked root level s
      → IsWalked root (suc level) s
  unfolding IsWalked All
  done-IsWalked root zero s e h = absurd h
  done-IsWalked root (suc d) s e h = (
    All-map _ _ s.result (λ t k. (k.0, omega (arith, k.1))) h.0,
    subst (All (λ n. Walk edges_of root n (suc d))) (sym e) tt,
  )

  IsWalked-at :
      (root : NodeRef) (d : ℕ) (s : Sweep) → IsWalked root (d + 1) s → IsWalked root (suc d) s
  IsWalked-at root d s h = subst (λ level. IsWalked root level s) (omega arith) h

  -- Every node that a traversal returns is at the end of a walk from the root of as many edges as
  -- its depth, which is at most the depth asked for and at most `MaxDepth`.
  pub neighbors-Walk :
      (root : NodeRef) (depth : ℕ)
      → Holds
          (All (λ t. Walk edges_of root t.node t.depth × (t.depth ≤ depth) × (t.depth ≤ max_depth)))
          (neighbors edges_of entity_of root (pos depth))
  unfolding neighbors IsWalked All root_node
  neighbors-Walk root zero = tt
  neighbors-Walk root (suc n) =
      Holds-result
        (All (λ t. Walk edges_of root t.node t.depth × (t.depth ≤ suc n) × (t.depth ≤ max_depth)))
        (levels edges_of entity_of (capped (suc n)) 1 (start root))
        (Holds-map (IsWalked root (capped (suc n) + 1)) _
          (levels edges_of entity_of (capped (suc n)) 1 (start root))
          (λ s h.
            All-map _ _ s.result
              (λ t k. (
                k.0,
                omega (arith, k.1, (capped_bounds (suc n)).0),
                omega (arith, k.1, (capped_bounds (suc n)).1),
              ))
              (IsWalked-at root (capped (suc n)) s h).0)
          (levels_rule edges_of entity_of (IsWalked root) (level-IsWalked root) (done-IsWalked root)
            (capped (suc n)) 1 (start root) (((here, omega arith), tt), (here, tt))))
