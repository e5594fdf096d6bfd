-- ===== src/Graph/Nearest.antt =====
-- The least depth at which `Neighbors` of internal/graph/graph.go returns a node.
use quetzalog.Base.{
  ◌+◌, ◌≤◌, ℕ, pos, zero, suc, ◌≡◌, refl, sym, subst, inl, inr, Bool, true, false, ◌&&◌, List, [],
  ◌∷◌, if_rule, Bool-cases, Option, none, some, arith, leb,
}
use quetzalog.Graph.{NodeRef, has, same_ref, EdgeMeta, Edges}
use quetzalog.Graph.Neighbors.{
  Entity, TraversalNode, Sweep, root_node, reached_node, visit, sweep, levels, start, capped,
  neighbors, max_depth,
}
use quetzalog.Graph.Sweep.{
  has-append, distinct, nodes_of, ends, All, All-snoc, Holds, levels_rule, sweep_rule,
  visit_all_rule, same_ref_iff,
}
use quetzalog.Graph.Reach.{
  Walk, here, along, IsOrdered, Holds-map, Holds-result, levels-IsOrdered, All-always,
}
use quetzalog.Graph.Levels.{IsCovered, level-IsCovered, done-IsCovered}

-- Whether a traversal returns a node, at a depth of at most `k`.
unfoldable pub returns_by : NodeRef → ℕ → List TraversalNode → Bool
returns_by n k [] = false
returns_by n k (t ∷ ts) = elim (same_ref t.node n && leb t.depth k) [
  | true ↦ true
  | false ↦ returns_by n k ts
]

Holds-both :
    {A : Type 0} (P Q : A → Type 0) (o : Option A)
    → Holds P o
    → Holds Q o
    → Holds (λ a. P a × Q a) o
Holds-both P Q none h k = tt
Holds-both P Q (some a) h k = (h, k)

capped_least : (n k : ℕ) → k ≤ n → k ≤ max_depth → k ≤ capped n
capped_least n k h i = ground arith

module _ (edges_of : NodeRef → Option Edges) (entity_of : NodeRef → Option Entity) where
  -- No walk to a node of the result is shorter than its depth.
  unfoldable IsNearest : NodeRef → TraversalNode → Type 0
  IsNearest root t = (k : ℕ) → Walk edges_of root t.node k → t.depth ≤ k

  -- What a level keeps: its result, and that no node visited before is dropped.
  unfoldable IsLater : NodeRef → List NodeRef → Sweep → Type 0
  IsLater root before s =
      All (IsNearest root) s.result × ((v : NodeRef) → has before v ≡ true → has s.visited v ≡ true)

  visit-IsLater :
      (root : NodeRef) (before : List NodeRef) (d : ℕ)
      → ((n : NodeRef) (k : ℕ) → Walk edges_of root n k → k ≤ d → has before n ≡ true)
      → (nb : NodeRef) (meta : EdgeMeta) (s : Sweep) → IsLater root before s
      → IsLater root before (visit edges_of entity_of (suc d) nb meta s)
  unfolding visit IsLater IsNearest reached_node
  visit-IsLater root before d walks nb meta s h =
      if_rule (IsLater root before) (has s.visited nb) s _ (λ _. h)
        (λ e. (
          All-snoc _ s.result _ h.0 (λ k w. elim (Bool-cases (leb k d)) [
            | inl f ↦ ground (arith, e, h.1 nb (walks nb k w (ground (arith, f))))
            | inr f ↦ ground (arith, f)
          ]),
          λ v i. ground (arith, h.1 v i, has-append s.visited (nb ∷ []) v),
        ))

  sweep-IsLater :
      (root : NodeRef) (d : ℕ) (s : Sweep)
      → IsCovered edges_of entity_of root (suc d) s
      → All (IsNearest root) s.result
      → Holds
          (λ t. All (IsNearest root) t.result)
          (sweep edges_of entity_of (suc d) s.next (record s { next = [] }))
  unfolding IsLater IsCovered
  sweep-IsLater root d s c h =
      Holds-map (IsLater root s.visited) _
        (sweep edges_of entity_of (suc d) s.next (record s { next = [] })) (λ t k. k.0)
        (sweep_rule edges_of entity_of (suc d) (IsLater root s.visited) (λ _. Unit)
          (λ cur edges r _ _ k.
            visit_all_rule edges_of entity_of (suc d) (IsLater root s.visited) (λ _. Unit)
              (λ nb meta r _ j. visit-IsLater root s.visited d c.1 nb meta r j) edges r
              (All-always (λ _. Unit) (ends edges) (λ _. tt)) k)
          s.next (record s { next = [] }) (All-always (λ _. Unit) s.next (λ _. tt)) (h, λ v i. i))

  unfoldable IsExact : NodeRef → ℕ → Sweep → Type 0
  unfolding IsCovered
  IsExact root level s = IsCovered edges_of entity_of root level s × All (IsNearest root) s.result

  level-IsExact :
      (root : NodeRef) (level : ℕ) (s : Sweep)
      → IsExact root level s
      → Holds
          (IsExact root (suc level))
          (sweep edges_of entity_of level s.next (record s { next = [] }))
  unfolding IsExact IsCovered
  level-IsExact root zero s h = absurd h.0
  level-IsExact root (suc d) s h =
      Holds-both _ _ (sweep edges_of entity_of (suc d) s.next (record s { next = [] }))
        (level-IsCovered edges_of entity_of root (suc d) s h.0) (sweep-IsLater root d s h.0 h.1)

  done-IsExact :
      (root : NodeRef) (level : ℕ) (s : Sweep)
      → s.next ≡ []
      → IsExact root level s
      → IsExact root (suc level) s
  unfolding IsExact
  done-IsExact root level s e h = (done-IsCovered edges_of entity_of root level s e h.0, h.1)

  root_has : (root n : NodeRef) (k : ℕ) → Walk edges_of root n k → k ≤ 0 → has (root ∷ []) n ≡ true
  unfolding has
  root_has root n zero here b = ground (arith, (same_ref_iff n n).1 refl)
  root_has root n (suc k) (along w e h) b = absurd (omega arith)

  start-IsExact : (root : NodeRef) → IsExact root 1 (start root)
  unfolding IsExact IsCovered IsNearest All has root_node
  start-IsExact root =
      ((λ v i. inl i, λ n k w b. root_has root n k w b), ((λ k w. omega arith), tt))

  IsExact-at :
      (root : NodeRef) (d : ℕ) (s : Sweep) → IsExact root (d + 1) s → IsExact root (suc d) s
  IsExact-at root d s h = subst (λ level. IsExact root level s) (omega arith) h

  returns_by_lem :
      (root n : NodeRef) (k : ℕ) (ts : List TraversalNode)
      → Walk edges_of root n k
      → All (IsNearest root) ts
      → has (nodes_of ts) n ≡ true
      → returns_by n k ts ≡ true
  unfolding returns_by IsNearest All has
  returns_by_lem root n k [] w h i = absurd (cc)
  returns_by_lem root n k (t ∷ ts) w h i = elim (Bool-cases (same_ref t.node n)) [
    | inl e ↦ ground (
      arith,
      e,
      h.0 k (subst (λ m. Walk edges_of root m k) (sym ((same_ref_iff t.node n).0 e)) w),
    )
    | inr e ↦ ground (arith, e, returns_by_lem root n k ts w h.1 (ground (arith, e, i)))
  ]

  -- A traversal to a depth of at least one that no query fails in returns every node to which there
  -- is a walk from the root of at most the depth asked for and at most `MaxDepth` edges, at a depth
  -- no greater than the length of that walk.
  pub neighbors-returns_by :
      (root n : NodeRef) (depth k : ℕ)
      → Walk edges_of root n k
      → 1 ≤ depth
      → k ≤ depth
      → k ≤ max_depth
      → Holds (λ ts. returns_by n k ts ≡ true) (neighbors edges_of entity_of root (pos depth))
  unfolding neighbors IsExact IsCovered IsOrdered distinct has root_node
  neighbors-returns_by root n zero k w h i j = absurd (omega arith)
  neighbors-returns_by root n (suc d) k w h i j =
      Holds-result (λ ts. returns_by n k ts ≡ true)
        (levels edges_of entity_of (capped (suc d)) 1 (start root))
        (Holds-map (λ s. IsOrdered s × IsExact root (capped (suc d) + 1) s) _
          (levels edges_of entity_of (capped (suc d)) 1 (start root))
          (λ s g. returns_by_lem root n k s.result w (IsExact-at root (capped (suc d)) s g.1).1 (
            subst (λ ns. has ns n ≡ true) (sym g.0.0)
              ((IsExact-at root (capped (suc d)) s g.1).0.1 n k w (capped_least (suc d) k i j))))
          (Holds-both _ _ (levels edges_of entity_of (capped (suc d)) 1 (start root))
            (levels-IsOrdered edges_of entity_of (capped (suc d)) 1 (start root) (refl, refl))
            (levels_rule edges_of entity_of (IsExact root) (level-IsExact root) (done-IsExact root)
              (capped (suc d)) 1 (start root) (start-IsExact root))))
