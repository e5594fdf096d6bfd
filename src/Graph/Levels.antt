-- ===== src/Graph/Levels.antt =====
-- Which nodes `Neighbors` of internal/graph/graph.go does not miss.
use quetzalog.Base.{
  ◌≤◌, ℕ, zero, suc, ◌≡◌, refl, sym, ap, subst, ◌∙◌, ◌⊎◌, inl, inr, true, List, [], ◌∷◌, ◌++◌,
  if_rule, Bool-cases, Option, none, some, Option-cases, arith,
}
use quetzalog.Graph.{NodeRef, has, same_ref, EdgeMeta, Edges}
use quetzalog.Graph.Neighbors.{Entity, Sweep, visit, visit_all, sweep}
use quetzalog.Graph.Sweep.{has-append, ends, All, All-map, Holds, same_ref_iff}
use quetzalog.Graph.Reach.{Walk, here, along, Holds-map}

pub All-has :
    (P : NodeRef → Type 0) (xs : List NodeRef) (n : NodeRef) → All P xs → has xs n ≡ true → P n
unfolding All has
All-has P [] n h k = absurd (cc)
All-has P (x ∷ xs) n h k = elim (Bool-cases (same_ref x n)) [
  | inl e ↦ subst P ((same_ref_iff x n).0 e) h.0
  | inr e ↦ All-has P xs n h.1 (ground (arith, e, k))
]

empty_has : (ns : List NodeRef) (v : NodeRef) → ns ≡ [] → has ns v ≡ true → ⊥
unfolding has
empty_has [] v e h = absurd (cc)
empty_has (n ∷ ns) v e h = absurd (cc)

pub has-snoc : (xs : List NodeRef) (n : NodeRef) → has (xs ++ (n ∷ [])) n ≡ true
unfolding has
has-snoc xs n = ground (arith, has-append xs (n ∷ []) n, (same_ref_iff n n).1 refl)

-- Visited nodes stay visited, and those that are new are in the next queue.
unfoldable pub IsGrown : Sweep → Sweep → Type 0
IsGrown s t =
    ((v : NodeRef) → has s.visited v ≡ true → has t.visited v ≡ true)
    × ((v : NodeRef) → has s.next v ≡ true → has t.next v ≡ true)
    × ((v : NodeRef) → has t.visited v ≡ true → (has s.visited v ≡ true) ⊎ (has t.next v ≡ true))

IsGrown-refl : (s : Sweep) → IsGrown s s
unfolding IsGrown
IsGrown-refl s = (λ v h. h, λ v h. h, λ v h. inl h)

IsGrown-trans : (r s t : Sweep) → IsGrown r s → IsGrown s t → IsGrown r t
unfolding IsGrown
IsGrown-trans r s t h k = (
  λ v j. k.0 v (h.0 v j),
  λ v j. k.1 v (h.1 v j),
  λ v j. elim (k.2 v j) [
    | inr i ↦ inr i
    | inl i ↦ elim (h.2 v i) [ inl m ↦ inl m | inr m ↦ inr (k.1 v m) ]
  ],
)

pub kept :
    (s t : Sweep) → IsGrown s t → (v : NodeRef) → has s.visited v ≡ true → has t.visited v ≡ true
unfolding IsGrown
kept s t g = g.0

module _ (edges_of : NodeRef → Option Edges) (entity_of : NodeRef → Option Entity) where
  -- A node whose neighbours are all visited.
  unfoldable pub IsClosed : List NodeRef → NodeRef → Type 0
  IsClosed visited v =
      (edges : Edges) → edges_of v ≡ some edges → All (λ n. has visited n ≡ true) (ends edges)

  pub visit-IsGrown :
      (level : ℕ) (nb : NodeRef) (meta : EdgeMeta) (s : Sweep)
      → IsGrown s (visit edges_of entity_of level nb meta s)
        × (has (visit edges_of entity_of level nb meta s).visited nb ≡ true)
  unfolding visit IsGrown
  visit-IsGrown level nb meta s =
      if_rule (λ t. IsGrown s t × (has t.visited nb ≡ true)) (has s.visited nb) s _
        (λ e. (IsGrown-refl s, e))
        (λ e. (
          (
            λ v h. ground (arith, h, has-append s.visited (nb ∷ []) v),
            λ v h. ground (arith, h, has-append s.next (nb ∷ []) v),
            λ v h. elim (Bool-cases (has s.visited v)) [
              | inl i ↦ inl i
              | inr i ↦ inr (
                  ground
                    (arith, h, i, has-append s.visited (nb ∷ []) v, has-append s.next (nb ∷ []) v))
            ],
          ),
          has-snoc s.visited nb,
        ))

  pub visit_all-IsGrown :
      (level : ℕ) (edges : Edges) (s : Sweep)
      → IsGrown s (visit_all edges_of entity_of level edges s)
        × All (λ n. has (visit_all edges_of entity_of level edges s).visited n ≡ true) (ends edges)
  unfolding visit_all All
  visit_all-IsGrown level [] s = (IsGrown-refl s, tt)
  visit_all-IsGrown level ((nb, meta) ∷ edges) s =
      let one = visit-IsGrown level nb meta s in
      let others = visit_all-IsGrown level edges (visit edges_of entity_of level nb meta s) in
      (
        IsGrown-trans s (visit edges_of entity_of level nb meta s)
            (visit_all edges_of entity_of level edges (visit edges_of entity_of level nb meta s))
            one.0 others.0,
        (
          kept (visit edges_of entity_of level nb meta s)
              (visit_all edges_of entity_of level edges (visit edges_of entity_of level nb meta s))
              others.0 nb one.1,
          others.1,
        ),
      )

  IsClosed-grown :
      (s t : Sweep) (v : NodeRef) → IsGrown s t → IsClosed s.visited v → IsClosed t.visited v
  unfolding IsClosed IsGrown
  IsClosed-grown s t v g h edges e = All-map _ _ (ends edges) g.0 (h edges e)

  IsClosed-by :
      (visited : List NodeRef) (v : NodeRef) (edges : Edges)
      → edges_of v ≡ some edges
      → All (λ n. has visited n ≡ true) (ends edges)
      → IsClosed visited v
  unfolding IsClosed
  IsClosed-by visited v edges e h others e' =
      subst (λ es. All (λ n. has visited n ≡ true) (ends es))
        (ap (λ o. elim o [ none ↦ edges | some es ↦ es ]) (sym e ∙ e')) h

  sweep-IsGrown :
      (level : ℕ) (queue : List NodeRef) (s : Sweep)
      → Holds
          (λ t. IsGrown s t × All (IsClosed t.visited) queue)
          (sweep edges_of entity_of level queue s)
  unfolding sweep All
  sweep-IsGrown level [] s = (IsGrown-refl s, tt)
  sweep-IsGrown level (cur ∷ queue) s = elim (Option-cases (edges_of cur)) [
    | inl e ↦ rw (sweep, e) tt
    | inr (edges, e) ↦
        rw (sweep, e)
          (Holds-map _ _
            (sweep edges_of entity_of level queue (visit_all edges_of entity_of level edges s))
            (λ t h.
              let m = visit_all-IsGrown level edges s in
              (
                IsGrown-trans s (visit_all edges_of entity_of level edges s) t m.0 h.0,
                (
                  IsClosed-by t.visited cur edges e (
                      All-map _ _ (ends edges)
                        (kept (visit_all edges_of entity_of level edges s) t h.0) m.1),
                  h.1,
                ),
              ))
            (sweep-IsGrown level queue (visit_all edges_of entity_of level edges s)))
  ]

  -- Every visited node waits in the queue or is closed, and the nodes at the end of a walk of at
  -- most `d` edges are visited.
  unfoldable pub IsCovered : NodeRef → ℕ → Sweep → Type 0
  IsCovered root zero s = ⊥
  IsCovered root (suc d) s =
      ((v : NodeRef) → has s.visited v ≡ true → (has s.next v ≡ true) ⊎ IsClosed s.visited v)
      × ((n : NodeRef) (k : ℕ) → Walk edges_of root n k → k ≤ d → has s.visited n ≡ true)

  -- One edge more, when the nodes that were visited before are closed.
  further :
      (root : NodeRef) (d : ℕ) (before after : List NodeRef)
      → ((n : NodeRef) (k : ℕ) → Walk edges_of root n k → k ≤ d → has before n ≡ true)
      → ((v : NodeRef) → has before v ≡ true → has after v ≡ true)
      → ((v : NodeRef) → has before v ≡ true → IsClosed after v)
      → (n : NodeRef) (k : ℕ) → Walk edges_of root n k
      → k ≤ suc d
      → has after n ≡ true
  unfolding IsClosed
  further root d before after walks grown closed n zero here b =
      grown n (walks n zero here (omega arith))
  further root d before after walks grown closed n (suc k) (along {m} {edges = edges} w e h) b =
      All-has (λ i. has after i ≡ true) (ends edges) n
        (closed m (walks m k w (omega arith)) edges e) h

  IsClosed-old :
      (root : NodeRef) (d : ℕ) (s t : Sweep)
      → IsCovered root (suc d) s
      → IsGrown (record s { next = [] }) t
      → All (IsClosed t.visited) s.next
      → (v : NodeRef) → has s.visited v ≡ true
      → IsClosed t.visited v
  unfolding IsCovered
  IsClosed-old root d s t h g a v i = elim (h.0 v i) [
    | inl j ↦ All-has (IsClosed t.visited) s.next v a j
    | inr c ↦ IsClosed-grown (record s { next = [] }) t v g c
  ]

  pub level-IsCovered :
      (root : NodeRef) (level : ℕ) (s : Sweep)
      → IsCovered root level s
      → Holds
          (IsCovered root (suc level))
          (sweep edges_of entity_of level s.next (record s { next = [] }))
  unfolding IsCovered IsGrown
  level-IsCovered root zero s h = absurd h
  level-IsCovered root (suc d) s h =
      Holds-map _ _ (sweep edges_of entity_of (suc d) s.next (record s { next = [] }))
        (λ t g. (
          λ v i. elim (g.0.2 v i) [
            | inl j ↦ inr (IsClosed-old root d s t h g.0 g.1 v j)
            | inr j ↦ inl j
          ],
          further root d s.visited t.visited h.1 g.0.0 (IsClosed-old root d s t h g.0 g.1),
        ))
        (sweep-IsGrown (suc d) s.next (record s { next = [] }))

  pub done-IsCovered :
      (root : NodeRef) (level : ℕ) (s : Sweep)
      → s.next ≡ []
      → IsCovered root level s
      → IsCovered root (suc level) s
  unfolding IsCovered has
  done-IsCovered root zero s e h = absurd h
  done-IsCovered root (suc d) s e h = (
    h.0,
    further root d s.visited s.visited h.1 (λ v i. i)
        (λ v i. elim (h.0 v i) [ inl j ↦ absurd (empty_has s.next v e j) | inr c ↦ c ]),
  )
