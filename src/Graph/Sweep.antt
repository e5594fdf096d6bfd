-- ===== src/Graph/Sweep.antt =====
-- The nodes that `Neighbors` of internal/graph/graph.go has visited.
use quetzalog.Base.{
  ◌+◌, ℕ, zero, suc, ◌≡◌, refl, sym, subst, ◌∙◌, ◌↔◌, inl, inr, Bool, true, false, ◌&&◌, ◌||◌, not,
  List, [], ◌∷◌, ◌++◌, map, equal_iff, if_rule, Bool-cases, Option, none, some, Option-cases, arith,
}
use quetzalog.Graph.{NodeRef, has, same_ref, EdgeMeta, Edges}
use quetzalog.Graph.Neighbors.{
  Entity, TraversalNode, Sweep, visit, visit_all, sweep, levels, is_empty,
}

pub same_ref_iff : (a b : NodeRef) → (same_ref a b ≡ true) ↔ (a ≡ b)
unfolding same_ref
same_ref_iff a b = (
  λ h.
      rw
        (
          (equal_iff a.kind b.kind).0 (ground (arith, h)),
          (equal_iff a.value b.value).0 (ground (arith, h)),
        )
        refl,
  λ e.
      rw (e) (ground (arith, (equal_iff b.kind b.kind).1 refl, (equal_iff b.value b.value).1 refl)),
)

same_ref_sym : (a b : NodeRef) → same_ref a b ≡ same_ref b a
same_ref_sym a b = elim (Bool-cases (same_ref a b)) [
  | inl e ↦ e ∙ sym ((same_ref_iff b a).1 (sym ((same_ref_iff a b).0 e)))
  | inr e ↦ elim (Bool-cases (same_ref b a)) [
    | inl f ↦ (same_ref_iff a b).1 (sym ((same_ref_iff b a).0 f)) ∙ sym f
    | inr f ↦ e ∙ sym f
  ]
]

is_empty_lem : (ns : List NodeRef) → is_empty ns ≡ true → ns ≡ []
is_empty_lem [] h = refl
is_empty_lem (n ∷ ns) h = absurd (cc)

pub has-append : (xs ys : List NodeRef) (n : NodeRef) → has (xs ++ ys) n ≡ (has xs n || has ys n)
unfolding has
has-append [] ys n = refl
has-append (x ∷ xs) ys n = ground (arith, has-append xs ys n)

-- No node twice.
unfoldable pub distinct : List NodeRef → Bool
distinct [] = true
distinct (x ∷ xs) = not (has xs x) && distinct xs

abbrev pub nodes_of : List TraversalNode → List NodeRef
nodes_of = map (λ t. t.node)

abbrev pub ends : Edges → List NodeRef
ends = map (λ e. e.0)

pub distinct-snoc :
    (xs : List NodeRef) (n : NodeRef)
    → distinct xs ≡ true
    → has xs n ≡ false
    → distinct (xs ++ (n ∷ [])) ≡ true
unfolding distinct has
distinct-snoc [] n h k = refl
distinct-snoc (x ∷ xs) n h k =
    ground (arith, distinct-snoc xs n, has-append xs (n ∷ []) x, same_ref_sym x n)

-- What holds of each member.
unfoldable pub All : {A : Type 0} → (A → Type 0) → List A → Type 0
All P [] = Unit
All P (x ∷ xs) = P x × All P xs

module _ {A : Type 0} where
  pub All-snoc : (P : A → Type 0) (xs : List A) (x : A) → All P xs → P x → All P (xs ++ (x ∷ []))
  unfolding All
  All-snoc P [] x h k = (k, tt)
  All-snoc P (y ∷ xs) x h k = (h.0, All-snoc P xs x h.1 k)

  pub All-map : (P Q : A → Type 0) (xs : List A) → ((x : A) → P x → Q x) → All P xs → All Q xs
  unfolding All
  All-map P Q [] f h = tt
  All-map P Q (x ∷ xs) f h = (f x h.0, All-map P Q xs f h.1)

-- What holds of a traversal that no query has failed in.
abbrev pub Holds : {A : Type 0} → (A → Type 0) → Option A → Type 0
Holds P none = Unit
Holds P (some s) = P s

module _ (edges_of : NodeRef → Option Edges) (entity_of : NodeRef → Option Entity) where
  -- What every visit keeps, the loop over the edges keeps.
  pub visit_all_rule :
      (level : ℕ) (P : Sweep → Type 0) (Q : NodeRef → Type 0)
      → ((nb : NodeRef) (meta : EdgeMeta) (s : Sweep)
          → Q nb
          → P s
          → P (visit edges_of entity_of level nb meta s))
      → (edges : Edges) (s : Sweep) → All Q (ends edges)
      → P s
      → P (visit_all edges_of entity_of level edges s)
  unfolding visit_all All
  visit_all_rule level P Q f [] s h k = k
  visit_all_rule level P Q f ((nb, meta) ∷ edges) s h k =
      visit_all_rule level P Q f edges _ h.1 (f nb meta s h.0 k)

  -- What the edges of every node of the queue keep, the loop over the queue keeps.
  pub sweep_rule :
      (level : ℕ) (P : Sweep → Type 0) (R : NodeRef → Type 0)
      → ((cur : NodeRef) (edges : Edges) (s : Sweep)
          → R cur
          → edges_of cur ≡ some edges
          → P s
          → P (visit_all edges_of entity_of level edges s))
      → (queue : List NodeRef) (s : Sweep) → All R queue
      → P s
      → Holds P (sweep edges_of entity_of level queue s)
  unfolding sweep All
  sweep_rule level P R f [] s h k = k
  sweep_rule level P R f (cur ∷ queue) s h k = elim (Option-cases (edges_of cur)) [
    | inl e ↦ rw (sweep, e) tt
    | inr (edges, e) ↦ rw (sweep, e) (sweep_rule level P R f queue _ h.1 (f cur edges s h.0 e k))
  ]

  stays :
      (P : ℕ → Sweep → Type 0)
      → ((level : ℕ) (s : Sweep) → s.next ≡ [] → P level s → P (suc level) s)
      → (left level : ℕ) (s : Sweep) → s.next ≡ []
      → P level s
      → P (left + level) s
  stays P g zero level s e h = subst (λ k. P k s) (omega arith) h
  stays P g (suc left) level s e h =
      subst (λ k. P k s) (omega arith) (stays P g left (suc level) s e (g level s e h))

  level_rule :
      (P : ℕ → Sweep → Type 0) (end left level : ℕ) (s : Sweep)
      → Holds (P (suc level)) (sweep edges_of entity_of level s.next (record s { next = [] }))
      → ((s' : Sweep)
          → P (suc level) s'
          → Holds (P end) (levels edges_of entity_of left (suc level) s'))
      → Holds (P end) (elim (sweep edges_of entity_of level s.next (record s { next = [] })) [
        | none ↦ none
        | some s' ↦ levels edges_of entity_of left (suc level) s'
      ])
  level_rule P end left level s h f =
      elim (Option-cases (sweep edges_of entity_of level s.next (record s { next = [] }))) [
        | inl e ↦ rw (e) tt
        | inr (s', e) ↦ rw (e) (f s' (subst (Holds (P (suc level))) e h))
      ]

  -- What every level carries over to the next, and an empty queue too, the traversal ends with.
  pub levels_rule :
      (P : ℕ → Sweep → Type 0)
      → ((level : ℕ) (s : Sweep)
          → P level s
          → Holds (P (suc level)) (sweep edges_of entity_of level s.next (record s { next = [] })))
      → ((level : ℕ) (s : Sweep) → s.next ≡ [] → P level s → P (suc level) s)
      → (left level : ℕ) (s : Sweep) → P level s
      → Holds (P (left + level)) (levels edges_of entity_of left level s)
  unfolding levels
  levels_rule P f g zero level s h = subst (λ k. P k s) (omega arith) h
  levels_rule P f g (suc left) level s h =
      if_rule (Holds (P (suc left + level))) (is_empty s.next) (some s) _
        (λ e. stays P g (suc left) level s (is_empty_lem s.next e) h)
        (λ _. level_rule P (suc left + level) left level s (f level s h) (λ s' k.
          subst (λ n. Holds (P n) (levels edges_of entity_of left (suc level) s')) (omega arith)
            (levels_rule P f g left (suc level) s' k)))
