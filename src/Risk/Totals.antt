-- ===== src/Risk/Totals.antt =====
-- The totals of entities in internal/risk/entity_risk.go against the contributions recorded.
use quetzalog.Base.{
  ℕ, suc, Bool, true, false, ◌&&◌, ◌||◌, List, [], ◌∷◌, ◌≡◌, refl, ap, ◌∙◌, Text, equal, equal_iff,
  if◌then◌else◌, if_rule, arith, Option, none, some,
}
use quetzalog.Risk.{
  Contribution, EntityRisk, Store, is_of, empty_store, new_risk, added_risk, inserted, completed,
  upsert, has_id, record_risk, get_risk,
}
use quetzalog.Spl.Unicode.{Unicode}
use quetzalog.Risk.Scorer.{
  Known, Call, record_call, score_call, contributions_of, record_each, after_call, after_calls,
}

is_of-same : (a b c d t v : Text) → is_of a b c d ≡ true → is_of a b t v ≡ is_of c d t v
unfolding is_of
is_of-same a b c d t v h = grind (arith, equal_iff a c, equal_iff b d)

is_of-both :
    (a b c d t v : Text) → is_of a b t v ≡ true → is_of c d t v ≡ true → is_of a b c d ≡ true
unfolding is_of
is_of-both a b c d t v h k = grind (
  arith,
  equal_iff a t,
  equal_iff b v,
  equal_iff c t,
  equal_iff d v,
  equal_iff a c,
  equal_iff b d,
)

is_of-apart :
    (a b c d t v : Text) → is_of a b c d ≡ false → (is_of a b t v && is_of c d t v) ≡ false
is_of-apart a b c d t v h = grind (arith, is_of-both a b c d t v)

module _ {F T : Type 0} (add : F → F → F) where
  -- The total of an entity behind one more contribution.
  abbrev pub counted : Contribution F T → Option (EntityRisk F T) → EntityRisk F T
  counted c none = new_risk c
  counted c (some e) = added_risk add c e

  -- The total of an entity by the contributions alone, the newest first.
  unfoldable pub total : Text → Text → List (Contribution F T) → Option (EntityRisk F T)
  unfolding is_of
  total t v [] = none
  total t v (c ∷ cs) =
      let before = total t v cs in
      if is_of c.entity_type c.entity_value t v then some (counted c before) else before

  get_risk-head :
      (b : Bool) (c : Contribution F T) (e : EntityRisk F T) (rest : Option (EntityRisk F T))
      → (if b then some (added_risk add c e) else rest)
        ≡ (if b then some (counted c (if b then some e else rest)) else if b then some e else rest)
  get_risk-head true c e rest = refl
  get_risk-head false c e rest = refl

  get_risk-rest :
      (x y : Bool) (c : Contribution F T) (e : EntityRisk F T) (rest : Option (EntityRisk F T))
      → (x && y) ≡ false
      → (if x then some e else if y then some (counted c rest) else rest)
        ≡ (if y then some (counted c (if x then some e else rest)) else if x then some e else rest)
  get_risk-rest true true c e rest h = ground arith
  get_risk-rest true false c e rest h = refl
  get_risk-rest false y c e rest h = refl

  get_risk-upsert :
      (t v : Text) (c : Contribution F T) (es : List (EntityRisk F T))
      → get_risk t v (upsert add c es) ≡ (
          if is_of c.entity_type c.entity_value t v
          then some (counted c (get_risk t v es))
          else get_risk t v es)
  unfolding get_risk upsert
  get_risk-upsert t v c [] = refl
  get_risk-upsert t v c (e ∷ es) =
      let b = is_of e.entity_type e.entity_value t v in
      let d = is_of c.entity_type c.entity_value t v in
      let rest = get_risk t v es in
      let there = if b then some e else rest in
      if_rule (λ l. get_risk t v l ≡ (if d then some (counted c there) else there))
        (is_of e.entity_type e.entity_value c.entity_type c.entity_value) (added_risk add c e ∷ es)
        (e ∷ upsert add c es)
        (λ h.
          get_risk-head b c e rest
          ∙ ap (λ x. if x then some (counted c there) else there)
              (is_of-same e.entity_type e.entity_value c.entity_type c.entity_value t v h))
        (λ h.
          ap (λ r. if b then some e else r) (get_risk-upsert t v c es)
          ∙ get_risk-rest b d c e rest
              (is_of-apart e.entity_type e.entity_value c.entity_type c.entity_value t v h))

  -- The total that the table holds for an entity is the one of the contributions recorded.
  unfoldable IsConsistent : Store F T → Type 0
  unfolding get_risk total
  IsConsistent store = (t v : Text) → get_risk t v store.entities ≡ total t v store.contributions

  unfoldable IsKept : Option (Store F T) → Type 0
  IsKept none = Unit
  IsKept (some store) = IsConsistent store

  inserted-IsKept :
      (c : Contribution F T) (store : Store F T)
      → IsConsistent store
      → IsKept (inserted add c store)
  unfolding IsConsistent IsKept total
  inserted-IsKept c store h =
      if_rule IsKept (has_id c.id store.contributions) none _ (λ _. tt)
        (λ _ t v.
          get_risk-upsert t v c store.entities
          ∙ ap (λ o. if is_of c.entity_type c.entity_value t v then some (counted c o) else o)
              (h t v))

  record_risk-IsKept :
      (fresh : Text) (now : T) (c : Contribution F T) (store : Store F T)
      → IsConsistent store
      → IsKept (record_risk add fresh now c store)
  unfolding record_risk IsKept
  record_risk-IsKept fresh now c store h =
      if_rule IsKept (equal c.entity_type [] || equal c.entity_value []) none
        (inserted add (completed fresh now c) store) (λ _. tt)
        (λ _. inserted-IsKept (completed fresh now c) store h)

  next-IsConsistent :
      (store : Store F T) (o : Option (Store F T)) (next : Store F T → Store F T × Bool)
      → ((s : Store F T) → IsConsistent s → IsConsistent (next s).0)
      → IsConsistent store
      → IsKept o
      → IsConsistent
          (elim o as (λ _. Store F T × Bool) [
            | none ↦ (store, false)
            | some recorded ↦ next recorded
          ]).0
  unfolding IsKept
  next-IsConsistent store none next f h k = h
  next-IsConsistent store (some recorded) next f h k = f recorded k

  record_each-IsConsistent :
      (fresh : ℕ → Text) (clock : ℕ → T) (n : ℕ) (cs : List (Contribution F T)) (store : Store F T)
      → IsConsistent store
      → IsConsistent (record_each add fresh clock n cs store).0
  unfolding record_each
  record_each-IsConsistent fresh clock n [] store h = h
  record_each-IsConsistent fresh clock n (c ∷ cs) store h =
      next-IsConsistent store (record_risk add (fresh n) (clock n) c store)
        (record_each add fresh clock (suc n) cs) (record_each-IsConsistent fresh clock (suc n) cs) h
        (record_risk-IsKept (fresh n) (clock n) c store h)

  or_same-IsConsistent :
      (store : Store F T) (o : Option (Store F T))
      → IsConsistent store
      → IsKept o
      → IsConsistent (elim o [ none ↦ store | some recorded ↦ recorded ])
  unfolding IsKept
  or_same-IsConsistent store none h k = h
  or_same-IsConsistent store (some recorded) h k = k

module _ {F T : Type 0} (add : F → F → F) (float : ℕ → F) (no_time : T) (u : Unicode)
    (known : Known) where
  after_call-IsConsistent :
      (call : Call F T) (store : Store F T)
      → IsConsistent add store
      → IsConsistent add (after_call add float no_time u known call store)
  unfolding after_call
  after_call-IsConsistent (record_call fresh now c) store h =
      or_same-IsConsistent add store (record_risk add fresh now c store) h
        (record_risk-IsKept add fresh now c store h)
  after_call-IsConsistent (score_call fresh clock ev) store h =
      record_each-IsConsistent add fresh clock 0 (contributions_of float no_time u known ev) store h

  after_calls-IsConsistent :
      (calls : List (Call F T)) (store : Store F T)
      → IsConsistent add store
      → IsConsistent add (after_calls add float no_time u known calls store)
  unfolding after_calls
  after_calls-IsConsistent [] store h = h
  after_calls-IsConsistent (call ∷ calls) store h =
      after_calls-IsConsistent calls (after_call add float no_time u known call store)
        (after_call-IsConsistent call store h)

  -- After any calls of `Record` and `ScoreEvent` on empty tables, failed ones among them, `Get`
  -- answers for every entity with the sum and the number of the points of its contributions in the
  -- table of contributions, and with nothing exactly where it has none.
  pub get_risk-after_calls :
      (calls : List (Call F T)) (t v : Text)
      → get_risk t v (after_calls add float no_time u known calls empty_store).entities
        ≡ total add t v (after_calls add float no_time u known calls empty_store).contributions
  unfolding IsConsistent get_risk total
  get_risk-after_calls calls = after_calls-IsConsistent calls empty_store (λ t v. refl)
