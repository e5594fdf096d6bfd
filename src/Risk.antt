-- ===== src/Risk.antt =====
-- The risk of entities, internal/risk/entity_risk.go and internal/risk/event_scoring.go. The two
-- tables of the database are lists: the contributions with the newest first, and one row per entity.
-- Go's floats are a parameter with their addition, and the times are one. Failures of the database
-- are left out but for the primary key.
use quetzalog.Base.{
  ℕ, suc, ◌+◌, Bool, true, false, ◌&&◌, ◌||◌, List, [], ◌∷◌, ◌++◌, Text, codes, equal, one_of, ◌==◌,
  if◌then◌else◌, Option, none, some,
}
use quetzalog.Spl.Unicode.{Unicode, to_lower, trim}
pub mod Scorer
pub mod Totals
mod Samples

pub record Contribution (F T : Type 0) : Type 0 where
  pub id : Text
  pub entity_type : Text
  pub entity_value : Text
  pub source_type : Text
  pub source_id : Text
  pub description : Text
  pub points : F
  pub event_id : Text
  pub created_at : T

pub record EntityRisk (F T : Type 0) : Type 0 where
  pub entity_type : Text
  pub entity_value : Text
  pub risk_score : F
  pub findings : ℕ
  pub updated : T

pub record Store (F T : Type 0) : Type 0 where
  pub contributions : List (Contribution F T)
  pub entities : List (EntityRisk F T)

unfoldable pub is_of : Text → Text → Text → Text → Bool
is_of a b c d = equal a c && equal b d

abbrev pub empty_store : {F T : Type 0} → Store F T
empty_store = record { contributions = []; entities = [] }

abbrev pub or_else : Text → Text → Text
or_else other [] = other
or_else other (c ∷ s) = c ∷ s

module _ {F T : Type 0} where
  -- What `Record` completes a contribution to, with the identifier that `uuid.New` makes.
  abbrev pub completed : Text → T → Contribution F T → Contribution F T
  completed fresh now c = record {
    id = or_else fresh c.id;
    entity_type = c.entity_type;
    entity_value = c.entity_value;
    source_type = or_else (codes "event") c.source_type;
    source_id = c.source_id;
    description = c.description;
    points = c.points;
    event_id = c.event_id;
    created_at = now;
  }

  -- Whether the primary key of risk_contributions is taken.
  unfoldable pub has_id : Text → List (Contribution F T) → Bool
  has_id id [] = false
  has_id id (r ∷ rs) = equal id r.id || has_id id rs

  -- The row that the upsert of entity_risk inserts, and the one it makes of a row there is.
  abbrev pub new_risk : Contribution F T → EntityRisk F T
  new_risk r = record {
    entity_type = r.entity_type;
    entity_value = r.entity_value;
    risk_score = r.points;
    findings = 1;
    updated = r.created_at;
  }

module _ {F T : Type 0} (add : F → F → F) where
  abbrev pub added_risk : Contribution F T → EntityRisk F T → EntityRisk F T
  added_risk r e = record {
    entity_type = e.entity_type;
    entity_value = e.entity_value;
    risk_score = add e.risk_score r.points;
    findings = e.findings + 1;
    updated = r.created_at;
  }

  unfoldable pub upsert : Contribution F T → List (EntityRisk F T) → List (EntityRisk F T)
  unfolding is_of
  upsert r [] = new_risk r ∷ []
  upsert r (e ∷ es) =
      let rest = upsert r es in
      if is_of e.entity_type e.entity_value r.entity_type r.entity_value
      then added_risk r e ∷ es
      else e ∷ rest

  -- The two statements of the transaction, none when the first violates the primary key.
  abbrev pub inserted : Contribution F T → Store F T → Option (Store F T)
  inserted c store =
      if has_id c.id store.contributions
      then none
      else some
          (record { contributions = c ∷ store.contributions; entities = upsert c store.entities })

  -- `Record`: none when it returns an error, which leaves the tables as they are.
  unfoldable pub record_risk : Text → T → Contribution F T → Store F T → Option (Store F T)
  unfolding upsert has_id
  record_risk fresh now c store =
      if equal c.entity_type [] || equal c.entity_value []
      then none
      else inserted (completed fresh now c) store

-- `Get`.
unfoldable pub get_risk :
    {F T : Type 0} → Text → Text → List (EntityRisk F T) → Option (EntityRisk F T)
unfolding is_of
get_risk t v [] = none
get_risk t v (e ∷ es) =
    let rest = get_risk t v es in if is_of e.entity_type e.entity_value t v then some e else rest
