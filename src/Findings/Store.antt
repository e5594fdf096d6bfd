-- ===== src/Findings/Store.antt =====
-- The store of findings, internal/findings/findings.go, with its two tables as lists. Risk scores
-- are floats, a parameter with their comparisons; the constraints of the schema are written out, and
-- other failures of the database are left out. The order in which Go lists the map of entities is
-- an argument, as are a new identifier and the times. `match_count` is a Go int in two's complement,
-- a number below 2 ^ 64.
use quetzalog.Base.{
  ℕ, Bool, ◌&&◌, ◌||◌, not, List, [], ◌∷◌, Text, equal, any_row, if◌then◌else◌, Option, none, some,
}
use quetzalog.Findings.Merge.{Event, valid_status}

pub record Finding (F T : Type 0) : Type 0 where
  pub id : Text
  pub title : Text
  pub description : Text
  pub severity : Text
  pub status : Text
  pub risk_score : F
  pub detection_id : Text
  pub detection_name : Text
  pub dedup_key : Text
  pub user : Text
  pub host : Text
  pub source_ip : Text
  pub destination_ip : Text
  pub data_source : Text
  pub mitre_tactic : Text
  pub mitre_technique : Text
  pub owner : Text
  pub tags : List Text
  pub alert_ids : List Text
  pub event_ids : List Text
  pub entities : List Text
  pub match_count : ℕ
  pub first_seen : T
  pub last_seen : T
  pub created_at : T
  pub updated_at : T

pub record Note (T : Type 0) : Type 0 where
  pub id : Text
  pub finding_id : Text
  pub author : Text
  pub content : Text
  pub created_at : T

pub record Tables (F T : Type 0) : Type 0 where
  pub findings : List (Finding F T)
  pub notes : List (Note T)

-- `FromDetectionArgs`; the number of matches is an int, in the same way.
pub record DetectionArgs (F : Type 0) : Type 0 where
  pub rule_id : Text
  pub rule_name : Text
  pub group_key : Text
  pub title : Text
  pub description : Text
  pub severity : Text
  pub risk_score : F
  pub data_source : Text
  pub mitre_tactic : Text
  pub mitre_technique : Text
  pub tags : List Text
  pub matched : ℕ
  pub events : List (Option Event)
  pub entities : List Text

pub record Scores (F : Type 0) : Type 0 where
  pub is_zero : F → Bool
  pub less : F → F → Bool
  pub of_points : ℕ → F

pub record Fresh (T : Type 0) : Type 0 where
  pub id : Text
  pub now : T
  pub listed : List Text → List Text

module _ {F T : Type 0} where
  -- `ByDedupKey`, and the row with an identifier.
  unfoldable pub find_key : Text → List (Finding F T) → Option (Finding F T)
  find_key key [] = none
  find_key key (f ∷ fs) =
      let rest = find_key key fs in if equal f.dedup_key key then some f else rest

  abbrev pub by_dedup_key : Text → List (Finding F T) → Option (Finding F T)
  by_dedup_key [] fs = none
  by_dedup_key (c ∷ key) fs = find_key (c ∷ key) fs

  -- `UPDATE findings SET ... WHERE id = ?`.
  unfoldable pub update_findings :
      Text → (Finding F T → Finding F T) → List (Finding F T) → List (Finding F T)
  update_findings id g [] = []
  update_findings id g (f ∷ fs) = (if equal f.id id then g f else f) ∷ update_findings id g fs

  abbrev pub with_findings : List (Finding F T) → Tables F T → Tables F T
  with_findings fs tables = record tables { findings = fs }

  -- Whether the primary key or the unique `dedup_key`, which is null when empty, stops an insert.
  abbrev pub is_clash : Finding F T → Finding F T → Bool
  is_clash f g = equal g.id f.id || (not (equal f.dedup_key []) && equal g.dedup_key f.dedup_key)

  -- `Create` of a finding that has its identifier, severity, status and times; none when it fails.
  unfoldable pub create : Finding F T → Tables F T → Option (Tables F T)
  unfolding any_row
  create f tables =
      if any_row (is_clash f) tables.findings
      then none
      else some (with_findings (f ∷ tables.findings) tables)

  -- What `Update` writes: all columns but the identifier, `dedup_key` and `created_at`.
  abbrev pub written : Finding F T → T → Finding F T → Finding F T
  written f now row = record f {
    id = row.id;
    dedup_key = row.dedup_key;
    created_at = row.created_at;
    updated_at = now;
  }

  -- `Update`.
  unfoldable pub update : Finding F T → T → Tables F T → Option (Tables F T)
  unfolding update_findings
  update f now tables =
      if equal f.id []
      then none
      else some (with_findings (update_findings f.id (written f now) tables.findings) tables)

  abbrev pub set_where : Text → (Finding F T → Finding F T) → Tables F T → Option (Tables F T)
  set_where id g tables =
      if any_row (λ f. equal f.id id) tables.findings
      then some (with_findings (update_findings id g tables.findings) tables)
      else none

  -- `UpdateStatus`.
  unfoldable pub update_status : Text → Text → T → Tables F T → Option (Tables F T)
  unfolding any_row update_findings valid_status
  update_status id status now tables =
      if valid_status status
      then set_where id (λ f. record f { status = status; updated_at = now }) tables
      else none

  -- `Assign`.
  unfoldable pub assign : Text → Text → T → Tables F T → Option (Tables F T)
  unfolding any_row update_findings
  assign id owner now = set_where id (λ f. record f { owner = owner; updated_at = now })

  -- `AddNote` of a note that has its identifier and time, under the primary key and the reference.
  unfoldable pub add_note : Note T → Tables F T → Option (Tables F T)
  unfolding any_row
  add_note note tables =
      if equal note.finding_id [] || equal note.content []
      then none
      else if any_row (λ n. equal n.id note.id) tables.notes
          || not (any_row (λ f. equal f.id note.finding_id) tables.findings)
      then none
      else some (record tables { notes = note ∷ tables.notes })
