-- ===== src/Findings/Calls.antt =====
-- The calls that change the tables of internal/findings/findings.go once findings come from
-- detections, as values, and runs of them.
use quetzalog.Base.{ℕ, ◌+◌, List, [], ◌∷◌, Text, equal, if◌then◌else◌, Option, none, some}
use quetzalog.Spl.Unicode.{Unicode}
use quetzalog.Findings.Store.{
  Finding, Note, Tables, DetectionArgs, Scores, Fresh, find_key, update_status, assign, add_note,
}
use quetzalog.Findings.Detect.{dedup_key_of, from_detection}

pub data Call (F T : Type 0) : Type 0 where
  detect : Fresh T → DetectionArgs F → Call F T
  set_status : Text → Text → T → Call F T
  set_owner : Text → Text → T → Call F T
  note : Note T → Call F T

abbrev pub kept : {A : Type 0} → A → Option A → A
kept old none = old
kept old (some new) = new

-- The matches of a call that went through.
abbrev pub matches_of : {A : Type 0} → ℕ → Option A → ℕ
matches_of n none = 0
matches_of n (some a) = n

abbrev pub count_of : {F T : Type 0} → Option (Finding F T) → ℕ
count_of none = 0
count_of (some f) = f.match_count

module _ {F T : Type 0} where
  -- The matches that the finding with a key counts.
  unfoldable pub count_at : Text → Tables F T → ℕ
  unfolding find_key
  count_at key tables = count_of (find_key key tables.findings)

module _ {F T : Type 0} (u : Unicode) (scores : Scores F) where
  -- The tables behind a call; a call that fails leaves them as they are.
  unfoldable pub after_call : Call F T → Tables F T → Tables F T
  unfolding from_detection update_status assign add_note
  after_call (detect fresh args) tables = kept tables (from_detection u scores fresh args tables)
  after_call (set_status id status now) tables = kept tables (update_status id status now tables)
  after_call (set_owner id owner now) tables = kept tables (assign id owner now tables)
  after_call (note n) tables = kept tables (add_note n tables)

  unfoldable pub after_calls : List (Call F T) → Tables F T → Tables F T
  unfolding after_call
  after_calls [] tables = tables
  after_calls (c ∷ cs) tables = after_calls cs (after_call c tables)

  -- The matches reported for a key by the calls that went through.
  unfoldable pub reported_by : Text → Call F T → Tables F T → ℕ
  unfolding from_detection
  reported_by key (detect fresh args) tables =
      if equal (dedup_key_of args.rule_id args.group_key) key
      then matches_of args.matched (from_detection u scores fresh args tables)
      else 0
  reported_by key (set_status id status now) tables = 0
  reported_by key (set_owner id owner now) tables = 0
  reported_by key (note n) tables = 0

  unfoldable pub reported : Text → List (Call F T) → Tables F T → ℕ
  unfolding reported_by after_call
  reported key [] tables = 0
  reported key (c ∷ cs) tables = reported_by key c tables + reported key cs (after_call c tables)
