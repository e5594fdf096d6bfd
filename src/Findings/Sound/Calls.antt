-- ===== src/Findings/Sound/Calls.antt =====
-- That the calls of internal/findings/findings.go keep the invariant of its tables.
use quetzalog.Base.{
  ◌||◌, List, [], ◌∷◌, ◌≡◌, refl, Text, equal, one_of, if_rule, Option, none, some,
}
use quetzalog.Spl.Unicode.{Unicode}
use quetzalog.Findings.Merge.{valid_status, event_ids}
use quetzalog.Findings.Lists.{HasNoRepeat, merge_strings_bounds, event_ids-HasNoRepeat}
use quetzalog.Findings.Store.{
  Finding, Tables, DetectionArgs, Scores, Fresh, find_key, by_dedup_key, update_findings,
  with_findings, update, written, update_status, assign, add_note,
}
use quetzalog.Findings.Detect.{dedup_key_of, refreshed, detected, refresh_or_create, from_detection}
use quetzalog.Findings.Calls.{
  Call, detect, set_status, set_owner, note, kept, after_call, after_calls,
}
use quetzalog.Findings.Sound.{
  All-find_key, IsFinding, IsSound, IsSoundReply, add_note-IsSound, assign-IsSound, create-IsSound,
  update_status-IsSound, updated-IsSound,
}

module _ {F T : Type 0} (u : Unicode) (scores : Scores F) (fresh : Fresh T)
    (args : DetectionArgs F) where
  detected-IsFinding : IsFinding (detected u scores fresh args)
  unfolding detected IsFinding valid_status one_of equal HasNoRepeat
  detected-IsFinding = (refl, event_ids-HasNoRepeat [] args.events tt)

  refresh-IsSound :
      (tables : Tables F T) (key : Text) (f : Finding F T)
      → find_key key tables.findings ≡ some f
      → IsSound tables
      → IsSoundReply (update (refreshed u scores fresh args f) fresh.now tables)
  unfolding update refreshed IsSoundReply IsFinding
  refresh-IsSound tables key f h s =
      let old = All-find_key IsFinding key f tables.findings h s.all_findings in
      let new = refreshed u scores fresh args f in
      if_rule IsSoundReply (equal f.id []) none
        (some (with_findings (update_findings f.id (written new fresh.now) tables.findings) tables))
        (λ _. tt)
        (λ _.
          updated-IsSound f.id (written new fresh.now) (λ g. refl) (λ g. refl) tables
            (λ g k. (old.0, (merge_strings_bounds f.event_ids (event_ids [] args.events) 200).0)) s)

  found_or_new :
      (tables : Tables F T) (key : Text) (found : Option (Finding F T))
      → by_dedup_key key tables.findings ≡ found
      → IsSound tables
      → IsSoundReply (refresh_or_create u scores fresh args found tables)
  found_or_new tables key none h s =
      create-IsSound (detected u scores fresh args) tables detected-IsFinding s
  found_or_new tables [] (some f) h s = cc
  found_or_new tables (c ∷ key) (some f) h s = refresh-IsSound tables (c ∷ key) f h s

  from_detection-IsSound :
      (tables : Tables F T)
      → IsSound tables
      → IsSoundReply (from_detection u scores fresh args tables)
  unfolding from_detection IsSoundReply
  from_detection-IsSound tables s =
      let key = dedup_key_of args.rule_id args.group_key in
      let found = by_dedup_key key tables.findings in
      if_rule IsSoundReply (equal args.rule_id [] || equal args.group_key []) none
        (refresh_or_create u scores fresh args found tables) (λ _. tt)
        (λ _. found_or_new tables key found refl s)

kept-IsSound :
    {F T : Type 0} (tables : Tables F T) (reply : Option (Tables F T))
    → IsSound tables
    → IsSoundReply reply
    → IsSound (kept tables reply)
unfolding IsSoundReply
kept-IsSound tables none s r = s
kept-IsSound tables (some new) s r = r

module _ {F T : Type 0} (u : Unicode) (scores : Scores F) where
  pub after_call-IsSound :
      (c : Call F T) (tables : Tables F T) → IsSound tables → IsSound (after_call u scores c tables)
  unfolding after_call
  after_call-IsSound (detect fresh args) tables s =
      kept-IsSound tables (from_detection u scores fresh args tables) s
        (from_detection-IsSound u scores fresh args tables s)
  after_call-IsSound (set_status id status now) tables s =
      kept-IsSound tables (update_status id status now tables) s
        (update_status-IsSound id status now tables s)
  after_call-IsSound (set_owner id owner now) tables s =
      kept-IsSound tables (assign id owner now tables) s (assign-IsSound id owner now tables s)
  after_call-IsSound (note n) tables s =
      kept-IsSound tables (add_note n tables) s (add_note-IsSound n tables s)

  -- Any calls of `CreateOrUpdateFromDetection`, `UpdateStatus`, `Assign` and `AddNote`, failed ones
  -- among them, keep the tables so that no two findings share their identifier or a `dedup_key` that
  -- is not empty, every status is one of the lifecycle, every finding names an event once at most,
  -- and notes have identifiers of their own and findings that exist.
  pub after_calls-IsSound :
      (cs : List (Call F T)) (tables : Tables F T)
      → IsSound tables
      → IsSound (after_calls u scores cs tables)
  unfolding after_calls
  after_calls-IsSound [] tables s = s
  after_calls-IsSound (c ∷ cs) tables s =
      after_calls-IsSound cs (after_call u scores c tables) (after_call-IsSound c tables s)
