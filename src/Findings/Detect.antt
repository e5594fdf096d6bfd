-- ===== src/Findings/Detect.antt =====
-- `CreateOrUpdateFromDetection` of internal/findings/findings.go.
use quetzalog.Base.{
  ◌+◌, ◌%◌, ◌^◌, ◌||◌, List, [], ◌∷◌, ◌++◌, Text, codes, equal, if◌then◌else◌, Option, none, some,
}
use quetzalog.Spl.Unicode.{Unicode}
use quetzalog.Findings.Merge.{
  severity, severity_points, merge_strings, event_ids, entities_of, given_entities,
  primary_entities, or_set,
}
use quetzalog.Findings.Store.{
  Finding, Tables, DetectionArgs, Scores, Fresh, by_dedup_key, create, update,
}

abbrev pub dedup_key_of : Text → Text → Text
dedup_key_of rule group = rule ++ b'|' ∷ group

abbrev pub or_name : Text → Text → Text
or_name [] [] = codes "Detection"
or_name [] (c ∷ s) = c ∷ s
or_name (c ∷ s) name = c ∷ s

-- The title of a new finding; 8212 is the dash.
abbrev pub title_of : Text → Text → Text → Text
title_of title name group =
    if equal group (codes "global")
    then or_name title name
    else or_name title name ++ b' ' ∷ 8212 ∷ b' ' ∷ group

module _ {F T : Type 0} (u : Unicode) (scores : Scores F) where
  abbrev pub entity_list : Fresh T → DetectionArgs F → List Text
  entity_list fresh args = fresh.listed (given_entities (entities_of [] args.events) args.entities)

  -- The finding there is, with what the detection adds.
  unfoldable pub refreshed : Fresh T → DetectionArgs F → Finding F T → Finding F T
  unfolding merge_strings event_ids entities_of given_entities
  refreshed fresh args f =
      let p = primary_entities args.events in
      record f {
        last_seen = fresh.now;
        match_count = (f.match_count + args.matched) % 2 ^ 64;
        event_ids = merge_strings f.event_ids (event_ids [] args.events) 200;
        entities = merge_strings f.entities (entity_list fresh args) 50;
        user = or_set f.user p.user;
        host = or_set f.host p.host;
        source_ip = or_set f.source_ip p.source_ip;
        destination_ip = or_set f.destination_ip p.destination_ip;
        risk_score =
            if scores.less f.risk_score args.risk_score then args.risk_score else f.risk_score;
      }

  unfoldable pub detected : Fresh T → DetectionArgs F → Finding F T
  unfolding severity severity_points event_ids entities_of given_entities
  detected fresh args =
      let p = primary_entities args.events in
      let level = severity u args.severity in
      record {
        id = fresh.id;
        title = title_of args.title args.rule_name args.group_key;
        description = args.description;
        severity = level;
        status = codes "new";
        risk_score =
            if scores.is_zero args.risk_score
            then scores.of_points (severity_points u level)
            else args.risk_score;
        detection_id = args.rule_id;
        detection_name = args.rule_name;
        dedup_key = dedup_key_of args.rule_id args.group_key;
        user = p.user;
        host = p.host;
        source_ip = p.source_ip;
        destination_ip = p.destination_ip;
        data_source = args.data_source;
        mitre_tactic = args.mitre_tactic;
        mitre_technique = args.mitre_technique;
        owner = [];
        tags = args.tags;
        alert_ids = [];
        event_ids = event_ids [] args.events;
        entities = entity_list fresh args;
        match_count = args.matched;
        first_seen = fresh.now;
        last_seen = fresh.now;
        created_at = fresh.now;
        updated_at = fresh.now;
      }

  abbrev pub refresh_or_create :
      Fresh T → DetectionArgs F → Option (Finding F T) → Tables F T → Option (Tables F T)
  refresh_or_create fresh args none tables = create (detected fresh args) tables
  refresh_or_create fresh args (some f) tables = update (refreshed fresh args f) fresh.now tables

  -- `CreateOrUpdateFromDetection`; none when it returns an error.
  unfoldable pub from_detection : Fresh T → DetectionArgs F → Tables F T → Option (Tables F T)
  unfolding refreshed detected create update
  from_detection fresh args tables =
      if equal args.rule_id [] || equal args.group_key []
      then none
      else refresh_or_create fresh args
          (by_dedup_key (dedup_key_of args.rule_id args.group_key) tables.findings) tables
