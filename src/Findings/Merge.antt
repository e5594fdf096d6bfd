-- ===== src/Findings/Merge.antt =====
-- The lists that internal/findings/findings.go gathers from events and merges.
use quetzalog.Base.{
  ℕ, Bool, false, not, List, [], ◌∷◌, ◌++◌, Text, codes, equal, one_of, if◌then◌else◌, Option, none,
  some, leb, length,
}
use quetzalog.Spl.Unicode.{Unicode, to_lower, trim}

-- The fields of an event that a finding takes.
pub record Event : Type 0 where
  pub id : Text
  pub user : Text
  pub host : Text
  pub source_ip : Text
  pub destination_ip : Text
  pub process : Text

-- `Severity`.
unfoldable pub severity : Unicode → Text → Text
unfolding to_lower trim one_of
severity u raw =
    let s = to_lower u (trim raw) in
    if one_of (codes "critical" ∷ codes "emergency" ∷ codes "alert" ∷ []) s
    then codes "critical"
    else if one_of (codes "high" ∷ codes "err" ∷ codes "error" ∷ []) s
    then codes "high"
    else if one_of (codes "medium" ∷ codes "warning" ∷ codes "warn" ∷ codes "notice" ∷ []) s
    then codes "medium"
    else if one_of (codes "low" ∷ codes "info" ∷ codes "debug" ∷ [] ∷ []) s
    then codes "low"
    else codes "medium"

-- `SeverityPoints`.
unfoldable pub severity_points : Unicode → Text → ℕ
unfolding severity
severity_points u s =
    if equal (severity u s) (codes "critical")
    then 50
    else if equal (severity u s) (codes "high")
    then 35
    else if equal (severity u s) (codes "medium")
    then 20
    else 10

abbrev pub statuses : List Text
statuses =
    codes "new"
    ∷ codes "in_progress"
    ∷ codes "investigating"
    ∷ codes "contained"
    ∷ codes "resolved"
    ∷ codes "false_positive"
    ∷ []

-- `ValidStatus`.
unfoldable pub valid_status : Text → Bool
valid_status = one_of statuses

-- An element behind a list that does not have it; the list is also the set `seen`.
unfoldable pub add_new : List Text → Text → List Text
unfolding one_of
add_new out v = if one_of out v then out else out ++ v ∷ []

-- The two loops of `mergeStrings`.
unfoldable pub add_all : List Text → List Text → List Text
unfolding add_new
add_all out [] = out
add_all out (v ∷ vs) = add_all (add_new out v) vs

unfoldable pub add_up_to : ℕ → List Text → List Text → List Text
unfolding add_new
add_up_to cap out [] = out
add_up_to cap out (v ∷ vs) =
    let rest = add_up_to cap (add_new out v) vs in if leb cap (length out) then out else rest

-- `mergeStrings`.
unfoldable pub merge_strings : List Text → List Text → ℕ → List Text
unfolding add_all add_up_to
merge_strings base add cap = add_up_to cap (add_all [] base) add

abbrev pub is_known : Option Event → Bool
is_known none = false
is_known (some ev) = not (equal ev.id [])

-- The loop over the events of `CreateOrUpdateFromDetection` that gathers their identifiers.
unfoldable pub event_ids : List Text → List (Option Event) → List Text
unfolding add_new
event_ids out [] = out
event_ids out (none ∷ evs) = event_ids out evs
event_ids out (some ev ∷ evs) = event_ids (if equal ev.id [] then out else add_new out ev.id) evs

abbrev pub add_entity : Text → List Text → Text → List Text
add_entity kind ents value = if equal value [] then ents else add_new ents (kind ++ b':' ∷ value)

abbrev pub event_entities : Event → List Text → List Text
event_entities ev ents =
    let with_user = add_entity (codes "user") ents ev.user in
    let with_host = add_entity (codes "host") with_user ev.host in
    let with_source = add_entity (codes "ip") with_host ev.source_ip in
    let with_both = add_entity (codes "ip") with_source ev.destination_ip in
    add_entity (codes "process") with_both ev.process

-- The same loop and the one behind it, as they fill the set `ents`.
unfoldable pub entities_of : List Text → List (Option Event) → List Text
unfolding add_new
entities_of ents [] = ents
entities_of ents (none ∷ evs) = entities_of ents evs
entities_of ents (some ev ∷ evs) =
    entities_of (if equal ev.id [] then ents else event_entities ev ents) evs

unfoldable pub given_entities : List Text → List Text → List Text
unfolding add_new
given_entities ents [] = ents
given_entities ents (e ∷ es) = given_entities (if equal e [] then ents else add_new ents e) es

abbrev pub or_set : Text → Text → Text
or_set [] new = new
or_set (c ∷ s) new = c ∷ s

pub record Primary : Type 0 where
  pub user : Text
  pub host : Text
  pub source_ip : Text
  pub destination_ip : Text

-- `primaryEntities`; once all four are set, as where it stops, the rest changes nothing.
unfoldable pub primary_from : Primary → List (Option Event) → Primary
primary_from p [] = p
primary_from p (none ∷ evs) = primary_from p evs
primary_from p (some ev ∷ evs) =
    primary_from
      (record {
        user = or_set p.user ev.user;
        host = or_set p.host ev.host;
        source_ip = or_set p.source_ip ev.source_ip;
        destination_ip = or_set p.destination_ip ev.destination_ip;
      })
      evs

abbrev pub primary_entities : List (Option Event) → Primary
primary_entities =
    primary_from (record { user = []; host = []; source_ip = []; destination_ip = [] })
