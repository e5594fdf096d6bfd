-- ===== src/Detections/Scenario.antt =====
-- internal/detections/scenario.go: the status of the steps and of the runs of a scenario. What the
-- database answers for a run is a parameter, and what is written to it is the run itself; a write may
-- fail, but the rows of the run itself are read back. A time is in nanoseconds, a confidence in
-- hundredths, and the risk of a run an exact fraction.
use quetzalog.Base.{
  ℕ, suc, ◌+◌, ◌-◌, ◌*◌, Bool, true, false, ◌&&◌, ◌||◌, not, List, [], ◌∷◌, ◌++◌, Text, codes,
  equal, one_of, ltb, leb, ◌==◌, if◌then◌else◌, Option, none, some, length,
}
use quetzalog.Spl.Unicode.{Unicode, to_lower}

pub record ScenarioDef : Type 0 where
  pub name : Text
  pub title : Text
  pub description : Text
  pub risk : Text
  pub severity : Text
  pub trigger : Text
  pub prerequisites : List Text
  pub expected_techniques : List Text
  pub required_sources : List Text

pub data StepStatus : Type 0 where
  observed : StepStatus
  blocked : StepStatus
  unknown : StepStatus
  expected : StepStatus
  missing : StepStatus

-- The identifiers that are written as JSON, or words.
pub data Evidence : Type 0 where
  event_ids : List Text → Evidence
  words : Text → Evidence

pub record Step : Type 0 where
  pub status : StepStatus
  pub evidence : Evidence
  pub confidence : ℕ

pub data RunStatus : Type 0 where
  active : RunStatus
  completed : RunStatus
  stale : RunStatus

pub record Fraction : Type 0 where
  pub num : ℕ
  pub den : ℕ

-- A row of `scenario_runs` with its rows of `scenario_steps`, by technique.
pub record Run : Type 0 where
  pub definition : ScenarioDef
  pub status : RunStatus
  pub opened_at : ℕ
  pub closed_at : Option ℕ
  pub steps : List (Text × Step)
  pub confidence : Fraction
  pub risk : Fraction

-- The identifier and the outcome of each event with a technique in the run's window, none when the
-- query fails, the source classes available on the host, and whether the upsert of a step and the
-- update of the run go through.
pub record Feed : Type 0 where
  pub events_of : Text → Option (List (Text × Text))
  pub available : Text → Bool
  pub writes_step : Text → Bool
  pub writes_run : Bool

abbrev pub hour : ℕ
hour = 3600000000000

-- `confidenceFor`.
unfoldable pub confidence_for : ℕ → ℕ
confidence_for n =
    if leb n 1 then 60 else if ltb 95 (60 + 10 * (n - 1)) then 95 else 60 + 10 * (n - 1)

unfoldable pub any_available : (Text → Bool) → List Text → Bool
any_available available [] = false
any_available available (s ∷ ss) = available s || any_available available ss

-- `telemetryCovers`.
unfoldable pub telemetry_covers : ScenarioDef → (Text → Bool) → Bool
unfolding any_available
telemetry_covers def available = elim def.required_sources [
  | [] ↦ true
  | s ∷ ss ↦ any_available available (s ∷ ss)
]

module _ (u : Unicode) where
  unfoldable pub is_blocked : Text → Bool
  is_blocked outcome =
      one_of (codes "failure" ∷ codes "blocked" ∷ codes "denied" ∷ []) (to_lower u outcome)

  -- The loop over the rows: the events observed, and those blocked.
  unfoldable pub sort_rows : List (Text × Text) → List Text × List Text
  unfolding is_blocked
  sort_rows [] = ([], [])
  sort_rows ((id, outcome) ∷ rows) =
      let (seen, stopped) = sort_rows rows in
      if is_blocked outcome then (seen, id ∷ stopped) else (id ∷ seen, stopped)

  -- A technique without events.
  unfoldable pub quiet_step : ScenarioDef → Text → ℕ → ℕ → (Text → Bool) → Step
  unfolding telemetry_covers
  quiet_step def tech opened now available =
      if not (telemetry_covers def available)
      then (record {
        status = unknown;
        evidence =
            words
              (codes "telemetry insufficient to determine whether " ++ (tech ++ codes " occurred"));
        confidence = 0;
      })
      else if ltb now (opened + 2 * hour)
      then (record { status = expected; evidence = words []; confidence = 0 })
      else (record {
        status = missing;
        evidence = words (codes "no evidence within telemetry bounds");
        confidence = 60;
      })

  abbrev pub found_step : Step → List Text × List Text → Step
  found_step quiet (id ∷ ids, stopped) = record {
    status = observed;
    evidence = event_ids (id ∷ ids);
    confidence = confidence_for (length (id ∷ ids));
  }
  found_step quiet ([], id ∷ ids) = record {
    status = blocked;
    evidence = event_ids (id ∷ ids);
    confidence = confidence_for (length (id ∷ ids));
  }
  found_step quiet ([], []) = quiet

  -- `stepStatus`.
  unfoldable pub step_status : ScenarioDef → Text → ℕ → ℕ → Feed → Step
  unfolding sort_rows quiet_step confidence_for
  step_status def tech opened now feed = elim (feed.events_of tech) [
    | none ↦ record { status = unknown; evidence = words []; confidence = 0 }
    | some rows ↦ found_step (quiet_step def tech opened now feed.available) (sort_rows rows)
  ]

unfoldable pub find_step : List (Text × Step) → Text → Option Step
find_step [] tech = none
find_step ((t, s) ∷ steps) tech =
    let more = find_step steps tech in if equal t tech then some s else more

-- The upsert of a step.
unfoldable pub put_step : Text → Step → List (Text × Step) → List (Text × Step)
put_step tech s [] = (tech, s) ∷ []
put_step tech s ((t, r) ∷ steps) =
    let more = put_step tech s steps in if equal t tech then (t, s) ∷ steps else (t, r) ∷ more

abbrev pub is_observed : Option Step → Bool
is_observed none = false
is_observed (some s) = elim s.status [ observed ↦ true | _ ↦ false ]

unfoldable pub count_observed : List (Text × Step) → List Text → ℕ
unfolding find_step
count_observed steps [] = 0
count_observed steps (t ∷ ts) =
    let more = count_observed steps ts in if is_observed (find_step steps t) then suc more else more

unfoldable pub count_available : (Text → Bool) → List Text → ℕ
count_available available [] = 0
count_available available (s ∷ ss) =
    let more = count_available available ss in if available s then suc more else more

-- A share of a list, none of an empty one.
abbrev share : ℕ → List Text → Fraction → Fraction
share n [] whole = whole
share n (x ∷ xs) whole = record { num = n; den = length (x ∷ xs) }

abbrev pub fraction_of : ℕ → List Text → Fraction
fraction_of seen techs = share seen techs (record { num = 0; den = 1 })

abbrev pub coverage_of : ℕ → List Text → Fraction
coverage_of present sources = share present sources (record { num = 1; den = 1 })

unfoldable pub risk_base : ScenarioDef → ℕ
risk_base def = if equal def.risk (codes "medium") then 20 else 40

unfoldable pub run_risk : ScenarioDef → ℕ → ℕ → Fraction
unfolding risk_base
run_risk def seen present =
    let f = fraction_of seen def.expected_techniques in
    let c = coverage_of present def.required_sources in
    record { num = risk_base def * f.num * c.num; den = f.den * c.den }

unfoldable pub run_confidence : ScenarioDef → ℕ → Fraction
run_confidence def seen =
    let f = fraction_of seen def.expected_techniques in
    if ltb (9 * (2 * f.den)) (10 * f.num)
    then (record { num = 9; den = 10 })
    else (record { num = f.num; den = 2 * f.den })

abbrev pub is_none_expected : List Text → Bool
is_none_expected [] = true
is_none_expected (t ∷ ts) = false

abbrev pub all_observed : ScenarioDef → ℕ → Bool
all_observed def seen =
    seen == length def.expected_techniques && not (is_none_expected def.expected_techniques)

abbrev status_for : ScenarioDef → ℕ → ℕ → ℕ → RunStatus
status_for def seen opened now =
    if all_observed def seen
    then completed
    else if ltb (opened + 48 * hour) now
    then stale
    else active

abbrev pub closed_for : RunStatus → ℕ → Option ℕ
closed_for active now = none
closed_for completed now = some now
closed_for stale now = some now

abbrev same_status : StepStatus → StepStatus → Bool
same_status observed observed = true
same_status blocked blocked = true
same_status unknown unknown = true
same_status expected expected = true
same_status missing missing = true
same_status _ _ = false

abbrev is_unchanged : Option Step → Step → Bool
is_unchanged none s = false
is_unchanged (some r) s = same_status r.status s.status

abbrev pub is_active : RunStatus → Bool
is_active active = true
is_active _ = false

abbrev is_completed : RunStatus → Bool
is_completed completed = true
is_completed _ = false

-- What `advanceRun` makes of a run: how many steps changed, the run, whether a finding is due, and
-- whether it returns an error.
pub record Advanced : Type 0 where
  pub changed : ℕ
  pub run : Run
  pub emitted : Bool
  pub failed : Bool

-- The rest of `advanceRun`, on the steps that were written.
unfoldable pub settle : Run → ℕ → Feed → List (Text × Step) → Run
unfolding count_observed count_available run_risk run_confidence
settle run now feed steps =
    let def = run.definition in
    let seen = count_observed steps def.expected_techniques in
    record run {
      status = status_for def seen run.opened_at now;
      closed_at = closed_for (status_for def seen run.opened_at now) now;
      steps = steps;
      confidence = run_confidence def seen;
      risk = run_risk def seen (count_available feed.available def.required_sources);
    }

module _ (u : Unicode) where
  -- The loop over the techniques, which stops at an upsert that fails; the last part is whether
  -- none did.
  unfoldable pub advance_steps :
      ScenarioDef → ℕ → ℕ → Feed → List Text → List (Text × Step) → ℕ × List (Text × Step) × Bool
  unfolding step_status find_step put_step
  advance_steps def opened now feed [] steps = (0, steps, true)
  advance_steps def opened now feed (t ∷ ts) steps =
      let s = step_status u def t opened now feed in
      let (changed, after, written) = advance_steps def opened now feed ts (put_step t s steps) in
      if feed.writes_step t
      then (if is_unchanged (find_step steps t) s then changed else suc changed, after, written)
      else (0, steps, false)

  -- What follows the loop.
  abbrev pub finish : Run → ℕ → Feed → ℕ × List (Text × Step) × Bool → Advanced
  finish run now feed (changed, steps, false) = record {
    changed = changed;
    run = record run { steps = steps };
    emitted = false;
    failed = true;
  }
  finish run now feed (changed, steps, true) =
      let after = settle run now feed steps in
      record {
        changed = changed;
        run = if feed.writes_run then after else record run { steps = steps };
        emitted = is_completed after.status;
        failed = not feed.writes_run;
      }

  unfoldable pub advance_run : Run → ℕ → Feed → Advanced
  unfolding advance_steps settle
  advance_run run now feed = finish run now feed (
      advance_steps run.definition run.opened_at now feed run.definition.expected_techniques
        run.steps)

  -- The loop of `advanceActiveRuns`, over all runs with what the database answers for each.
  unfoldable pub advance_active : ℕ → (Run → Feed) → List Run → ℕ × List Run
  unfolding advance_run
  advance_active now feed_of [] = (0, [])
  advance_active now feed_of (run ∷ runs) =
      let a = advance_run run now (feed_of run) in
      let (changed, after) = advance_active now feed_of runs in
      if is_active run.status
      then (if a.failed then changed else a.changed + changed, a.run ∷ after)
      else (changed, run ∷ after)

-- The row that `evaluateOne` inserts for a trigger.
unfoldable pub open_run : ScenarioDef → ℕ → Run
open_run def at = record {
  definition = def;
  status = active;
  opened_at = at;
  closed_at = none;
  steps = [];
  confidence = record { num = 0; den = 1 };
  risk = record { num = 0; den = 1 };
}
