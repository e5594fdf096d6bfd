-- ===== src/Detections/Samples.antt =====
-- Runs of the scenario model, internal/detections/scenario.go.
use quetzalog.Base.{
  false, not, ◌*◌, ◌≤◌, ◌≡◌, refl, true, [], ◌∷◌, codes, equal, if◌then◌else◌, some,
}
use quetzalog.Spl.Unicode.{ascii}
use quetzalog.Detections.Scenario.{
  ScenarioDef, Run, Feed, open_run, advance_run, advance_steps, step_status, risk_base,
}
use quetzalog.Detections.Steps.{status_of, step_status-status_of, advance_run_bounds}
use quetzalog.Detections.Runs.{Reached, opened, advanced, is_lawful, Reached-is_lawful}

abbrev theft : ScenarioDef
theft = record {
  name = codes "theft";
  title = codes "Theft";
  description = [];
  risk = codes "medium";
  severity = codes "critical";
  trigger = codes "T1003";
  prerequisites = [];
  expected_techniques = codes "T1003" ∷ codes "T1048" ∷ [];
  required_sources = codes "edr" ∷ [];
}

-- One technique is seen and the other is stopped.
abbrev day_feed : Feed
day_feed = record {
  events_of = λ tech.
      if equal tech (codes "T1003")
      then some ((codes "e1", codes "success") ∷ [])
      else some ((codes "e2", codes "Blocked") ∷ []);
  available = λ s. true;
  writes_step = λ tech. true;
  writes_run = true;
}

abbrev theft_run : Run
theft_run = open_run theft 5

step_status-status_of_example :
    (step_status ascii theft (codes "T1048") 5 9 day_feed).status
    ≡ status_of ascii theft 5 9 day_feed (day_feed.events_of (codes "T1048"))
step_status-status_of_example = step_status-status_of ascii theft (codes "T1048") 5 9 day_feed

day_feed-written : (advance_run ascii theft_run 9 day_feed).failed ≡ false
unfolding advance_run advance_steps open_run
day_feed-written = refl

advance_run_bounds_example :
    (1 ≤ (advance_run ascii theft_run 9 day_feed).run.risk.den)
    × ((advance_run ascii theft_run 9 day_feed).run.risk.num
        ≤ risk_base theft * (advance_run ascii theft_run 9 day_feed).run.risk.den)
    × (2 * (advance_run ascii theft_run 9 day_feed).run.confidence.num
        ≤ (advance_run ascii theft_run 9 day_feed).run.confidence.den)
unfolding open_run
advance_run_bounds_example = advance_run_bounds ascii theft_run 9 day_feed day_feed-written

theft_run-Reached :
    Reached ascii
      (advance_run ascii theft_run 9 day_feed).run
      (not (advance_run ascii theft_run 9 day_feed).failed)
unfolding open_run
theft_run-Reached = advanced {run = theft_run} {written = true} (opened theft 5) refl 9 day_feed

Reached-is_lawful_example :
    is_lawful
      (advance_run ascii theft_run 9 day_feed).run
      (not (advance_run ascii theft_run 9 day_feed).failed)
    ≡ true
Reached-is_lawful_example =
    Reached-is_lawful ascii (advance_run ascii theft_run 9 day_feed).run
      (not (advance_run ascii theft_run 9 day_feed).failed) theft_run-Reached
