-- ===== src/Detections/Steps.antt =====
-- The status of a step of internal/detections/scenario.go, and the numbers of a run.
use quetzalog.Base.{
  ℕ, ◌+◌, ◌*◌, ◌≤◌, ◌≡◌, refl, ◌∙◌, inl, inr, Bool, true, false, ◌||◌, not, List, [], ◌∷◌, Text,
  codes, equal, one_of, any_row, if◌then◌else◌, if_rule, Bool-cases, Option, Option-cases, none,
  some, length, ltb, arith,
}
use native.Mathlib.Nat.{mul-le-mul, mul-le-mul_left, mul_assoc, one-le-mul}
use quetzalog.Spl.Unicode.{Unicode, to_lower}
use quetzalog.Detections.Scenario.{
  ScenarioDef, StepStatus, observed, blocked, unknown, expected, missing, Step, Fraction, Run, Feed,
  hour, any_available, telemetry_covers, is_blocked, sort_rows, quiet_step, found_step, step_status,
  confidence_for, count_observed, count_available, run_risk, run_confidence, risk_base, fraction_of,
  coverage_of, advance_run, finish, settle,
}

-- Whether an event was stopped, by its outcome in lower case.
unfoldable pub is_stopped : Unicode → Text → Bool
is_stopped u outcome =
    let word = to_lower u outcome in
    equal word (codes "failure") || equal word (codes "blocked") || equal word (codes "denied")

-- Whether some event was not stopped.
unfoldable pub any_open : Unicode → List (Text × Text) → Bool
unfolding is_stopped
any_open u [] = false
any_open u ((id, outcome) ∷ rows) = not (is_stopped u outcome) || any_open u rows

abbrev pub is_quiet : List (Text × Text) → Bool
is_quiet [] = true
is_quiet (r ∷ rows) = false

-- Whether a scenario asks for no source, or some source that it asks for is available.
abbrev pub is_covered : (Text → Bool) → List Text → Bool
is_covered available [] = true
is_covered available (s ∷ ss) = any_row available (s ∷ ss)

-- The status that a technique is said to have.
unfoldable pub status_of :
    Unicode → ScenarioDef → ℕ → ℕ → Feed → Option (List (Text × Text)) → StepStatus
unfolding any_open any_row
status_of u def opened now feed none = unknown
status_of u def opened now feed (some rows) =
    if any_open u rows
    then observed
    else if not (is_quiet rows)
    then blocked
    else if not (is_covered feed.available def.required_sources)
    then unknown
    else if ltb now (opened + 2 * 60 * 60 * 1000000000)
    then expected
    else missing

abbrev some_left : List Text → Bool
some_left [] = false
some_left (t ∷ ts) = true

is_blocked-is_stopped : (u : Unicode) (outcome : Text) → is_blocked u outcome ≡ is_stopped u outcome
unfolding is_blocked is_stopped one_of
is_blocked-is_stopped u outcome = ground arith

any_available-any_row :
    (available : Text → Bool) (ss : List Text) → any_available available ss ≡ any_row available ss
unfolding any_available any_row
any_available-any_row available [] = refl
any_available-any_row available (s ∷ ss) = ground (arith, any_available-any_row available ss)

telemetry_covers-is_covered :
    (def : ScenarioDef) (available : Text → Bool)
    → telemetry_covers def available ≡ is_covered available def.required_sources
unfolding telemetry_covers
telemetry_covers-is_covered def available = covers def.required_sources
  where
    covers :
        (ss : List Text)
        → elim ss [ [] ↦ true | s ∷ more ↦ any_available available (s ∷ more) ]
          ≡ is_covered available ss
    covers [] = refl
    covers (s ∷ ss) = any_available-any_row available (s ∷ ss)

any_open-sort_rows :
    (u : Unicode) (rows : List (Text × Text)) → some_left (sort_rows u rows).0 ≡ any_open u rows
unfolding sort_rows any_open
any_open-sort_rows u [] = refl
any_open-sort_rows u ((id, outcome) ∷ rows) = elim (Bool-cases (is_blocked u outcome)) [
  | inl e ↦ rw (← is_blocked-is_stopped u outcome, e) (any_open-sort_rows u rows)
  | inr e ↦ rw (← is_blocked-is_stopped u outcome, e) refl
]

stopped_status :
    (u : Unicode) (quiet : Step) (seen stopped : List Text) (id : Text)
    → (found_step u quiet (seen, id ∷ stopped)).status
      ≡ (if some_left seen then observed else blocked)
stopped_status u quiet [] stopped id = refl
stopped_status u quiet (s ∷ seen) stopped id = refl

found_status :
    (u : Unicode) (quiet : Step) (rows : List (Text × Text))
    → (found_step u quiet (sort_rows u rows)).status ≡ (
        if any_open u rows then observed else if not (is_quiet rows) then blocked else quiet.status)
unfolding sort_rows any_open
found_status u quiet [] = refl
found_status u quiet ((id, outcome) ∷ rows) = elim (Bool-cases (is_blocked u outcome)) [
  | inl e ↦
      rw (← is_blocked-is_stopped u outcome, e)
        (stopped_status u quiet (sort_rows u rows).0 (sort_rows u rows).1 id
          ∙ rw (any_open-sort_rows u rows) refl)
  | inr e ↦ rw (← is_blocked-is_stopped u outcome, e) refl
]

quiet_status :
    (u : Unicode) (def : ScenarioDef) (tech : Text) (opened now : ℕ) (available : Text → Bool)
    → (quiet_step u def tech opened now available).status ≡ (
        if not (telemetry_covers def available)
        then unknown
        else if ltb now (opened + 2 * hour)
        then expected
        else missing)
unfolding quiet_step
quiet_status u def tech opened now available = elim (Bool-cases (telemetry_covers def available)) [
  | inl e ↦ rw (e) (elim (Bool-cases (ltb now (opened + 2 * hour))) [
    | inl f ↦ rw (f) refl
    | inr f ↦ rw (f) refl
  ])
  | inr e ↦ rw (e) refl
]

-- A technique is observed when some event of it was not stopped, blocked when there are events and
-- all were stopped, and otherwise unknown without telemetry or an answer, expected for two hours
-- from the start of the run, and missing from then on.
pub step_status-status_of :
    (u : Unicode) (def : ScenarioDef) (tech : Text) (opened now : ℕ) (feed : Feed)
    → (step_status u def tech opened now feed).status
      ≡ status_of u def opened now feed (feed.events_of tech)
unfolding step_status status_of
step_status-status_of u def tech opened now feed = elim (Option-cases (feed.events_of tech)) [
  | inl e ↦ rw (step_status, e) refl
  | inr (rows, e) ↦
      rw (step_status, e)
        (found_status u (quiet_step u def tech opened now feed.available) rows
          ∙ rw
              (
                quiet_status u def tech opened now feed.available,
                telemetry_covers-is_covered def feed.available,
              )
              refl)
]

confidence_for_bounds : (n : ℕ) → (60 ≤ confidence_for n) × (confidence_for n ≤ 95)
unfolding confidence_for
confidence_for_bounds n = ground arith

pub count_observed_bound :
    (steps : List (Text × Step)) (ts : List Text) → count_observed steps ts ≤ length ts
unfolding count_observed
count_observed_bound steps [] = omega arith
count_observed_bound steps (t ∷ ts) = ground (arith, count_observed_bound steps ts)

count_available_bound :
    (available : Text → Bool) (ss : List Text) → count_available available ss ≤ length ss
unfolding count_available
count_available_bound available [] = omega arith
count_available_bound available (s ∷ ss) = ground (arith, count_available_bound available ss)

-- A fraction from 0 to 1.
abbrev IsShare : Fraction → Type 0
IsShare f = (1 ≤ f.den) × (f.num ≤ f.den)

fraction_of-IsShare : (n : ℕ) (ts : List Text) → n ≤ length ts → IsShare (fraction_of n ts)
fraction_of-IsShare n [] h = (omega arith, omega arith)
fraction_of-IsShare n (t ∷ ts) h = (omega arith, h)

coverage_of-IsShare : (n : ℕ) (ts : List Text) → n ≤ length ts → IsShare (coverage_of n ts)
coverage_of-IsShare n [] h = (omega arith, omega arith)
coverage_of-IsShare n (t ∷ ts) h = (omega arith, h)

run_confidence_bound :
    (def : ScenarioDef) (n : ℕ)
    → n ≤ length def.expected_techniques
    → 2 * (run_confidence def n).num ≤ (run_confidence def n).den
unfolding run_confidence
run_confidence_bound def n h =
    let f = fraction_of-IsShare n def.expected_techniques h in ground (arith, f.0, f.1)

run_risk_bound :
    (def : ScenarioDef) (n m : ℕ)
    → n ≤ length def.expected_techniques
    → m ≤ length def.required_sources
    → (1 ≤ (run_risk def n m).den)
      × ((run_risk def n m).num ≤ risk_base def * (run_risk def n m).den)
unfolding run_risk
run_risk_bound def n m h k =
    let f = fraction_of-IsShare n def.expected_techniques h in
    let c = coverage_of-IsShare m def.required_sources k in
    (
      one-le-mul f.0 c.0,
      rw
          (← mul_assoc (risk_base def) (fraction_of n def.expected_techniques).den
            (coverage_of m def.required_sources).den)
          (mul-le-mul (mul-le-mul_left (risk_base def) f.1) c.1),
    )

-- The numbers of a run are in their bounds.
IsWithin : ScenarioDef → Run → Type 0
unfolding risk_base
IsWithin def run =
    (1 ≤ run.risk.den)
    × (run.risk.num ≤ risk_base def * run.risk.den)
    × (2 * run.confidence.num ≤ run.confidence.den)

settle-IsWithin :
    (run : Run) (now : ℕ) (feed : Feed) (steps : List (Text × Step))
    → IsWithin run.definition (settle run now feed steps)
unfolding settle IsWithin
settle-IsWithin run now feed steps =
    let seen = count_observed_bound steps run.definition.expected_techniques in
    let risk =
      run_risk_bound run.definition (count_observed steps run.definition.expected_techniques)
        (count_available feed.available run.definition.required_sources) seen
        (count_available_bound feed.available run.definition.required_sources) in
    (
      risk.0,
      risk.1,
      run_confidence_bound run.definition (count_observed steps run.definition.expected_techniques)
          seen,
    )

finish-IsWithin :
    (u : Unicode) (run : Run) (now : ℕ) (feed : Feed) (o : ℕ × List (Text × Step) × Bool)
    → (finish u run now feed o).failed ≡ false
    → IsWithin run.definition (finish u run now feed o).run
finish-IsWithin u run now feed (changed, steps, false) h = absurd (ground (arith, h))
finish-IsWithin u run now feed (changed, steps, true) h =
    if_rule (IsWithin run.definition) feed.writes_run (settle run now feed steps)
      (record run { steps = steps }) (λ e. settle-IsWithin run now feed steps)
      (λ e. absurd (ground (arith, h, e)))

-- Whatever the database answers, where no write fails the risk of a run that is advanced is from 0
-- to its base, 20 for a scenario of medium risk and 40 otherwise, and its confidence is at most one
-- half.
pub advance_run_bounds :
    (u : Unicode) (run : Run) (now : ℕ) (feed : Feed)
    → (advance_run u run now feed).failed ≡ false
    → (1 ≤ (advance_run u run now feed).run.risk.den)
      × ((advance_run u run now feed).run.risk.num
          ≤ risk_base run.definition * (advance_run u run now feed).run.risk.den)
      × (2 * (advance_run u run now feed).run.confidence.num
          ≤ (advance_run u run now feed).run.confidence.den)
unfolding advance_run IsWithin
advance_run_bounds u run now feed = finish-IsWithin u run now feed _
