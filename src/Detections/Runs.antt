-- ===== src/Detections/Runs.antt =====
-- The life of a run of internal/detections/scenario.go.
use quetzalog.Base.{
  ℕ, ◌+◌, ◌*◌, ◌≡◌, refl, sym, ◌∙◌, ap, Bool, true, false, ◌&&◌, not, List, [], ◌∷◌, Text, equal,
  if◌then◌else◌, if_rule, Option, none, some, length, ltb, ◌==◌, arith,
}
use quetzalog.Spl.Unicode.{Unicode}
use quetzalog.Detections.Scenario.{
  ScenarioDef, RunStatus, active, completed, stale, observed, Step, is_observed, finish, Run, Feed,
  hour, all_observed, count_observed, is_none_expected, find_step, is_active, closed_for,
  advance_run, settle, open_run,
}
use quetzalog.Detections.Steps.{count_observed_bound}

-- A run that can come about: one that a trigger opens, and what an active one becomes, whether the
-- last round was written or failed.
pub data Reached (u : Unicode) : Run → Bool → Type 0 where
  opened : (def : ScenarioDef) (at : ℕ) → Reached u (open_run def at) true
  advanced :
      {run : Run} {written : Bool}
      → Reached u run written
      → is_active run.status ≡ true
      → (now : ℕ) (feed : Feed)
      → Reached u (advance_run u run now feed).run (not (advance_run u run now feed).failed)

abbrev is_open : Option ℕ → Bool
is_open none = true
is_open (some t) = false

-- Whether a technique is observed, by its step.
unfoldable pub is_seen : List (Text × Step) → Text → Bool
is_seen [] tech = false
is_seen ((t, s) ∷ steps) tech =
    let more = is_seen steps tech in
    if equal t tech then elim s.status [ observed ↦ true | _ ↦ false ] else more

unfoldable pub all_seen : List (Text × Step) → List Text → Bool
unfolding is_seen
all_seen steps [] = true
all_seen steps (t ∷ ts) = is_seen steps t && all_seen steps ts

abbrev has_some : List Text → Bool
has_some [] = false
has_some (t ∷ ts) = true

-- Whether a run has techniques and all of them are observed.
unfoldable pub is_done : Run → Bool
unfolding all_seen
is_done run =
    let techs = run.definition.expected_techniques in has_some techs && all_seen run.steps techs

abbrev lawful_as : RunStatus → Bool → Bool → Bool → Bool
lawful_as active open_ written done = open_ && not (written && done)
lawful_as completed open_ written done = not open_ && done
lawful_as stale open_ written done = not open_ && not done

-- A run that is completed has all of its techniques observed and a closing time, a stale one has
-- not and has a closing time, and an active one has no closing time and, when its last round was
-- written, not all observed.
unfoldable pub is_lawful : Run → Bool → Bool
unfolding is_done
is_lawful run written = lawful_as run.status (is_open run.closed_at) written (is_done run)

is_observed-is_seen :
    (steps : List (Text × Step)) (tech : Text)
    → is_observed (find_step steps tech) ≡ is_seen steps tech
unfolding find_step is_seen
is_observed-is_seen [] tech = refl
is_observed-is_seen ((t, s) ∷ steps) tech = ground (arith, is_observed-is_seen steps tech)

count_observed-all_seen :
    (steps : List (Text × Step)) (ts : List Text)
    → (count_observed steps ts == length ts) ≡ all_seen steps ts
unfolding count_observed all_seen
count_observed-all_seen steps [] = refl
count_observed-all_seen steps (t ∷ ts) = ground (
  arith,
  is_observed-is_seen steps t,
  count_observed_bound steps ts,
  count_observed-all_seen steps ts,
)

all_observed-is_done :
    (run : Run)
    → all_observed run.definition (count_observed run.steps run.definition.expected_techniques)
      ≡ is_done run
unfolding is_done
all_observed-is_done run = observed_all run.steps run.definition.expected_techniques
  where
    observed_all :
        (steps : List (Text × Step)) (ts : List Text)
        → (count_observed steps ts == length ts && not (is_none_expected ts))
          ≡ (has_some ts && all_seen steps ts)
    observed_all steps [] = ground (arith, count_observed-all_seen steps [])
    observed_all steps (t ∷ ts) = ground (arith, count_observed-all_seen steps (t ∷ ts))

settle-is_lawful :
    (run : Run) (now : ℕ) (feed : Feed) (steps : List (Text × Step))
    → is_lawful (settle run now feed steps) true ≡ true
unfolding settle is_lawful is_done
settle-is_lawful run now feed steps =
    let done = all_observed-is_done (record run { steps = steps }) in
    let lawful = λ (st : RunStatus).
      is_lawful (record (settle run now feed steps) { status = st; closed_at = closed_for st now })
        true
      ≡ true in
    let seen = count_observed steps run.definition.expected_techniques in
    if_rule lawful (all_observed run.definition seen) completed _ (λ e. sym done ∙ e)
      (λ e.
        if_rule lawful (ltb (run.opened_at + 48 * hour) now) stale active
          (λ _. ap not (sym done ∙ e)) (λ _. ap not (sym done ∙ e)))

none_seen : (ts : List Text) → (has_some ts && all_seen [] ts) ≡ false
unfolding all_seen is_seen
none_seen [] = refl
none_seen (t ∷ ts) = refl

open_run-is_lawful : (def : ScenarioDef) (at : ℕ) → is_lawful (open_run def at) true ≡ true
unfolding is_lawful open_run is_done
open_run-is_lawful def at = ap not (none_seen def.expected_techniques)

unwritten_as :
    (status : RunStatus) (open_ written done now_done : Bool)
    → is_active status ≡ true
    → lawful_as status open_ written done ≡ true
    → lawful_as status open_ false now_done ≡ true
unwritten_as active open_ written done now_done a h = ground (arith, h)
unwritten_as completed open_ written done now_done a h = absurd (ground (arith, a))
unwritten_as stale open_ written done now_done a h = absurd (ground (arith, a))

-- A round that was not written leaves an active run active.
unwritten-is_lawful :
    (run : Run) (written : Bool) (steps : List (Text × Step))
    → is_active run.status ≡ true
    → is_lawful run written ≡ true
    → is_lawful (record run { steps = steps }) false ≡ true
unfolding is_lawful
unwritten-is_lawful run written steps a h =
    unwritten_as run.status (is_open run.closed_at) written (is_done run) _ a h

either-is_lawful :
    (written : Bool) (after left : Run)
    → is_lawful after true ≡ true
    → is_lawful left false ≡ true
    → is_lawful (if written then after else left) (not (not written)) ≡ true
either-is_lawful true after left h k = h
either-is_lawful false after left h k = k

finish-is_lawful :
    (u : Unicode) (run : Run) (written : Bool) (now : ℕ) (feed : Feed)
    (o : ℕ × List (Text × Step) × Bool)
    → is_active run.status ≡ true
    → is_lawful run written ≡ true
    → is_lawful (finish u run now feed o).run (not (finish u run now feed o).failed) ≡ true
finish-is_lawful u run written now feed (changed, steps, false) a h =
    unwritten-is_lawful run written steps a h
finish-is_lawful u run written now feed (changed, steps, true) a h =
    either-is_lawful feed.writes_run (settle run now feed steps) (record run { steps = steps })
      (settle-is_lawful run now feed steps) (unwritten-is_lawful run written steps a h)

-- Every run that can come about is completed only when it has techniques and each of them is
-- observed by its step; a stale one has not all observed, nor has an active one that was just opened
-- or whose last round was written; and it has a closing time exactly when it is not active.
pub Reached-is_lawful :
    (u : Unicode) (run : Run) (written : Bool)
    → Reached u run written
    → is_lawful run written ≡ true
unfolding advance_run
Reached-is_lawful u run written (opened def at) = open_run-is_lawful def at
Reached-is_lawful u run written (advanced {run = before} {written = last} r a now feed) =
    finish-is_lawful u before last now feed _ a (Reached-is_lawful u before last r)
