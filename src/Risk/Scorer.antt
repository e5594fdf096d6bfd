-- ===== src/Risk/Scorer.antt =====
-- internal/risk/event_scoring.go: the contributions of an event, recorded one after another. What
-- the stores of assets and of identities answer is a parameter, none when they fail or know nothing;
-- so is the float of a whole number of points. The identifiers of `uuid.New` and the times of the
-- calls of `Record` are given by the number of contributions recorded before in the same call.
use quetzalog.Base.{
  ℕ, suc, Bool, true, false, List, [], ◌∷◌, ◌++◌, Text, codes, equal, one_of, ltb, if◌then◌else◌,
  Option, none, some,
}
use quetzalog.Spl.Unicode.{Unicode, to_lower, trim}
use quetzalog.Risk.{Contribution, Store, record_risk}

-- The fields of an event that are scored.
pub record Event : Type 0 where
  pub id : Text
  pub host : Text
  pub user : Text
  pub severity : Text

-- The asset of a host by its criticality and name, and the privilege of a user.
pub record Known : Type 0 where
  pub asset : Text → Option (Text × Text)
  pub privilege : Text → Option Text

abbrev pub base_of : Text → ℕ
base_of s =
    if one_of (codes "emergency" ∷ codes "critical" ∷ []) s
    then 50
    else if equal s (codes "alert")
    then 45
    else if one_of (codes "err" ∷ codes "error" ∷ []) s
    then 35
    else if one_of (codes "warning" ∷ codes "warn" ∷ []) s
    then 20
    else if equal s (codes "notice")
    then 10
    else if equal s (codes "info")
    then 5
    else 0

-- `severityBase`.
unfoldable pub severity_base : Unicode → Text → ℕ
severity_base u severity = base_of (to_lower u (trim severity))

abbrev pub criticality_points : Option (Text × Text) → ℕ × Text
criticality_points none = (0, [])
criticality_points (some (criticality, name)) =
    if equal criticality (codes "critical")
    then (10, codes "critical asset " ++ name)
    else if equal criticality (codes "high")
    then (6, codes "high-criticality asset " ++ name)
    else if equal criticality (codes "medium")
    then (3, codes "medium-criticality asset " ++ name)
    else if equal criticality (codes "low")
    then (1, codes "low-criticality asset " ++ name)
    else (0, [])

-- `assetPoints`.
unfoldable pub asset_points : Known → Text → ℕ × Text
asset_points known host =
    if equal host [] then (0, []) else criticality_points (known.asset (codes "host:" ++ host))

abbrev pub privilege_points : Text → Option Text → ℕ × Text
privilege_points user none = (0, [])
privilege_points user (some privilege) =
    if equal privilege (codes "admin")
    then (10, codes "privileged identity " ++ (user ++ codes " (admin)"))
    else if equal privilege (codes "privileged")
    then (5, codes "privileged identity " ++ user)
    else (0, [])

-- `userPoints`.
unfoldable pub user_points : Known → Text → ℕ × Text
user_points known user =
    if equal user [] then (0, []) else privilege_points user (known.privilege user)

module _ {F T : Type 0} (float : ℕ → F) (no_time : T) where
  -- The closure `record` of `ScoreEvent`.
  abbrev pub contributed : Event → Text → Text → ℕ × Text → List (Contribution F T)
  contributed ev kind value (points, reason) =
      if equal value []
      then []
      else if ltb 0 points
      then record {
        id = [];
        entity_type = kind;
        entity_value = value;
        source_type = codes "event";
        source_id = codes "event-scorer";
        description = reason;
        points = float points;
        event_id = ev.id;
        created_at = no_time;
      }
        ∷ []
      else []

  -- The contributions of `ScoreEvent`.
  unfoldable pub contributions_of : Unicode → Known → Event → List (Contribution F T)
  unfolding severity_base asset_points user_points
  contributions_of u known ev =
      contributed ev (codes "host") ev.host
        (severity_base u ev.severity, codes "severity base " ++ ev.severity)
      ++ (contributed ev (codes "host") ev.host (asset_points known ev.host)
          ++ contributed ev (codes "user") ev.user (user_points known ev.user))

module _ {F T : Type 0} (add : F → F → F) where
  -- The loop of `ScoreEvent` over the contributions, with whether every one was recorded.
  unfoldable pub record_each :
      (ℕ → Text) → (ℕ → T) → ℕ → List (Contribution F T) → Store F T → Store F T × Bool
  unfolding record_risk
  record_each fresh clock n [] store = (store, true)
  record_each fresh clock n (c ∷ cs) store = elim (record_risk add (fresh n) (clock n) c store) [
    | none ↦ (store, false)
    | some recorded ↦ record_each fresh clock (suc n) cs recorded
  ]

-- A call from outside: `Record`, or `ScoreEvent`.
pub data Call (F T : Type 0) : Type 0 where
  record_call : Text → T → Contribution F T → Call F T
  score_call : (ℕ → Text) → (ℕ → T) → Event → Call F T

module _ {F T : Type 0} (add : F → F → F) (float : ℕ → F) (no_time : T) (u : Unicode)
    (known : Known) where
  -- The tables after a call. `ScoreEvent` keeps what it recorded before a failure.
  unfoldable pub after_call : Call F T → Store F T → Store F T
  unfolding record_risk record_each contributions_of
  after_call (record_call fresh now c) store = elim (record_risk add fresh now c store) [
    | none ↦ store
    | some recorded ↦ recorded
  ]
  after_call (score_call fresh clock ev) store =
      (record_each add fresh clock 0 (contributions_of float no_time u known ev) store).0

  unfoldable pub after_calls : List (Call F T) → Store F T → Store F T
  unfolding after_call
  after_calls [] store = store
  after_calls (call ∷ calls) store = after_calls calls (after_call call store)
