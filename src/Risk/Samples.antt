-- ===== src/Risk/Samples.antt =====
-- Runs of the risk store and the scorer of events, internal/risk.
use quetzalog.Base.{equal, one_of, ℕ, ◌+◌, List, [], ◌∷◌, ◌≡◌, refl, codes, some}
use quetzalog.Spl.Unicode.{ascii, ascii_lower, is_space, trim, to_lower}
use quetzalog.Risk.{Contribution, empty_store, get_risk, is_of, upsert, has_id, record_risk}
use quetzalog.Risk.Scorer.{
  Event, Known, Call, record_call, score_call, after_call, after_calls, record_each,
  contributions_of, severity_base, asset_points, user_points,
}
use quetzalog.Risk.Totals.{total, get_risk-after_calls}

abbrev known : Known
known = record {
  asset = λ host. some (codes "critical", codes "ledger");
  privilege = λ user. some (codes "admin");
}

abbrev login : Event
login = record { id = codes "e1"; host = codes "db1"; user = codes "ann"; severity = codes "ERROR" }

abbrev by_hand : Contribution ℕ ℕ
by_hand = record {
  id = codes "1";
  entity_type = codes "host";
  entity_value = codes "db1";
  source_type = [];
  source_id = [];
  description = [];
  points = 7;
  event_id = [];
  created_at = 0;
}

-- The second call repeats an identifier, so it fails.
abbrev calls : List (Call ℕ ℕ)
calls =
    record_call (codes "x") 1 by_hand
    ∷ record_call (codes "y") 2 by_hand
    ∷ score_call (λ n. (100 + n) ∷ []) (λ n. n) login
    ∷ []

host_total :
    get_risk
      (codes "host")
      (codes "db1")
      (after_calls ◌+◌ (λ n. n) 0 ascii known calls empty_store).entities
    ≡ some (record {
      entity_type = codes "host";
      entity_value = codes "db1";
      risk_score = 52;
      findings = 3;
      updated = 1;
    })
unfolding get_risk is_of upsert has_id record_risk after_call after_calls record_each
    contributions_of severity_base asset_points user_points trim to_lower equal one_of is_space
    ascii ascii_lower
host_total = refl

get_risk-after_calls_example :
    get_risk
      (codes "host")
      (codes "db1")
      (after_calls ◌+◌ (λ n. n) 0 ascii known calls empty_store).entities
    ≡ total ◌+◌
        (codes "host")
        (codes "db1")
        (after_calls ◌+◌ (λ n. n) 0 ascii known calls empty_store).contributions
get_risk-after_calls_example =
    get_risk-after_calls ◌+◌ (λ n. n) 0 ascii known calls (codes "host") (codes "db1")
