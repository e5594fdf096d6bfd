-- ===== src/Findings/Samples.antt =====
-- Runs of internal/findings/findings.go.
use quetzalog.Base.{
  ℕ, ◌+◌, ◌≤◌, ◌<◌, ◌⊎◌, ◌||◌, true, List, [], ◌∷◌, ◌≡◌, refl, Text, codes, equal, one_of, none,
  some, any_row, IsKey, ltb, ◌==◌, length,
}
use quetzalog.Spl.Unicode.{ascii}
use quetzalog.Findings.Merge.{
  Event, merge_strings, add_all, add_up_to, add_new, event_ids, entities_of, given_entities,
  valid_status,
}
use quetzalog.Findings.Lists.{HasNoRepeat, merge_strings_bounds}
use quetzalog.Findings.Store.{
  Tables, DetectionArgs, Scores, Fresh, find_key, create, update, update_findings, update_status,
}
use quetzalog.Findings.Detect.{refreshed, detected, from_detection}
use quetzalog.Findings.Calls.{Call, detect, set_status, after_call, after_calls, count_at, reported}
use quetzalog.Findings.Sound.{AreApart, IsSound}
use quetzalog.Findings.Sound.Calls.{after_calls-IsSound}
use quetzalog.Findings.Counts.{SameWord, count_at-after_calls}

abbrev points : Scores ℕ
points = record { is_zero = λ n. n == 0; less = ltb; of_points = λ n. n }

abbrev at : Text → ℕ → Fresh ℕ
at id now = record { id = id; now = now; listed = λ ents. ents }

abbrev login : Event
login = record {
  id = codes "e1";
  user = codes "ann";
  host = codes "db1";
  source_ip = [];
  destination_ip = [];
  process = [];
}

abbrev brute_force : ℕ → DetectionArgs ℕ
brute_force matched = record {
  rule_id = codes "r1";
  rule_name = codes "Brute force";
  group_key = codes "ann";
  title = [];
  description = [];
  severity = codes "high";
  risk_score = 0;
  data_source = [];
  mitre_tactic = [];
  mitre_technique = [];
  tags = [];
  matched = matched;
  events = some login ∷ none ∷ some login ∷ [];
  entities = [];
}

abbrev queue : Tables ℕ ℕ
queue = record { findings = []; notes = [] }

queue-IsSound : IsSound queue
unfolding AreApart IsKey
queue-IsSound = record { apart = tt; all_findings = tt; note_ids = tt; noted = tt }

abbrev calls : List (Call ℕ ℕ)
calls =
    detect (at (codes "f1") 1) (brute_force 4)
    ∷ set_status (codes "f1") (codes "resolved") 2
    ∷ set_status (codes "f1") (codes "closed") 3
    ∷ detect (at (codes "f2") 4) (brute_force 3)
    ∷ []

-- The finding counts both detections, and stays resolved.
counted : count_at (codes "r1|ann") (after_calls ascii points calls queue) ≡ 7
unfolding count_at after_calls after_call from_detection update_status create update refreshed
    detected find_key update_findings any_row valid_status one_of equal merge_strings add_all
    add_up_to add_new event_ids entities_of given_entities
counted = refl

after_calls-IsSound_example : IsSound (after_calls ascii points calls queue)
after_calls-IsSound_example = after_calls-IsSound ascii points calls queue queue-IsSound

count_at-after_calls_example :
    SameWord
      (count_at (codes "r1|ann") (after_calls ascii points calls queue))
      (count_at (codes "r1|ann") queue + reported ascii points (codes "r1|ann") calls queue)
count_at-after_calls_example =
    count_at-after_calls ascii points (codes "r1|ann") calls queue queue-IsSound

abbrev seen : List Text
seen = codes "a" ∷ codes "b" ∷ codes "a" ∷ []

abbrev more : List Text
more = codes "b" ∷ codes "c" ∷ codes "d" ∷ []

merged : merge_strings seen more 3 ≡ codes "a" ∷ codes "b" ∷ codes "c" ∷ []
unfolding merge_strings add_all add_up_to add_new one_of equal
merged = refl

merge_strings_bounds_example :
    HasNoRepeat (merge_strings seen more 3)
    × ((length (merge_strings seen more 3) ≤ 3) ⊎ (length (merge_strings seen more 3) ≤ 3))
    × ((s : Text) → one_of seen s ≡ true → one_of (merge_strings seen more 3) s ≡ true)
    × ((s : Text)
        → one_of (merge_strings seen more 3) s ≡ true
        → (one_of seen s || one_of more s) ≡ true)
    × ((s : Text)
        → length (merge_strings seen more 3) < 3
        → one_of more s ≡ true
        → one_of (merge_strings seen more 3) s ≡ true)
merge_strings_bounds_example = merge_strings_bounds seen more 3
