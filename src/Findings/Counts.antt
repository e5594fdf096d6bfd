-- ===== src/Findings/Counts.antt =====
-- The number of matches of a detection's finding, internal/findings/findings.go.
use quetzalog.Base.{
  ℕ, ◌+◌, ◌%◌, ◌^◌, false, List, [], ◌∷◌, ◌≡◌, refl, sym, ap, inl, inr, Text, equal, equal_iff,
  Bool-cases, if◌then◌else◌, arith, Option, none, some, any_row, IsKey,
}
use quetzalog.Spl.Unicode.{Unicode}
use quetzalog.Findings.Store.{
  Finding, Note, Tables, DetectionArgs, Scores, Fresh, find_key, by_dedup_key, update_findings,
  create, update, written, set_where, update_status, assign, add_note,
}
use quetzalog.Findings.Calls.{
  Call, detect, set_status, set_owner, note, kept, matches_of, count_of, count_at, after_call,
  after_calls, reported_by, reported,
}
use quetzalog.Findings.Sound.{AreApart-IsKey, IsSound}
use quetzalog.Findings.Sound.Calls.{after_call-IsSound}
use quetzalog.Findings.Detect.{dedup_key_of, refreshed, detected, refresh_or_create, from_detection}

-- Two counts that are the same in 64 bits.
abbrev pub SameWord : ℕ → ℕ → Type 0
SameWord a b = a % 2 ^ 64 ≡ b % 2 ^ 64

module _ {F T : Type 0} where
  update_findings-none :
      (id : Text) (g : Finding F T → Finding F T) (fs : List (Finding F T))
      → any_row (λ f. equal f.id id) fs ≡ false
      → update_findings id g fs ≡ fs
  unfolding any_row update_findings
  update_findings-none id g [] h = refl
  update_findings-none id g (f ∷ fs) h = ground (arith, update_findings-none id g fs)

  find_key-id :
      (key id : Text) (r : Finding F T) (fs : List (Finding F T))
      → any_row (λ f. equal f.id id) fs ≡ false
      → find_key key fs ≡ some r
      → equal id r.id ≡ false
  unfolding any_row find_key
  find_key-id key id r [] h k = cc
  find_key-id key id r (f ∷ fs) h k =
      ground (arith, equal_iff f.id id, equal_iff id r.id, find_key-id key id r fs)

  -- Where identifiers are a key, an update of the finding with a key changes no other key.
  pub find_key-update_findings :
      (g : Finding F T → Finding F T)
      → ((f : Finding F T) → (g f).dedup_key ≡ f.dedup_key)
      → (key other : Text) (r : Finding F T) (fs : List (Finding F T)) → IsKey (λ f. f.id) fs
      → find_key key fs ≡ some r
      → find_key other (update_findings r.id g fs)
        ≡ (if equal key other then some (g r) else find_key other fs)
  unfolding IsKey find_key update_findings
  find_key-update_findings g same key other r [] i h = cc
  find_key-update_findings g same key other r (f ∷ fs) (i, is) h =
      elim (Bool-cases (equal f.dedup_key key)) [
        | inl e ↦
            let here : f ≡ r = ground arith in
            let rest : update_findings r.id g fs ≡ fs =
              update_findings-none r.id g fs (rw (← here) i) in
            ground (arith, here, rest, same f, equal_iff f.dedup_key key, equal_iff r.id r.id)
        | inr e ↦ ground (
          arith,
          same f,
          equal_iff f.dedup_key key,
          equal_iff f.dedup_key other,
          equal_iff key other,
          equal_iff f.id r.id,
          find_key-id key f.id r fs i,
          find_key-update_findings g same key other r fs is,
        )
      ]

  count_of-update_findings :
      (g : Finding F T → Finding F T)
      → ((f : Finding F T) → ((g f).dedup_key ≡ f.dedup_key) × ((g f).match_count ≡ f.match_count))
      → (key id : Text) (fs : List (Finding F T))
      → count_of (find_key key (update_findings id g fs)) ≡ count_of (find_key key fs)
  unfolding find_key update_findings
  count_of-update_findings g same key id [] = refl
  count_of-update_findings g same key id (f ∷ fs) =
      ground (arith, same f, count_of-update_findings g same key id fs)

  set_where-count_at :
      (g : Finding F T → Finding F T)
      → ((f : Finding F T) → ((g f).dedup_key ≡ f.dedup_key) × ((g f).match_count ≡ f.match_count))
      → (key id : Text) (tables : Tables F T)
      → count_at key (kept tables (set_where id g tables)) ≡ count_at key tables
  unfolding count_at
  set_where-count_at g same key id tables =
      ground (arith, count_of-update_findings g same key id tables.findings)

  update_status-count_at :
      (key id status : Text) (now : T) (tables : Tables F T)
      → count_at key (kept tables (update_status id status now tables)) ≡ count_at key tables
  unfolding update_status
  update_status-count_at key id status now tables = ground (
    arith,
    set_where-count_at (λ f. record f { status = status; updated_at = now }) (λ f. (refl, refl)) key
        id tables,
  )

  add_note-count_at :
      (key : Text) (n : Note T) (tables : Tables F T)
      → count_at key (kept tables (add_note n tables)) ≡ count_at key tables
  unfolding add_note count_at
  add_note-count_at key n tables = ground arith

module _ {F T : Type 0} (u : Unicode) (scores : Scores F) (fresh : Fresh T)
    (args : DetectionArgs F) where
  create-count_at :
      (key : Text) (tables : Tables F T)
      → find_key (dedup_key_of args.rule_id args.group_key) tables.findings ≡ none
      → count_at key (kept tables (create (detected u scores fresh args) tables))
        ≡ count_at key tables
          + (if equal (dedup_key_of args.rule_id args.group_key) key
              then matches_of args.matched (create (detected u scores fresh args) tables)
              else 0)
  unfolding create detected count_at find_key
  create-count_at key tables h =
      ground (arith, equal_iff (dedup_key_of args.rule_id args.group_key) key)

  refresh-count_at :
      (key : Text) (f : Finding F T) (tables : Tables F T)
      → IsKey (λ g. g.id) tables.findings
      → find_key (dedup_key_of args.rule_id args.group_key) tables.findings ≡ some f
      → SameWord
          (count_at key (kept tables (update (refreshed u scores fresh args f) fresh.now tables)))
          (count_at key tables
            + (if equal (dedup_key_of args.rule_id args.group_key) key
                then matches_of args.matched
                    (update (refreshed u scores fresh args f) fresh.now tables)
                else 0))
  unfolding update refreshed count_at
  refresh-count_at key f tables i h =
      let k = dedup_key_of args.rule_id args.group_key in
      ground (
        arith,
        equal_iff k key,
        find_key-update_findings (written (refreshed u scores fresh args f) fresh.now) (λ g. refl) k
            key f tables.findings i h,
      )

  found-count_at :
      (key : Text) (tables : Tables F T) (found : Option (Finding F T))
      → IsKey (λ g. g.id) tables.findings
      → find_key (dedup_key_of args.rule_id args.group_key) tables.findings ≡ found
      → SameWord (count_at key (kept tables (refresh_or_create u scores fresh args found tables))) (
          count_at key tables
          + (if equal (dedup_key_of args.rule_id args.group_key) key
              then matches_of args.matched (refresh_or_create u scores fresh args found tables)
              else 0))
  found-count_at key tables none i h = ap (λ n. n % 2 ^ 64) (create-count_at key tables h)
  found-count_at key tables (some f) i h = refresh-count_at key f tables i h

by_dedup_key-rule :
    {F T : Type 0} (rule group : Text) (fs : List (Finding F T))
    → by_dedup_key (dedup_key_of rule group) fs ≡ find_key (dedup_key_of rule group) fs
by_dedup_key-rule [] group fs = refl
by_dedup_key-rule (c ∷ rule) group fs = refl

module _ {F T : Type 0} (u : Unicode) (scores : Scores F) where
  from_detection-count_at :
      (key : Text) (fresh : Fresh T) (args : DetectionArgs F) (tables : Tables F T)
      → IsKey (λ g. g.id) tables.findings
      → SameWord (count_at key (kept tables (from_detection u scores fresh args tables))) (
          count_at key tables
          + (if equal (dedup_key_of args.rule_id args.group_key) key
              then matches_of args.matched (from_detection u scores fresh args tables)
              else 0))
  unfolding from_detection
  from_detection-count_at key fresh args tables i =
      let k = dedup_key_of args.rule_id args.group_key in
      let found = by_dedup_key k tables.findings in
      ground (
        arith,
        found-count_at u scores fresh args key tables found i
            (sym (by_dedup_key-rule args.rule_id args.group_key tables.findings)),
      )

  after_call-count_at :
      (key : Text) (c : Call F T) (tables : Tables F T)
      → IsKey (λ g. g.id) tables.findings
      → SameWord
          (count_at key (after_call u scores c tables))
          (count_at key tables + reported_by u scores key c tables)
  unfolding after_call reported_by assign
  after_call-count_at key (detect fresh args) tables i =
      from_detection-count_at key fresh args tables i
  after_call-count_at key (set_status id status now) tables i =
      omega (arith, update_status-count_at key id status now tables)
  after_call-count_at key (set_owner id owner now) tables i = omega (
    arith,
    set_where-count_at (λ f. record f { owner = owner; updated_at = now }) (λ f. (refl, refl)) key
        id tables,
  )
  after_call-count_at key (note n) tables i = omega (arith, add_note-count_at key n tables)

  -- After any calls, the finding with a `dedup_key` counts, in 64 bits, the matches it counted before
  -- and those reported for the key by the calls of `CreateOrUpdateFromDetection` that went through,
  -- and no others; 0 where there is no finding.
  pub count_at-after_calls :
      (key : Text) (cs : List (Call F T)) (tables : Tables F T)
      → IsSound tables
      → SameWord
          (count_at key (after_calls u scores cs tables))
          (count_at key tables + reported u scores key cs tables)
  unfolding after_calls reported
  count_at-after_calls key [] tables s = omega arith
  count_at-after_calls key (c ∷ cs) tables s = omega (
    arith,
    after_call-count_at key c tables (AreApart-IsKey tables.findings s.apart),
    count_at-after_calls key cs (after_call u scores c tables)
        (after_call-IsSound u scores c tables s),
  )
