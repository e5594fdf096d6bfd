-- ===== src/Findings/Sound.antt =====
-- The invariant of the tables of internal/findings/findings.go.
pub mod Calls
use quetzalog.Base.{
  ℕ, Bool, true, false, ◌&&◌, ◌||◌, not, List, [], ◌∷◌, ◌++◌, ◌≡◌, refl, sym, ap, subst, ◌∙◌, inl,
  inr, Text, codes, equal, equal_iff, one_of, Bool-cases, Option-cases, if◌then◌else◌, if_rule,
  arith, Option, none, some, any_row, IsKey, All, any_row-or, All-map,
}
use quetzalog.Spl.Unicode.{Unicode}
use quetzalog.Findings.Merge.{valid_status, merge_strings, event_ids}
use quetzalog.Findings.Lists.{HasNoRepeat, merge_strings_bounds, event_ids-HasNoRepeat}
use quetzalog.Findings.Store.{
  Finding, Note, Tables, DetectionArgs, Scores, Fresh, find_key, by_dedup_key, update_findings,
  with_findings, is_clash, create, update, written, set_where, update_status, assign, add_note,
}
use quetzalog.Findings.Detect.{dedup_key_of, refreshed, detected, refresh_or_create, from_detection}
use quetzalog.Findings.Calls.{
  Call, detect, set_status, set_owner, note, kept, after_call, after_calls,
}

module _ {F T : Type 0} where
  -- No two findings share the identifier, nor a `dedup_key` that is not empty.
  unfoldable pub AreApart : List (Finding F T) → Type 0
  unfolding any_row
  AreApart [] = Unit
  AreApart (f ∷ fs) = (any_row (is_clash f) fs ≡ false) × AreApart fs

  pub AreApart-IsKey : (fs : List (Finding F T)) → AreApart fs → IsKey (λ f. f.id) fs
  unfolding AreApart IsKey
  AreApart-IsKey [] h = tt
  AreApart-IsKey (f ∷ fs) (a, h) = (
    (any_row-or (λ g. equal g.id f.id)
        (λ g. not (equal f.dedup_key []) && equal g.dedup_key f.dedup_key) fs a).0,
    AreApart-IsKey fs h,
  )

  -- A status of the lifecycle, and events named once.
  unfoldable pub IsFinding : Finding F T → Type 0
  unfolding valid_status HasNoRepeat
  IsFinding f = (valid_status f.status ≡ true) × HasNoRepeat f.event_ids

  pub record IsSound (tables : Tables F T) : Type 0 where
    pub apart : AreApart tables.findings
    pub all_findings : All IsFinding tables.findings
    pub note_ids : IsKey (λ n. n.id) tables.notes
    pub noted :
        All (λ n. any_row (λ f. equal f.id n.finding_id) tables.findings ≡ true) tables.notes

  unfoldable pub IsSoundReply : Option (Tables F T) → Type 0
  IsSoundReply none = Unit
  IsSoundReply (some tables) = IsSound tables

  any_row-update_findings :
      (test : Finding F T → Bool) (id : Text) (g : Finding F T → Finding F T)
      → ((f : Finding F T) → test (g f) ≡ test f)
      → (fs : List (Finding F T)) → any_row test (update_findings id g fs) ≡ any_row test fs
  unfolding any_row update_findings
  any_row-update_findings test id g h [] = refl
  any_row-update_findings test id g h (f ∷ fs) =
      ground (arith, h f, any_row-update_findings test id g h fs)

  pub All-find_key :
      (P : Finding F T → Type 0) (key : Text) (r : Finding F T) (fs : List (Finding F T))
      → find_key key fs ≡ some r
      → All P fs
      → P r
  unfolding find_key
  All-find_key P key r [] h a = cc
  All-find_key P key r (f ∷ fs) h (p, a) = elim (Bool-cases (equal f.dedup_key key)) [
    | inl e ↦ let here : f ≡ r = ground arith in subst P here p
    | inr e ↦ All-find_key P key r fs (ground arith) a
  ]

  module _ (id : Text) (g : Finding F T → Finding F T) (ids : (f : Finding F T) → (g f).id ≡ f.id)
      (keys : (f : Finding F T) → (g f).dedup_key ≡ f.dedup_key) where
    update_findings-AreApart :
        (fs : List (Finding F T)) → AreApart fs → AreApart (update_findings id g fs)
    unfolding AreApart update_findings
    update_findings-AreApart [] h = tt
    update_findings-AreApart (f ∷ fs) (a, h) =
        let same =
          any_row-update_findings (is_clash f) id g (λ e. ground (arith, ids e, keys e)) fs in
        let rest = update_findings-AreApart fs h in ground (arith, ids f, keys f)

    All-update_findings :
        (P : Finding F T → Type 0)
        → ((f : Finding F T) → P f → P (g f))
        → (fs : List (Finding F T)) → All P fs
        → All P (update_findings id g fs)
    unfolding update_findings
    All-update_findings P h [] a = tt
    All-update_findings P h (f ∷ fs) (p, a) =
        (if_rule P (equal f.id id) (g f) f (λ _. h f p) (λ _. p), All-update_findings P h fs a)

    pub updated-IsSound :
        (tables : Tables F T)
        → ((f : Finding F T) → IsFinding f → IsFinding (g f))
        → IsSound tables
        → IsSound (with_findings (update_findings id g tables.findings) tables)
    updated-IsSound tables h s = record {
      apart = update_findings-AreApart tables.findings s.apart;
      all_findings = All-update_findings IsFinding h tables.findings s.all_findings;
      note_ids = s.note_ids;
      noted =
          All-map (λ n. any_row (λ f. equal f.id n.finding_id) tables.findings ≡ true)
            (λ n.
              any_row (λ f. equal f.id n.finding_id) (update_findings id g tables.findings) ≡ true)
            (λ n k.
              any_row-update_findings (λ f. equal f.id n.finding_id) id g
                (λ f. ap (λ x. equal x n.finding_id) (ids f)) tables.findings
              ∙ k)
            tables.notes s.noted;
    }

    set_where-IsSound :
        (tables : Tables F T)
        → ((f : Finding F T) → IsFinding f → IsFinding (g f))
        → IsSound tables
        → IsSoundReply (set_where id g tables)
    unfolding IsSoundReply
    set_where-IsSound tables h s =
        if_rule IsSoundReply (any_row (λ f. equal f.id id) tables.findings)
          (some (with_findings (update_findings id g tables.findings) tables)) none
          (λ _. updated-IsSound tables h s) (λ _. tt)

  pub create-IsSound :
      (f : Finding F T) (tables : Tables F T)
      → IsFinding f
      → IsSound tables
      → IsSoundReply (create f tables)
  unfolding create IsSoundReply AreApart any_row
  create-IsSound f tables h s =
      if_rule IsSoundReply (any_row (is_clash f) tables.findings) none
        (some (with_findings (f ∷ tables.findings) tables)) (λ _. tt)
        (λ free. record {
          apart = (free, s.apart);
          all_findings = (h, s.all_findings);
          note_ids = s.note_ids;
          noted =
              All-map (λ n. any_row (λ g. equal g.id n.finding_id) tables.findings ≡ true)
                (λ n. any_row (λ g. equal g.id n.finding_id) (f ∷ tables.findings) ≡ true)
                (λ n k. ground arith) tables.notes s.noted;
        })

  pub update_status-IsSound :
      (id status : Text) (now : T) (tables : Tables F T)
      → IsSound tables
      → IsSoundReply (update_status id status now tables)
  unfolding update_status IsSoundReply IsFinding
  update_status-IsSound id status now tables s =
      let g = λ (f : Finding F T). record f { status = status; updated_at = now } in
      if_rule IsSoundReply (valid_status status) (set_where id g tables) none
        (λ known. set_where-IsSound id g (λ f. refl) (λ f. refl) tables (λ f h. (known, h.1)) s)
        (λ _. tt)

  pub assign-IsSound :
      (id owner : Text) (now : T) (tables : Tables F T)
      → IsSound tables
      → IsSoundReply (assign id owner now tables)
  unfolding assign IsFinding
  assign-IsSound id owner now tables s =
      set_where-IsSound id (λ f. record f { owner = owner; updated_at = now }) (λ f. refl)
        (λ f. refl) tables (λ f h. h) s

  pub add_note-IsSound :
      (n : Note T) (tables : Tables F T) → IsSound tables → IsSoundReply (add_note n tables)
  unfolding add_note IsSoundReply IsKey
  add_note-IsSound n tables s =
      if_rule IsSoundReply (equal n.finding_id [] || equal n.content []) none _ (λ _. tt)
        (λ _.
          if_rule IsSoundReply
            (any_row (λ m. equal m.id n.id) tables.notes
              || not (any_row (λ f. equal f.id n.finding_id) tables.findings))
            none (some (record tables { notes = n ∷ tables.notes })) (λ _. tt)
            (λ h. record {
              apart = s.apart;
              all_findings = s.all_findings;
              note_ids = (ground arith, s.note_ids);
              noted = (ground arith, s.noted);
            }))
