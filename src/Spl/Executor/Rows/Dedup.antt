-- ===== src/Spl/Executor/Rows/Dedup.antt =====
-- Which rows `dedupRows` of internal/spl/executor/executor.go keeps.
use quetzalog.Base.{
  true, false, List, [], ◌∷◌, Option, none, some, Text, equal, equal_iff, one_of, if◌then◌else◌,
  ◌≡◌, refl, sym, ◌∙◌, Bool-cases, inl, inr, arith, ap, if_rule,
}
use quetzalog.Spl.Unicode.{Unicode}
use quetzalog.Spl.Executor.Rows.{dedup_from, dedup_rows, row_key}

equal_no : (a b : Text) → equal a b ≡ false → equal b a ≡ false
equal_no a b h = elim (Bool-cases (equal b a)) [
  | inl e ↦ absurd (ground (arith, h, (equal_iff a b).1 (sym ((equal_iff b a).0 e))))
  | inr e ↦ e
]

one_of_here : (k : Text) (seen : List Text) → one_of (k ∷ seen) k ≡ true
unfolding one_of
one_of_here k seen = ground (arith, (equal_iff k k).1 refl)

one_of_there : (t k : Text) (seen : List Text) → one_of seen k ≡ true → one_of (t ∷ seen) k ≡ true
unfolding one_of
one_of_there t k seen h = ground arith

one_of_not :
    (t k : Text) (seen : List Text)
    → equal k t ≡ false
    → one_of seen k ≡ false
    → one_of (t ∷ seen) k ≡ false
unfolding one_of
one_of_not t k seen e h = ground arith

-- Of two texts, one among those seen and one not.
seen_apart :
    (seen : List Text) (a b : Text)
    → one_of seen a ≡ true
    → one_of seen b ≡ false
    → equal a b ≡ false
seen_apart seen a b h k = elim (Bool-cases (equal a b)) [
  | inl same ↦ absurd (ground (arith, h, k, ap (one_of seen) ((equal_iff a b).0 same)))
  | inr differ ↦ differ
]

module _ {A : Type 0} (key : A → Text) where
  -- The first row with a key.
  unfoldable pub first_with : Text → List A → Option A
  first_with k [] = none
  first_with k (r ∷ rows) = let more = first_with k rows in if equal (key r) k then some r else more

  -- No row has the key of a later row.
  unfoldable pub HasNoRepeat : List A → Type 0
  HasNoRepeat [] = Unit
  HasNoRepeat (r ∷ rows) = (first_with (key r) rows ≡ none) × HasNoRepeat rows

  first_with_here :
      (k : Text) (r : A) (rows : List A) → equal (key r) k ≡ true → first_with k (r ∷ rows) ≡ some r
  unfolding first_with
  first_with_here k r rows e = ground arith

  first_with_there :
      (k : Text) (r : A) (rows : List A)
      → equal (key r) k ≡ false
      → first_with k (r ∷ rows) ≡ first_with k rows
  unfolding first_with
  first_with_there k r rows e = ground arith

  first_with-seen :
      (seen : List Text) (k : Text) (rows : List A)
      → one_of seen k ≡ true
      → first_with k (dedup_from key seen rows) ≡ none
  unfolding dedup_from first_with
  first_with-seen seen k [] h = refl
  first_with-seen seen k (r ∷ rows) h =
      if_rule (λ out. first_with k out ≡ none) (one_of seen (key r)) (dedup_from key seen rows)
        (r ∷ dedup_from key (key r ∷ seen) rows) (λ _. first_with-seen seen k rows h)
        (λ e.
          first_with_there k r _ (equal_no k (key r) (seen_apart seen k (key r) h e))
          ∙ first_with-seen (key r ∷ seen) k rows (one_of_there (key r) k seen h))

  first_with-dedup_from :
      (seen : List Text) (k : Text) (rows : List A)
      → one_of seen k ≡ false
      → first_with k (dedup_from key seen rows) ≡ first_with k rows
  unfolding dedup_from first_with
  first_with-dedup_from seen k [] h = refl
  first_with-dedup_from seen k (r ∷ rows) h =
      if_rule (λ out. first_with k out ≡ first_with k (r ∷ rows)) (one_of seen (key r))
        (dedup_from key seen rows) (r ∷ dedup_from key (key r ∷ seen) rows)
        (λ e.
          first_with-dedup_from seen k rows h
          ∙ sym (first_with_there k r rows (seen_apart seen (key r) k e h)))
        (λ _. elim (Bool-cases (equal (key r) k)) [
          | inl same ↦ first_with_here k r _ same ∙ sym (first_with_here k r rows same)
          | inr differ ↦
              first_with_there k r _ differ
              ∙ first_with-dedup_from (key r ∷ seen) k rows
                  (one_of_not (key r) k seen (equal_no (key r) k differ) h)
              ∙ sym (first_with_there k r rows differ)
        ])

  dedup_from-HasNoRepeat :
      (seen : List Text) (rows : List A) → HasNoRepeat (dedup_from key seen rows)
  unfolding HasNoRepeat dedup_from
  dedup_from-HasNoRepeat seen [] = tt
  dedup_from-HasNoRepeat seen (r ∷ rows) =
      if_rule HasNoRepeat (one_of seen (key r)) (dedup_from key seen rows)
        (r ∷ dedup_from key (key r ∷ seen) rows) (λ _. dedup_from-HasNoRepeat seen rows)
        (λ _. (
          first_with-seen (key r ∷ seen) (key r) rows (one_of_here (key r) seen),
          dedup_from-HasNoRepeat (key r ∷ seen) rows,
        ))

-- `dedup` keeps exactly the first row with each value of its field: in what it returns no two
-- rows have the same value, and for every value the first row that has it is the first one that
-- the rows given have with it (or none, where they have none).
pub dedup_rows-first_with :
    {V : Type 0} (u : Unicode) (nil_value : V) (sprint : V → Text) (rows : List (List (Text × V)))
    (field : Text)
    → HasNoRepeat (row_key u nil_value sprint field) (dedup_rows u nil_value sprint rows field)
      × ((value : Text)
          → first_with
              (row_key u nil_value sprint field)
              value
              (dedup_rows u nil_value sprint rows field)
            ≡ first_with (row_key u nil_value sprint field) value rows)
unfolding dedup_rows one_of
dedup_rows-first_with u nil_value sprint rows field = (
  dedup_from-HasNoRepeat (row_key u nil_value sprint field) [] rows,
  λ value. first_with-dedup_from (row_key u nil_value sprint field) [] value rows refl,
)
