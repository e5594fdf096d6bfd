-- ===== src/Findings/Lists.antt =====
-- What `mergeStrings` of internal/findings/findings.go keeps and adds.
use quetzalog.Base.{
  ℕ, ◌+◌, ◌≤◌, ◌<◌, true, false, ◌||◌, List, [], ◌∷◌, ◌++◌, ◌≡◌, refl, ◌⊎◌, inl, inr, Text, equal,
  equal_iff, one_of, Bool-cases, if◌then◌else◌, leb, length, length-append, arith, Option, none,
  some,
}
use quetzalog.Findings.Merge.{Event, add_new, add_all, add_up_to, merge_strings, event_ids}

unfoldable pub HasNoRepeat : List Text → Type 0
unfolding one_of
HasNoRepeat [] = Unit
HasNoRepeat (x ∷ xs) = (one_of xs x ≡ false) × HasNoRepeat xs

one_of-append : (xs : List Text) (v s : Text) → one_of (xs ++ v ∷ []) s ≡ one_of xs s || equal s v
unfolding one_of
one_of-append [] v s = ground arith
one_of-append (x ∷ xs) v s = ground (arith, one_of-append xs v s)

HasNoRepeat-append :
    (xs : List Text) (v : Text) → one_of xs v ≡ false → HasNoRepeat xs → HasNoRepeat (xs ++ v ∷ [])
unfolding HasNoRepeat one_of
HasNoRepeat-append [] v h n = (refl, tt)
HasNoRepeat-append (x ∷ xs) v h (a, n) =
    ground (arith, one_of-append xs v x, equal_iff x v, equal_iff v x, HasNoRepeat-append xs v)

add_new-HasNoRepeat : (xs : List Text) (v : Text) → HasNoRepeat xs → HasNoRepeat (add_new xs v)
unfolding add_new
add_new-HasNoRepeat xs v n = ground (arith, HasNoRepeat-append xs v)

one_of-add_new : (xs : List Text) (v s : Text) → one_of (add_new xs v) s ≡ one_of xs s || equal s v
unfolding add_new
one_of-add_new xs v s = ground (arith, one_of-append xs v s, equal_iff s v)

length-add_new :
    (xs : List Text) (v : Text)
    → (length xs ≤ length (add_new xs v)) × (length (add_new xs v) ≤ length xs + 1)
unfolding add_new
length-add_new xs v = ground (arith, length-append xs (v ∷ []))

add_all-HasNoRepeat : (out vs : List Text) → HasNoRepeat out → HasNoRepeat (add_all out vs)
unfolding add_all
add_all-HasNoRepeat out [] n = n
add_all-HasNoRepeat out (v ∷ vs) n =
    add_all-HasNoRepeat (add_new out v) vs (add_new-HasNoRepeat out v n)

one_of-add_all :
    (out vs : List Text) (s : Text) → one_of (add_all out vs) s ≡ one_of out s || one_of vs s
unfolding add_all one_of
one_of-add_all out [] s = ground arith
one_of-add_all out (v ∷ vs) s =
    ground (arith, one_of-add_all (add_new out v) vs s, one_of-add_new out v s)

length-add_all : (out vs : List Text) → length (add_all out vs) ≤ length out + length vs
unfolding add_all
length-add_all out [] = omega arith
length-add_all out (v ∷ vs) = omega (arith, length-add_all (add_new out v) vs, length-add_new out v)

module _ (limit : ℕ) where
  add_up_to-HasNoRepeat :
      (out vs : List Text) → HasNoRepeat out → HasNoRepeat (add_up_to limit out vs)
  unfolding add_up_to
  add_up_to-HasNoRepeat out [] n = n
  add_up_to-HasNoRepeat out (v ∷ vs) n =
      ground (arith, n, add_up_to-HasNoRepeat (add_new out v) vs (add_new-HasNoRepeat out v n))

  length-add_up_to :
      (bound : ℕ) (out vs : List Text)
      → limit ≤ bound
      → length out ≤ bound
      → length (add_up_to limit out vs) ≤ bound
  unfolding add_up_to
  length-add_up_to bound out [] c h = h
  length-add_up_to bound out (v ∷ vs) c h =
      ground (arith, length-add_new out v, length-add_up_to bound (add_new out v) vs)

  length-grows : (out vs : List Text) → length out ≤ length (add_up_to limit out vs)
  unfolding add_up_to
  length-grows out [] = omega arith
  length-grows out (v ∷ vs) = ground (arith, length-add_new out v, length-grows (add_new out v) vs)

  add_up_to-keeps :
      (out vs : List Text) (s : Text)
      → one_of out s ≡ true
      → one_of (add_up_to limit out vs) s ≡ true
  unfolding add_up_to
  add_up_to-keeps out [] s h = h
  add_up_to-keeps out (v ∷ vs) s h =
      ground (arith, one_of-add_new out v s, add_up_to-keeps (add_new out v) vs s)

  add_up_to-from :
      (out vs : List Text) (s : Text)
      → one_of (add_up_to limit out vs) s ≡ true
      → (one_of out s || one_of vs s) ≡ true
  unfolding add_up_to one_of
  add_up_to-from out [] s h = ground arith
  add_up_to-from out (v ∷ vs) s h =
      ground (arith, one_of-add_new out v s, add_up_to-from (add_new out v) vs s)

  -- Below the cap everything is added.
  add_up_to-all :
      (out vs : List Text) (s : Text)
      → length (add_up_to limit out vs) < limit
      → one_of vs s ≡ true
      → one_of (add_up_to limit out vs) s ≡ true
  unfolding add_up_to one_of
  add_up_to-all out [] s l h = cc
  add_up_to-all out (v ∷ vs) s l h = ground (
    arith,
    one_of-add_new out v s,
    add_up_to-all (add_new out v) vs s,
    add_up_to-keeps (add_new out v) vs s,
  )

-- `mergeStrings` gives a list without repeats, no longer than the cap or the first list, which has
-- all of the first list and nothing but the two, and all of both where it is shorter than the cap.
pub merge_strings_bounds :
    (base add : List Text) (limit : ℕ)
    → let merged = merge_strings base add limit in
      HasNoRepeat merged
      × ((length merged ≤ limit) ⊎ (length merged ≤ length base))
      × ((s : Text) → one_of base s ≡ true → one_of merged s ≡ true)
      × ((s : Text) → one_of merged s ≡ true → (one_of base s || one_of add s) ≡ true)
      × ((s : Text) → length merged < limit → one_of add s ≡ true → one_of merged s ≡ true)
unfolding merge_strings one_of HasNoRepeat
merge_strings_bounds base add limit =
    let first = add_all [] base in
    (
      add_up_to-HasNoRepeat limit first add (add_all-HasNoRepeat [] base tt),
      elim (Bool-cases (leb limit (length base))) [
        | inl over ↦ inr (
            length-add_up_to limit (length base) first add (ground arith)
              (omega (arith, length-add_all [] base)))
        | inr under ↦ inl (
            length-add_up_to limit limit first add (omega arith)
              (ground (arith, length-add_all [] base)))
      ],
      λ s h. add_up_to-keeps limit first add s (ground (arith, one_of-add_all [] base s)),
      λ s h. ground (arith, add_up_to-from limit first add s, one_of-add_all [] base s),
      λ s l h. add_up_to-all limit first add s l h,
    )

pub event_ids-HasNoRepeat :
    (out : List Text) (evs : List (Option Event))
    → HasNoRepeat out
    → HasNoRepeat (event_ids out evs)
unfolding event_ids
event_ids-HasNoRepeat out [] n = n
event_ids-HasNoRepeat out (none ∷ evs) n = event_ids-HasNoRepeat out evs n
event_ids-HasNoRepeat out (some ev ∷ evs) n =
    event_ids-HasNoRepeat (if equal ev.id [] then out else add_new out ev.id) evs
      (ground (arith, n, add_new-HasNoRepeat out ev.id n))
