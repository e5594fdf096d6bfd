-- ===== src/Spl/Executor/Rows.antt =====
-- The row commands of internal/spl/executor/executor.go that need no evaluator: limits, head and
-- tail, dedup, and the projection. A row is a Go map, an association list from names to values of
-- Go's type `any`; what `fmt.Sprintf("%v", v)` prints of a value is a parameter.
pub mod Limits
pub mod Dedup
use quetzalog.Base.{
  ℕ, ℤ, pos, negsuc, Bool, true, false, not, List, [], ◌∷◌, ◌++◌, Text, length, take, drop, ◌-◌,
  ltb, leb, codes, Option, none, some, equal, one_of, if◌then◌else◌, ◌==◌,
}
use quetzalog.Spl.Unicode.{Unicode, to_lower}
use quetzalog.Spl.Ast.{Node, head, tail, dedup, table, fields}

abbrev pub max_result_rows : ℕ
max_result_rows = 50000

-- `clampLimit`.
unfoldable pub clamp_limit : ℤ → ℕ
clamp_limit (negsuc n) = 0
clamp_limit (pos n) = if ltb max_result_rows n then max_result_rows else n

-- The limit that `RunQuery` settles on.
unfoldable pub query_limit : ℤ → ℕ
query_limit (negsuc n) = 100
query_limit (pos n) =
    let limit = if n == 0 then 100 else n in
    if ltb max_result_rows limit then max_result_rows else limit

-- One command of the loop of `headN`.
unfoldable pub narrow : ℕ → Node → ℕ
narrow n (head (pos k)) = if ltb k n then k else n
narrow n _ = n

-- `headN`, on a fallback that is not negative.
unfoldable pub head_n : List Node → ℕ → ℕ
head_n [] n = n
head_n (c ∷ q) n = head_n q (narrow n c)

-- A count below 0 is 0.
unfoldable pub count_of : ℤ → ℕ
count_of (pos n) = n
count_of (negsuc n) = 0

module _ {ℓ} {A : Type ℓ} where
  -- One command of the loop of `applyHeadTail`.
  unfoldable pub head_tail : Node → List A → List A
  unfolding count_of
  head_tail (head n) rows = if ltb (count_of n) (length rows) then take (count_of n) rows else rows
  head_tail (tail n) rows =
      if ltb (count_of n) (length rows) then drop (length rows - count_of n) rows else rows
  head_tail _ rows = rows

  -- `applyHeadTail`.
  unfoldable pub apply_head_tail : List Node → List A → List A
  apply_head_tail [] rows = rows
  apply_head_tail (c ∷ q) rows = apply_head_tail q (head_tail c rows)

abbrev pub default_columns : List Text
default_columns =
    codes "id"
    ∷ codes "timestamp"
    ∷ codes "source"
    ∷ codes "severity"
    ∷ codes "event_type"
    ∷ codes "host"
    ∷ codes "message"
    ∷ []

unfoldable pub canonicalize_cols : List Text → List Text
canonicalize_cols [] = []
canonicalize_cols (f ∷ fs) =
    let more = canonicalize_cols fs in if equal f (codes "*") then more else f ∷ more

-- `removeCols`; the names to drop are lower-cased first.
unfoldable pub keep_cols : Unicode → List Text → List Text → List Text
keep_cols u dropped [] = []
keep_cols u dropped (c ∷ cols) =
    let more = keep_cols u dropped cols in if one_of dropped (to_lower u c) then more else c ∷ more

unfoldable pub lower_all : Unicode → List Text → List Text
lower_all u [] = []
lower_all u (d ∷ ds) = to_lower u d ∷ lower_all u ds

unfoldable pub remove_cols : Unicode → List Text → List Text → List Text
unfolding keep_cols lower_all
remove_cols u cols dropped = keep_cols u (lower_all u dropped) cols

-- One command of the loop of `projectionColumns`, over `cols` and `found`.
unfoldable pub project_step : Unicode → List Text × Bool → Node → List Text × Bool
project_step u (cols, found) (table names) = (canonicalize_cols names, true)
project_step u (cols, found) (fields true names) = (canonicalize_cols names, true)
project_step u (cols, true) (fields false names) = (remove_cols u cols names, true)
project_step u (cols, false) (fields false names) = (remove_cols u default_columns names, true)
project_step u state _ = state

unfoldable pub projection_from : Unicode → List Text × Bool → List Node → List Text × Bool
unfolding project_step
projection_from u state [] = state
projection_from u state (c ∷ q) = projection_from u (project_step u state c) q

unfoldable pub projection_columns : Unicode → List Node → List Text × Bool
unfolding projection_from
projection_columns u q = projection_from u ([], false) q

-- The column that the last `switch` of `valueFor` reads for a lower-cased name.
unfoldable pub aliased : Text → Option Text
aliased l =
    if one_of (codes "src_ip" ∷ codes "sourceip" ∷ []) l
    then some (codes "source_ip")
    else if one_of (codes "dst_ip" ∷ codes "dest_ip" ∷ codes "destinationip" ∷ []) l
    then some (codes "destination_ip")
    else if equal l (codes "src_port")
    then some (codes "source_port")
    else if equal l (codes "dest_port")
    then some (codes "destination_port")
    else if one_of (codes "sourcetype" ∷ codes "source_type" ∷ []) l
    then some (codes "source_type")
    else if one_of (codes "eventtype" ∷ codes "event_type" ∷ []) l
    then some (codes "event_type")
    else none

module _ {V : Type 0} where
  -- `r[name]`, where the map has it.
  unfoldable pub find : List (Text × V) → Text → Option V
  find [] name = none
  find ((k, v) ∷ r) name = let more = find r name in if equal k name then some v else more

  abbrev or_else : Option V → Option V → Option V
  or_else (some v) o = some v
  or_else none o = o

  abbrev find_alias : List (Text × V) → Option Text → Option V
  find_alias r none = none
  find_alias r (some column) = find r column

  -- `valueFor`; `nil` where the row has no such value.
  unfoldable pub value_for : Unicode → V → List (Text × V) → Text → V
  value_for u nil r name =
      let l = to_lower u name in
      let clock =
        if one_of (codes "_time" ∷ codes "time" ∷ []) l then find r (codes "timestamp") else none in
      elim (or_else clock (or_else (find r name) (or_else (find r l) (find_alias r (aliased l))))) [
        | some v ↦ v
        | none ↦ nil
      ]

  unfoldable pub project_row : Unicode → V → List Text → List (Text × V) → List (Text × V)
  project_row u nil [] r = []
  project_row u nil (c ∷ cols) r = (c, value_for u nil r c) ∷ project_row u nil cols r

-- The loop of `dedupRows`, over the key of a row and the keys seen so far.
module _ {A : Type 0} (key : A → Text) where
  unfoldable pub dedup_from : List Text → List A → List A
  dedup_from seen [] = []
  dedup_from seen (r ∷ rows) =
      let more = dedup_from (key r ∷ seen) rows in
      let same = dedup_from seen rows in if one_of seen (key r) then same else r ∷ more

-- What a row command needs of the values of a row: `nil`, and `fmt.Sprintf("%v", v)`.
module _ {V : Type 0} (u : Unicode) (nil_value : V) (sprint : V → Text) where
  unfoldable pub row_key : Text → List (Text × V) → Text
  row_key field r = sprint (value_for u nil_value r field)

  unfoldable pub dedup_rows : List (List (Text × V)) → Text → List (List (Text × V))
  unfolding dedup_from row_key
  dedup_rows rows field = dedup_from (row_key field) [] rows

  -- `applyDedup`.
  unfoldable pub apply_dedup : List Node → List (List (Text × V)) → List (List (Text × V))
  apply_dedup [] rows = rows
  apply_dedup (dedup field ∷ q) rows = apply_dedup q (dedup_rows rows field)
  apply_dedup (_ ∷ q) rows = apply_dedup q rows
