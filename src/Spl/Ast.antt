-- ===== src/Spl/Ast.antt =====
-- internal/spl/ast/ast.go: the nodes that the parser builds. `Expr.Kind` and the node types are
-- constructors with the fields that each uses; a Go map is an association list in which a key
-- stands once. Its wire form and its checks, which command.go beside it has, are the children.
pub mod Wire
pub mod Decode
pub mod Texts
pub mod Flattened
pub mod Stable
pub mod Validate
pub mod Accepted
use quetzalog.Base.{ℤ, Bool, Option, none, some, List, [], ◌∷◌, Text, equal, if◌then◌else◌}

mutual
  -- `and_of` and `or_of` hold `Args`, `not_of` holds `Arg`.
  pub data Expr : Type 0 where
    and_of : Exprs → Expr
    or_of : Exprs → Expr
    not_of : Expr → Expr
    cmp : (field op value : Text) → Expr
    in_list : (field : Text) → (negate : Bool) → (values : List Text) → Expr
    is_null : (field : Text) → (negate : Bool) → Expr
    like : (field : Text) → (negate : Bool) → (pat : Text) → Expr
    text : (value pat : Text) → Expr

  pub data Exprs : Type 0 where
    nil : Exprs
    cons : Expr → Exprs → Exprs

-- `ast.And(left, right)` and `ast.Or(left, right)`.
abbrev pub and_pair : Expr → Expr → Expr
and_pair a b = and_of (cons a (cons b nil))

abbrev pub or_pair : Expr → Expr → Expr
or_pair a b = or_of (cons a (cons b nil))

-- `m[key] = value`.
unfoldable pub insert : Text → Text → List (Text × Text) → List (Text × Text)
insert key value [] = (key, value) ∷ []
insert key value ((k, v) ∷ m) =
    if equal k key then (key, value) ∷ m else (k, v) ∷ insert key value m

pub record Condition : Type 0 where
  pub field : Text
  pub operator : Text
  pub value : Text

pub record Aggregation : Type 0 where
  pub function : Text
  pub field : Text
  pub alias : Text

pub record SortField : Type 0 where
  pub field : Text
  pub desc : Bool

pub record RexNode : Type 0 where
  pub field : Text
  pub pat : Text
  pub rename : Text
  pub mode : Text

pub record LookupNode : Type 0 where
  pub lookup : Text
  pub input_field : Text
  pub output_fields : List Text
  pub append : Bool

-- A head or tail count and a window are Go integers. A rename holds
-- `MappingsOrdered`, from which its map is made; an assignment is a pair.
pub data Node : Type 0 where
  search : (fields : List (Text × Text)) → (text : Text) → (expr : Option Expr) → Node
  where_of : (conditions : List Condition) → (expr : Option Expr) → Node
  eval : (field expr : Text) → (assignments : List (Text × Text)) → Node
  fields : (include : Bool) → (names : List Text) → Node
  table : (names : List Text) → Node
  rename : (mappings : List (Text × Text)) → Node
  stats : (aggs : List Aggregation) → (group_by : List Text) → Node
  timechart : (agg : Aggregation) → (span : Text) → (group_by : List Text) → Node
  sort : List SortField → Node
  head : ℤ → Node
  tail : ℤ → Node
  dedup : Text → Node
  rex : RexNode → Node
  bin : (field span : Text) → Node
  lookup : LookupNode → Node
  eventstats : (aggs : List Aggregation) → (group_by : List Text) → Node
  streamstats : (aggs : List Aggregation) → (group_by : List Text) → (window : ℤ) → Node
  unsupported : (name raw : Text) → Node

-- `conditionsToExpr`, of which ast, the serializer and the planner have a copy each.
unfoldable pub condition_exprs : List Condition → Exprs
condition_exprs [] = nil
condition_exprs (c ∷ cs) = cons (cmp c.field c.operator c.value) (condition_exprs cs)

unfoldable pub conditions_to_expr : List Condition → Option Expr
unfolding condition_exprs
conditions_to_expr [] = none
conditions_to_expr (c ∷ []) = some (cmp c.field c.operator c.value)
conditions_to_expr (c ∷ d ∷ cs) = some (and_of (condition_exprs (c ∷ d ∷ cs)))

-- The expression of a `where` command: its own, or that of its conditions.
unfoldable pub where_expr : List Condition → Option Expr → Option Expr
unfolding conditions_to_expr
where_expr conditions (some e) = some e
where_expr conditions none = conditions_to_expr conditions

-- The assignments of an `eval`: its list, or the one that its field and expression make.
unfoldable pub eval_assignments : Text → Text → List (Text × Text) → List (Text × Text)
eval_assignments field expr (a ∷ more) = a ∷ more
eval_assignments field expr [] = if equal field [] then [] else (field, expr) ∷ []
