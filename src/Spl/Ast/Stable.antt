-- ===== src/Spl/Ast/Stable.antt =====
-- The trip of a query through the wire form of internal/spl/ast/command.go.
use quetzalog.Base.{
  ◌≡◌, Bool, true, false, not, ◌&&◌, List, [], ◌∷◌, Text, equal, Option, none, some, Outcome, err,
}
use quetzalog.Spl.Ast.{Node, where_of, eval}
use quetzalog.Spl.Ast.Wire.{Wire, node_to_wire}
use quetzalog.Spl.Ast.Texts.{is_sendable}
use quetzalog.Spl.Ast.Flattened.{is_conjunctive, has_cmp}
use quetzalog.Spl.Ast.Decode.{Json, find_kind, WireError, unknown_type, kinds, decoded}

-- A `where` is full that has conditions and an expression, or no conditions and no expression that
-- is a conjunction of comparisons; an `eval` that has its list of assignments, with its field and
-- expression in front.
unfoldable pub is_full : Node → Bool
unfolding is_conjunctive has_cmp
is_full (where_of [] none) = true
is_full (where_of [] (some e)) = not (is_conjunctive e && has_cmp e)
is_full (where_of (c ∷ cs) none) = false
is_full (where_of (c ∷ cs) (some e)) = true
is_full (eval field e []) = false
is_full (eval field e ((f, x) ∷ more)) = equal field f && equal e x
is_full _ = true

unfoldable pub all_full : List Node → Bool
unfolding is_full
all_full [] = true
all_full (node ∷ nodes) = is_full node && all_full nodes

-- The documented behaviour of encoding/json on a command: what it writes it reads back, where the
-- texts are valid UTF-8 and the numbers are Go integers.
pub record IsFaithful {J : Type 0} (json : Json J) (valid : Text → Bool) : Type 0 where
  pub types :
      (w : Wire) → is_sendable valid w ≡ true → json.decode_type (json.encode w) ≡ some w.kind
  pub commands : (w : Wire) → is_sendable valid w ≡ true → json.decode (json.encode w) ≡ some w

-- What is read of a command that is written.
abbrev read_back : Option Wire → Text → Outcome WireError Node
read_back w t = elim (find_kind kinds t) [ none ↦ err (unknown_type t) | some k ↦ decoded k w ]

-- Whether all commands of a query can be sent.
unfoldable pub all_sendable : (Text → Bool) → List Node → Bool
unfolding is_sendable node_to_wire
all_sendable valid [] = true
all_sendable valid (node ∷ nodes) =
    is_sendable valid (node_to_wire node) && all_sendable valid nodes
