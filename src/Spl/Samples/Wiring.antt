-- ===== src/Spl/Samples/Wiring.antt =====
-- Runs of the wire form and of the checks of a query, internal/spl/ast/command.go.
use quetzalog.Base.{
  List, Bool, not, any_row, leb, Text, ◌≡◌, refl, pos, true, equal, one_of, [], ◌∷◌, codes, some,
}
use quetzalog.Spl.Unicode.{ascii, ascii_lower, trim, is_space, to_lower}
use quetzalog.Spl.Ast.Flattened.{expr_to_conditions-conditions_to_expr}
use quetzalog.Spl.Ast.{Condition, conditions_to_expr, cmp, where_of, eval, stats, head}
use quetzalog.Spl.Ast.Wire.{Wire}
use quetzalog.Spl.Ast.Decode.{Json, Query, expr_to_conditions}
use quetzalog.Spl.Ast.Validate.{validate, supported}
use quetzalog.Spl.Ast.Accepted.{all_known, validate-known}

-- A command stands for itself.
abbrev plain_json : Json Wire
plain_json = record { encode = λ w. w; decode_type = λ w. some w.kind; decode = some }

-- Every text of runes below 128 is valid.
abbrev is_ascii : Text → Bool
is_ascii t = not (any_row (λ c. leb 128 c) t)

abbrev built_query : Query
built_query = record {
  version = pos 0;
  commands =
      where_of (record { field = codes "host"; operator = codes "="; value = codes "a" } ∷ [])
        (some (cmp (codes "host") (codes "=") (codes "a")))
      ∷ eval (codes "x") (codes "1") ((codes "x", codes "1") ∷ [])
      ∷ stats (record { function = codes "dc"; field = codes "host"; alias = [] } ∷ []) []
      ∷ head (pos 5)
      ∷ [];
}

built_query-valid : validate ascii built_query.commands ≡ []
unfolding validate equal trim is_space to_lower one_of ascii ascii_lower
built_query-valid = refl

validate-known_example :
    (supported built_query.commands ≡ true) × (all_known ascii built_query.commands ≡ true)
validate-known_example = validate-known ascii built_query.commands built_query-valid

abbrev two_conditions : List Condition
two_conditions =
    record { field = codes "host"; operator = codes "="; value = codes "a" }
    ∷ record { field = codes "user"; operator = codes "!="; value = codes "b" }
    ∷ []

expr_to_conditions-conditions_to_expr_example :
    expr_to_conditions (conditions_to_expr two_conditions) ≡ two_conditions
expr_to_conditions-conditions_to_expr_example = expr_to_conditions-conditions_to_expr two_conditions
