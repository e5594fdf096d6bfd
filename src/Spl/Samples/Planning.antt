-- ===== src/Spl/Samples/Planning.antt =====
-- Runs of the planner, internal/spl/planner.
use quetzalog.Base.{ℕ, ℤ, pos, true, arith, List, [], ◌∷◌, ◌++◌, ◌≡◌, refl, Text, codes, none, some}
use quetzalog.Spl.Unicode.{ascii}
use quetzalog.Spl.Ast.{cmp, and_pair, in_list, Node, search, where_of, stats, text, sort}
use quetzalog.Spl.Planner.Clause.{Options, build_where}
use quetzalog.Spl.Planner.Values.{erase_nodes}
use quetzalog.Spl.Planner.Balance.{IsBalanced}
use quetzalog.Spl.Planner.Bound.{build_where-IsBalanced}
use quetzalog.Spl.Planner.Injection.{build_where-erase_nodes}
use quetzalog.Spl.Planner.Aggregate.{nothing_built, add_commands, quote_ident, strip_minus}
use quetzalog.Spl.Planner.Columns.{
  occurrences, occurrences-quote_ident, IsAligned, add_commands-IsAligned,
}

abbrev planned : List Node
planned =
    search [] []
      (some (and_pair (cmp (codes "host") (codes "=") (codes "x' OR 1=1")) (text (codes "a?b") [])))
    ∷ where_of [] (some (in_list (codes "source") true (codes "a" ∷ codes "b" ∷ [])))
    ∷ []

abbrev last_hour : Options ℕ
last_hour = record { earliest = some 10; latest = none; limit = pos 100; offset = pos 0 }

build_where-IsBalanced_example : IsBalanced (build_where ascii some planned last_hour)
build_where-IsBalanced_example = build_where-IsBalanced ℕ ascii some planned last_hour

build_where-erase_nodes_example :
    (build_where ascii some (erase_nodes planned) last_hour).0
    ≡ (build_where ascii some planned last_hour).0
build_where-erase_nodes_example = build_where-erase_nodes ℕ ascii some planned last_hour

occurrences-quote_ident_example :
    (body : Text) × (quote_ident (codes "-a\" FROM users --") ≡ b'"' ∷ (body ++ (b'"' ∷ [])))
    × (occurrences b'"' body ≡ 0)
    × (occurrences b'-' body ≡ 2)
unfolding occurrences strip_minus
occurrences-quote_ident_example = occurrences-quote_ident (codes "-a\" FROM users --") b'-'

abbrev seconds : Text → ℕ → ℤ
seconds t n = pos n

abbrev counted : List Node
counted =
    stats (record { function = codes "count"; field = []; alias = [] } ∷ []) (codes "host" ∷ [])
    ∷ sort (record { field = codes "-count"; desc = true } ∷ [])
    ∷ []

nothing_built-IsAligned : IsAligned nothing_built
unfolding IsAligned
nothing_built-IsAligned = (refl, omega arith)

add_commands-IsAligned_example : IsAligned (add_commands ascii some seconds counted nothing_built)
add_commands-IsAligned_example =
    add_commands-IsAligned ascii some seconds counted nothing_built nothing_built-IsAligned
