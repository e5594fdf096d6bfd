-- ===== src/Spl/Samples/Running.antt =====
-- Runs of the executor's statements, internal/spl/executor.
use quetzalog.Base.{ℕ, ℤ, pos, true, List, [], ◌∷◌, Text, codes, some}
use quetzalog.Spl.Unicode.{ascii}
use quetzalog.Spl.Ast.{cmp, Node, where_of, sort, head}
use quetzalog.Spl.Planner.Clause.{Options}
use quetzalog.Spl.Executor.Query.{run_query}
use quetzalog.Spl.Executor.Statement.{IsSettled, run_query-IsSettled}

abbrev newest : List Node
newest =
    where_of [] (some (cmp (codes "host") (codes "=") (codes "a?b")))
    ∷ sort (record { field = codes "host"; desc = true } ∷ [])
    ∷ head (pos 5)
    ∷ []

abbrev window : Options ℕ
window = record { earliest = some 10; latest = some 20; limit = pos 100; offset = pos 0 }

abbrev no_scale : Text → ℕ → ℤ
no_scale t n = pos n

run_query-IsSettled_example : IsSettled newest (run_query ascii some no_scale newest window)
run_query-IsSettled_example = run_query-IsSettled ℕ ascii some no_scale newest window
