-- ===== src/Lib.antt =====
-- Quetzalog is a SIEM in Go: it stores events in SQLite and answers queries written in a subset of
-- Splunk's search language. This library models that language, `internal/spl`: how a query is
-- scanned, parsed, written back as text and as JSON, checked, turned into SQL, and what the executor
-- does with rows in memory. It also models the traversals of the knowledge graph, `internal/graph`,
-- the runs of attack scenarios, `internal/detections`, the risk of entities, `internal/risk`,
-- the findings of detections, `internal/findings`, and accounts and tokens, `internal/auth`.
--
-- Parts and files
--
-- - `Base`: names shared by all modules. `Text` is a Go string as its runes, and `Outcome E A` is
--   Go's `(value, error)` with a third case, `out_of_fuel`, for a loop whose bound is used up.
-- - `Spl/Unicode`: `unicode.IsSpace` in full; the other tables of Go's package `unicode` are a
--   parameter, the record `Unicode`, with its documented values on ASCII in `IsStandard` and the
--   instance `ascii`.
-- - `Spl/Lexer` (internal/spl/lexer/lexer.go): `tokenize` is `Tokenize`, `next` is `Next`, and the
--   scan functions have Go's names. The field `pos` is the length of `before`. `Lexer/Scan` holds
--   the loops over runes, `Lexer/Literals` holds `StringLiteral` and what the scanner reads of it.
-- - `Spl/Ast` (internal/spl/ast/ast.go, internal/spl/ast/command.go): `Expr`, with a constructor
--   for each `Kind`, and `Node`, with a constructor for each type of command; a `rename` has
--   `MappingsOrdered`. `Ast/Wire` is `wireCommand` and `nodeToWire`, `Ast/Decode` is `wireToNode`
--   and the JSON methods of a query, over a parameter `Json` for encoding/json, and `Ast/Validate`
--   is `Validate`, `UnsupportedCommands` and `EnsureSearchFirst`. `Ast/Texts` says what encoding/json
--   can carry: valid UTF-8 and Go integers.
-- - `Spl/Parser` (internal/spl/parser/parser.go): `Expression` is the parser of filters,
--   `Aggregation` the commands with aggregations, `Commands` the other commands, `Source` the bytes
--   of the query and `rawSlice`, `Pipeline` is `splitPipes`, `search` and `where`, and `Query` is
--   `eval`, `dispatch`, `Parse` and `New`. The parser's window `toks[pos:]` is the list of tokens
--   left. An error keeps its kind and its token, not the words of its message.
-- - `Spl/Serializer` (internal/spl/serializer/serializer.go): `serialize` is `Serialize`; its child
--   `Text` writes expressions and the pieces of commands.
-- - `Spl/Planner` (internal/spl/planner/planner.go): `Fields` is `resolveField` and what rests on
--   it, `Where` is `ExprToSQL` with the predicates, `Clause` is `BuildWhere` and `Aggregate` is
--   `BuildAggregate`. A function that appends to `args` returns what it appends. Go's floats and
--   times are parameters, as are `strconv.ParseFloat` and `int64(f * mult)`.
-- - `Spl/Executor/Rows` (internal/spl/executor/executor.go): limits, `head` and `tail`, `dedup` and
--   the projection. A row is an association list; its values are a parameter, with `nil` and what
--   `fmt.Sprintf` prints of a value.
-- - `Spl/Executor/Post` is the `where` on aggregated rows and `buildRowOrder`, `Spl/Executor/Query`
--   the statement `RunQuery` sends or its refusal. `Spl/Executor/Sort` is `applySort`. Comparing
--   floats is a parameter, and so is `sort.SliceStable`, with what its documentation promises.
-- - `Graph` (internal/graph/graph.go): `Neighbors` is the traversal by levels and `Paths` is `Path`.
--   The answers of the database, edges and entity rows, are parameters; the map of edges is a list
--   in the order in which Go walks it.
-- - `Risk` (internal/risk/entity_risk.go): `record_risk` is `Record` and `get_risk` is `Get`, the
--   two tables being lists. `Risk/Scorer` (internal/risk/event_scoring.go) is `ScoreEvent`, over what
--   the stores of assets and identities answer. Floats and their addition are parameters.
-- - `Auth` (internal/auth/auth.go): `Tables` is the schema and what the statements read and write,
--   `Users` the accounts, `Login` is `Authenticate`, `Tokens` the bearer tokens, the middleware and
--   the audit log, `Requests` runs of the calls. bcrypt and SHA-256 are the parameter `Crypto`. A
--   failure of the database is modelled only where a constraint of the schema makes it.
-- - `Findings` (internal/findings/findings.go): `Merge` is `mergeStrings`, `primaryEntities` and the
--   scale of severities, `Store` the calls on the tables, `Detect` is `CreateOrUpdateFromDetection`.
--   `Base/Rows` has what both stores share.
-- - `Detections/Scenario` (internal/detections/scenario.go): `step_status` is `stepStatus`,
--   `advance_run` is `advanceRun` and `advance_active` is `advanceActiveRuns`. What the database
--   answers for a run, and which writes go through, is the parameter `Feed`; a run holds its steps,
--   which the program keeps in a table of their own.
-- - `Spl/Samples`, `Graph/Samples`, `Detections/Samples`: runs on small inputs.
--
-- `parse_query` composes the scanner and the parser the way the callers do: `New`, which scans,
-- then `Parse`. Its commands are what the serializer, the planner and the wire form take.
--
-- Bounds
--
-- `tokenize` is bounded by its rounds, and one round more than the input has runes is enough
-- wherever the loop of `Tokenize` ends. The parser of filters is bounded by the depth of its calls,
-- `depth_bound`, four for each token and four more, since a token is consumed at the least on every
-- fourth call. The loop over aggregations has a round for each token and one more. The other loops
-- are by recursion on the tokens, the runes or the commands, and those of the graph on the levels,
-- `MaxDepth` at most. The numbers of a scenario's run, which Go computes in floating point, are
-- exact: a confidence of a step in hundredths, the risk of a run as a fraction. A Go integer that a
-- query writes is `ℤ`, and `strconv.Atoi` fails beyond 64 bits; no sum of such integers is computed.
-- The count of matches of a finding is a sum of Go ints, kept as its 64 bits: an int below 0 is its
-- value and 2 ^ 64, and a sum is cut to 64 bits. `itoa` is modelled on all integers but the least.
--
-- Not modelled
--
-- Of the modelled packages: the evaluator of `eval` on rows, renaming and the statistics of
-- internal/spl/executor, and how `runRows` and `runAggregate` go on when the database has answered;
-- `CanonicalColumns`, whose answer has no order; the SQL text of the graph's two queries; how a
-- scenario's run is opened and reported; the listings of internal/risk, internal/findings and
-- internal/auth, which are SQL, and the event tokens. Every other part of the program is left out:
-- storage, HTTP, ingestion, detection rules, alerts, incidents and the user interface.
pub mod Base
pub mod Spl
pub mod Graph
pub mod Detections
pub mod Risk
pub mod Auth
pub mod Findings
