-- ===== src/Spl/Parser.antt =====
-- internal/spl/parser/parser.go.
pub mod Expression
pub mod Aggregation
pub mod Commands
pub mod Source
pub mod Pipeline
pub mod Query
