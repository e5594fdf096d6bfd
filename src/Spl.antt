-- ===== src/Spl.antt =====
-- internal/spl: the search language. `Unicode` is the interface to Go's rune tables.
pub mod Unicode
pub mod Lexer
pub mod Ast
pub mod Parser
pub mod Serializer
pub mod Planner
pub mod Executor
mod Samples
