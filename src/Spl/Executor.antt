-- ===== src/Spl/Executor.antt =====
-- internal/spl/executor/executor.go.
pub mod Rows
pub mod Post
pub mod Sort
pub mod Filters
pub mod Query
pub mod Statement
