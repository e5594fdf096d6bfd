-- ===== src/Spl/Planner.antt =====
-- internal/spl/planner/planner.go: from a query to SQL text and the arguments of its placeholders.
pub mod Fields
pub mod Where
pub mod Marks
pub mod Balance
pub mod Clause
pub mod Bound
pub mod Values
pub mod Injection
pub mod Aggregate
pub mod Columns
