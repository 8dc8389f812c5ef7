-- ===== src/Pipeline.antt =====
-- pipeline/: the correctness core of a cycle.
pub mod Dedup
pub mod Normalize
pub mod Salary
pub mod Signals
pub mod Filters
pub mod Stale
pub mod Runner
