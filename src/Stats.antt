-- ===== src/Stats.antt =====
-- processor/stats.go: pokemon counts for each time period, their running totals, and what removes
-- old periods. The proofs stand in the modules below.
pub mod Counts
pub mod Period
pub mod Collection
pub mod Rotation
pub mod Summary
pub mod Reach
pub mod Overlap
pub mod Examples
