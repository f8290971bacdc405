-- ===== src/Plan/Kahn.antt =====
-- Kahn's algorithm as `validate_plan_graph` runs it.
pub mod Degrees
pub mod Loop
pub mod Ranks
pub mod Edges
pub mod Criterion
