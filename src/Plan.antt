-- ===== src/Plan.antt =====
-- schemas/captain.py (`VoyagePlanSpec`) and `topological_layers` of crew/pipeline_graph.py.
pub mod Spec
pub mod Layers
pub mod Placement
pub mod Progress
pub mod Kahn
mod Tests
