-- ===== src/Pipeline.antt =====
-- The voyage pipeline: services/pipeline_guards.py, crew/pipeline_graph.py and
-- services/pipeline_service.py.
pub mod Guards
pub mod Stages
pub mod Building
pub mod Graph
pub mod Service
mod Tests
