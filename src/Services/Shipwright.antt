-- ===== src/Services/Shipwright.antt =====
-- services/shipwright_service.py and crew/shipwright_graph.py: the build of one phase.
pub mod Iteration
pub mod Build
pub mod Rounds
pub mod Frames
pub mod Passes
pub mod Settling
pub mod Laws
pub mod Counting
