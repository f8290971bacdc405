-- ===== src/Services/Helmsman.antt =====
-- services/helmsman_service.py and crew/helmsman_graph.py: deployments and rollbacks.
pub mod Records
pub mod Deploying
pub mod Steps
pub mod Laws
pub mod Contract
pub mod Newest
