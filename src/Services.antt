-- ===== src/Services.antt =====
-- The crew services: src/backend/app/services and src/backend/app/crew.
pub mod Interventions
pub mod Shipwright
pub mod Helmsman
pub mod Tests
pub mod Examples
pub mod Cards
pub mod Cabins
pub mod Publishing
pub mod LogBook
pub mod Captain
pub mod Navigator
pub mod Paths
pub mod Doctor
