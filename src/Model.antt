-- ===== src/Model.antt =====
-- The rows of the database that the services share (src/backend/app/models): one voyage's slice.
pub mod Voyage
pub mod Phases
pub mod World
pub mod Exec
pub mod Samples
