-- ===== src/Git.antt =====
-- services/git_service.py: git sandboxes of voyages, and the shell commands that run in them.
pub mod Shell
pub mod Checks
pub mod Desk
pub mod Reading
pub mod Service
pub mod History
pub mod Laws
pub mod Tests
