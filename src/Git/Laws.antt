-- ===== src/Git/Laws.antt =====
-- Which sandboxes there are: each that the backend created is that of a voyage, or was
-- destroyed, or its destroy raised.
pub mod Frames
pub mod Operations
pub mod Accounting
pub mod Accounts
pub mod Cloning
pub mod Cleaning
pub mod Whole
pub mod Pushing
