-- ===== src/Cabin.antt =====
-- cabin/null_backend.py, the default backend of the Cabins, and services/preview_service.py.
pub mod Null
pub mod Terminal
pub mod Preview
mod Tests
