-- ===== src/Dial.antt =====
-- The Dial System: src/backend/app/dial_system and schemas/dial_config.py.
pub mod Value
pub mod Config
pub mod Factory
pub mod Limiter
pub mod Router
mod Tests
mod Routing
