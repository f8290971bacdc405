-- ===== src/Voyages.antt =====
-- How voyages come about and what they send back: api/v1/voyages.py, the standing orders, the webhook
-- of services/trigger_service.py and services/return_bottle_service.py.
pub mod Rows
pub mod Orders
pub mod Triggers
pub mod Bottle
mod Tests
