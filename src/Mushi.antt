-- ===== src/Mushi.antt =====
-- den_den_mushi/mushi.py and den_den_mushi/handlers.py: the consumer of a stream of events.
pub mod Consuming
pub mod Justified
pub mod Laws
pub mod Tests
