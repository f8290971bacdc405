-- ===== src/Deck.antt =====
-- The lists of api/v1/observation_deck.py, page by page, and the cursors of api/v1/_cursor.py.
pub mod Pages
pub mod Cursors
mod Tests
