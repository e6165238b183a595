-- ===== src/Storage.antt =====
-- internal/storage: the daemon's SQLite database. So far the table of pairings.
pub mod Pairings
