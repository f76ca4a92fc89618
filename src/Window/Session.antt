-- ===== src/Window/Session.antt =====
-- src/window/session_window.rs: sessions that end after a gap of inactivity.
pub mod Defs
pub mod Merge
pub mod Insert
pub mod Closing
pub mod Orphan
