-- ===== src/Window.antt =====
-- The windowing operators: src/window.
pub mod Types
pub mod Compare
pub mod Sliding
pub mod Session
pub mod Clock
pub mod Logic
