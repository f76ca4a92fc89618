-- ===== src/Window/Sliding.antt =====
-- src/window/sliding_window.rs, and src/window/tumbling_window.rs, whose windower is a sliding one.
-- The map of open windows lists its keys in ascending order.
pub mod Defs
pub mod Rounding
pub mod Intersects
pub mod Whole
pub mod Exact
pub mod Opened
pub mod State
pub mod Closing
pub mod Laws
pub mod Truncation
