-- ===== src/Window/Clock.antt =====
-- src/window/clock: the clocks of the windowing operators.
pub mod System
pub mod Event
pub mod Watermark
