-- ===== src/Operators.antt =====
-- The operators without state (src/operators/mod.rs).
pub mod Items
pub mod Batches
pub mod Epochs
