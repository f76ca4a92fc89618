-- ===== src/Stateful.antt =====
-- The stateful unary operator: src/operators/stateful_unary.rs.
pub mod Defs
pub mod Isolation
pub mod Restore
pub mod Activation
pub mod Waits
pub mod Ordering
pub mod Unary
pub mod Scheduled
pub mod Callbacks
pub mod Notify
pub mod Epochs
pub mod UnaryLoop
pub mod Pending
pub mod Working
pub mod Steady
