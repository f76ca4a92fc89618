-- ===== src/Examples.antt =====
-- Runs of the models at concrete inputs.
pub mod Sort
pub mod Sliding
pub mod Session
pub mod Clock
pub mod Logic
pub mod Recovery
pub mod Stateful
pub mod Arrange
pub mod Primaries
pub mod Sinks
pub mod Sources
pub mod Loader
pub mod Activation
pub mod Notify
pub mod Flow
pub mod Batches
pub mod Store
