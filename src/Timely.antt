-- ===== src/Timely.antt =====
-- src/timely.rs: the buffers and the notificator of the operators.
pub mod Buffer
pub mod Notificator
pub mod Rounds
pub mod Primaries
pub mod Balance
pub mod Routing
pub mod Parts
pub mod Assignment
pub mod Delivery
