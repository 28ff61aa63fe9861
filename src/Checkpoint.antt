-- ===== src/Checkpoint.antt =====
-- pkg/checkpoint.
pub mod Keys
pub mod Framing
pub mod Codec
pub mod Decimal
pub mod Files
pub mod Coordinator
mod Tests
