-- ===== src/Runtime.antt =====
-- pkg/runtime.
pub mod EventTime
pub mod Faults
pub mod Gate
pub mod Pipeline
pub mod Source
