-- ===== src/State.antt =====
-- pkg/state.
pub mod Encoding
pub mod Keyed
