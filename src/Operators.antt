-- ===== src/Operators.antt =====
-- pkg/operators.
pub mod Windows
pub mod Layout
pub mod Counting
