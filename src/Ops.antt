-- ===== src/Ops.antt =====
-- The operations on configuration files (internal/ops).
mod Tests
pub mod Diff
pub mod Unified
