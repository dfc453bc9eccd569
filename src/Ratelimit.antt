-- ===== src/Ratelimit.antt =====
-- The bandwidth limits of a node's users (internal/ratelimit).
mod Tests
pub mod Bandwidth
pub mod Plan
pub mod Applier
