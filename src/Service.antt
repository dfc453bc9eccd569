-- ===== src/Service.antt =====
-- The safe apply pipeline (internal/service): the host, the pipeline and what it promises.
pub mod Host
pub mod Prune
pub mod Restore
pub mod Apply
