-- ===== src/Api.antt =====
-- The HTTP handlers of the panel (internal/api) over the tables of the store.
pub mod Mappings
pub mod Login
