-- ===== src/Proxy.antt =====
-- The proxy engines' shared data and the validation of mappings (internal/proxy, internal/store).
pub mod Model
pub mod Validate
