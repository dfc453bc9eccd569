-- ===== src/Imports.antt =====
-- Reading a live configuration back into mappings: internal/proxy/parser.go,
-- internal/proxy/nginxparser.go and the handlers of internal/api/configimport.go.
pub mod Names
pub mod Conversion
pub mod Haproxy
pub mod Nginx
pub mod Confirm
pub mod Fresh
pub mod Scan
pub mod Preserve
pub mod Candidates
pub mod Tests
