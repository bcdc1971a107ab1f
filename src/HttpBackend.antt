-- ===== src/HttpBackend.antt =====
-- crates/backends/backend-http/src/lib.rs: a backend that is an MCP server behind a URL.
pub mod Headers
pub mod Response
pub mod State
pub mod Requests
pub mod Sessions
pub mod Interface
pub mod Tests
