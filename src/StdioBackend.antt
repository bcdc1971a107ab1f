-- ===== src/StdioBackend.antt =====
-- crates/backends/backend-stdio/src/lib.rs: a backend that is a child process.
pub mod State
pub mod Pending
pub mod Reader
pub mod Calls
pub mod Interface
pub mod Reachable
pub mod Tests
