-- ===== src/Server/Laws.antt =====
-- crates/mcp-server: what holds of every message that a session handles.
pub mod Methods
pub mod Follows
pub mod Forwarding
pub mod Frame
pub mod Audit
pub mod Replies
pub mod Gate
pub mod Marks
pub mod Tests
pub mod Owners
