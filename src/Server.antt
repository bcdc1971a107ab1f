-- ===== src/Server.antt =====
-- crates/mcp-server: the session that answers the messages of one client.
pub mod Protocol
pub mod State
pub mod Tools
pub mod Resources
pub mod Events
pub mod Dispatch
pub mod Subscriptions
pub mod Laws
