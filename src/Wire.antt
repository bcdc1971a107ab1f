-- ===== src/Wire.antt =====
-- crates/mcp-wire: SSE framing and the JSON-RPC 2.0 messages.
pub mod Sse
pub mod JsonRpc
