-- ===== src/Core/Unconnected.antt =====
-- crates/core/src/lib.rs: what a backend answers that is not connected.
use headless_mcp_server.Prelude.{ℕ, String, ◌≡◌, Option, err}
use headless_mcp_server.Json.{Value}
use headless_mcp_server.Core.{McpBackend, backend_error, connection}

-- Every call is refused with a connection error that says `message`, and has no effect at all.
pub record IsUnconnected {W : Type 0} (b : McpBackend W) (message : String) (w : W) : Type 0 where
  pub lists : b.list_tools w ≡ (err (backend_error connection message), w)
  pub calls :
      (name : String) (arguments : Option Value) (secs : ℕ)
      → b.call_tool name arguments secs w ≡ (err (backend_error connection message), w)
  pub requests :
      (method : String) (params : Option Value) (secs : ℕ)
      → b.request method params secs w ≡ (err (backend_error connection message), w)
  pub checks : b.health_check w ≡ (err (backend_error connection message), w)
