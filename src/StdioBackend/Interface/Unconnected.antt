-- ===== src/StdioBackend/Interface/Unconnected.antt =====
-- crates/backends/backend-stdio/src/lib.rs: calls before `connect` and after `disconnect`.
use headless_mcp_server.Prelude.{◌≡◌, refl, false, [], ◌∷◌, concat}
use headless_mcp_server.Core.Unconnected.{IsUnconnected}
use headless_mcp_server.StdioBackend.State.{StdioState, StdioSetup}
use headless_mcp_server.StdioBackend.Interface.{
  list_stdio_tools, call_stdio_tool, request_stdio, check_stdio, stdio_backend,
}

-- While a stdio backend is not connected, each of its calls is refused with a connection error that
-- names it, and nothing changes: nothing is written to the process and no call waits.
pub stdio_backend-IsUnconnected :
    {W : Type 0} (setup : StdioSetup W) (s : StdioState W)
    → s.connected ≡ false
    → IsUnconnected
        (stdio_backend setup)
        (concat ("backend " ∷ "'" ∷ setup.definition.id ∷ "'" ∷ " is not connected" ∷ []))
        s
unfolding list_stdio_tools call_stdio_tool request_stdio check_stdio
stdio_backend-IsUnconnected setup s off = record {
  lists = rw off refl;
  calls = λ name arguments secs. rw off refl;
  requests = λ method params secs. rw off refl;
  checks = rw off refl;
}
