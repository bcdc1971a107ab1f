-- ===== src/HttpBackend/Interface/Unconnected.antt =====
-- crates/backends/backend-http/src/lib.rs: calls before `connect` and after `disconnect`.
use headless_mcp_server.Prelude.{◌≡◌, refl, false, [], ◌∷◌, concat}
use headless_mcp_server.Core.Unconnected.{IsUnconnected}
use headless_mcp_server.HttpBackend.State.{HttpState, Setup}
use headless_mcp_server.HttpBackend.Interface.{
  check_connected, list_http_tools, call_http_tool, request_http, check_http, http_backend,
}

-- While an HTTP backend is not connected, each of its calls is refused with a connection error that
-- names it, and nothing changes: no request is sent and no token is asked for.
pub http_backend-IsUnconnected :
    {W : Type 0} (setup : Setup W) (s : HttpState W)
    → s.connected ≡ false
    → IsUnconnected
        (http_backend setup)
        (concat ("backend '" ∷ setup.definition.id ∷ "' not connected" ∷ []))
        s
unfolding check_connected list_http_tools call_http_tool request_http check_http
http_backend-IsUnconnected setup s off = record {
  lists = rw off refl;
  calls = λ name arguments secs. rw off refl;
  requests = λ method params secs. rw off refl;
  checks = rw off refl;
}
