-- ===== src/Registry/Laws/Listed.antt =====
-- crates/registry/src/lib.rs: the listed tools can be called.
use headless_mcp_server.Prelude.{ℕ, String, ◌≡◌, Option, some, ok, err}
use headless_mcp_server.Dict.{get}
use headless_mcp_server.Json.{Value, Map}
use headless_mcp_server.Core.{BackendError}
use headless_mcp_server.Registry.Policy.{apply_arg_policy}
use headless_mcp_server.Registry.State.{RoutedTool, BackendHandle, Hub}
use headless_mcp_server.Registry.Route.{route_call_with, invoke, run_call}

module _ {W : Type 0} where
  -- A call of a name goes to the tool that the index has under the name, and to the backend that is
  -- registered under the tool's backend id. With arguments that the backend's policy refuses it has
  -- that error and nothing happens; otherwise it is the call, in the backend's own connection mode,
  -- of the tool's downstream name with the arguments that the policy gives. A lazy backend is not
  -- connected again.
  pub record IsServed (s : Hub W) (name : String) : Type 0 where
    pub tool : RoutedTool
    pub indexed : get name s.tool_index ≡ some tool
    pub handle : BackendHandle W
    pub registered : get tool.backend_id s.backends ≡ some handle
    pub refuses :
        (args : Option Value) (extra : Map) (timeout : ℕ) (e : BackendError)
        → apply_arg_policy handle.def args ≡ err e
        → route_call_with name args extra timeout s ≡ (err e, s)
    pub calls :
        (args sent : Option Value) (extra : Map) (timeout : ℕ)
        → apply_arg_policy handle.def args ≡ ok sent
        → route_call_with name args extra timeout s
          ≡ run_call handle.def.connection_mode handle.backend
              (invoke handle.backend tool.downstream_name sent extra timeout)
              s
