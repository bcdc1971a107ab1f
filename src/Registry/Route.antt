-- ===== src/Registry/Route.antt =====
-- crates/registry/src/lib.rs: routing a call to its backend, and the other requests.
use headless_mcp_server.Prelude.{
  ℕ, String, Option, none, some, [], ◌∷◌, ok, ok_or, concat, is_empty, if◌then◌else◌,
}
use headless_mcp_server.Exec.{lift, ◌>>=◌}
use headless_mcp_server.Dict.{get, insert}
use headless_mcp_server.Json.{Value, string, Map, from_map}
use headless_mcp_server.Core.{
  BackendError, backend_error, internal, McpBackend, ConnectionMode, eager, lazy, per_call,
}
use headless_mcp_server.Registry.Policy.{apply_arg_policy}
use headless_mcp_server.Registry.State.{Task, call, is_healthy}
use headless_mcp_server.Registry.Connect.{connect_backend}

abbrev pub no_such_tool : String → BackendError
no_such_tool name = backend_error internal (concat ("no such tool: " ∷ name ∷ []))

abbrev no_longer_registered : String → String → BackendError
no_longer_registered id name =
    backend_error internal
      (concat ("backend '" ∷ id ∷ "' for tool '" ∷ name ∷ "' is no longer registered" ∷ []))

abbrev or_empty_object : Option Value → Value
or_empty_object none = from_map []
or_empty_object (some v) = v

-- The params of a call with extra fields.
abbrev pub merged : String → Option Value → Map → Value
merged downstream_name args extra =
    from_map
      (insert "arguments" (or_empty_object args) (insert "name" (string downstream_name) extra))

module _ {W : Type 0} where
  abbrev pub ensure_connected : ConnectionMode → String → Task W (Unit {0})
  ensure_connected eager id s = (ok tt, s)
  ensure_connected per_call id s = (ok tt, s)
  ensure_connected lazy id s = if is_healthy id s then (ok tt, s) else connect_backend id s

  -- The closure `call` of `route_call_with`.
  abbrev pub invoke : McpBackend W → String → Option Value → Map → ℕ → Task W Value
  invoke backend downstream_name args extra timeout =
      if is_empty extra
      then call (backend.call_tool downstream_name args timeout)
      else call (backend.request "tools/call" (some (merged downstream_name args extra)) timeout)

  abbrev pub run_call : ConnectionMode → McpBackend W → Task W Value → Task W Value
  run_call eager backend m = m
  run_call lazy backend m = m
  run_call per_call backend m = do
    _ ← call backend.connect
    -- The result of the call is returned only after the disconnect succeeded.
    λ s. let (result, s') = m s in (call backend.disconnect >>= λ _. lift result) s'

  unfoldable pub route_call_with : String → Option Value → Map → ℕ → Task W Value
  unfolding get apply_arg_policy is_healthy connect_backend insert
  route_call_with exposed_name args extra timeout = do
    routed ← λ s. (ok_or (no_such_tool exposed_name) (get exposed_name s.tool_index), s)
    handle ← λ s. (
      ok_or (no_longer_registered routed.backend_id exposed_name)
          (get routed.backend_id s.backends),
      s,
    )
    args' ← lift (apply_arg_policy handle.def args)
    _ ← ensure_connected handle.def.connection_mode routed.backend_id
    run_call handle.def.connection_mode handle.backend
        (invoke handle.backend routed.downstream_name args' extra timeout)

  unfoldable pub route_call : String → Option Value → ℕ → Task W Value
  unfolding route_call_with
  route_call exposed_name args timeout = route_call_with exposed_name args [] timeout

  unfoldable pub backend_request : String → String → Option Value → ℕ → Task W Value
  unfolding get
  backend_request id method params timeout = do
    handle ← λ s. (
      ok_or (backend_error internal (concat ("unknown backend '" ∷ id ∷ "'" ∷ [])))
          (get id s.backends),
      s,
    )
    call (handle.backend.request method params timeout)
