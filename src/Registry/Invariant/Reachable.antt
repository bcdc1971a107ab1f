-- ===== src/Registry/Invariant/Reachable.antt =====
-- crates/registry/src/lib.rs: the states that a registry can reach.
use headless_mcp_server.Prelude.{ℕ, String, Option}
use headless_mcp_server.Json.{Value, Map}
use headless_mcp_server.Core.{BackendDef, McpBackend}
use headless_mcp_server.Registry.State.{Hub, new}
use headless_mcp_server.Registry.Connect.{
  register, unregister, connect_all, refresh_tools, reconnect_backend,
}
use headless_mcp_server.Registry.Health.{run_health_checks}
use headless_mcp_server.Registry.Route.{route_call_with, backend_request}
use headless_mcp_server.Registry.Invariant.{IsWellFormed}
use headless_mcp_server.Registry.Invariant.Writes.{new-IsWellFormed}
use headless_mcp_server.Registry.Invariant.Connecting.{
  world-keeps, register-keeps, unregister-keeps, connect_all-keeps, refresh_tools-keeps,
  reconnect_backend-keeps, run_health_checks-keeps,
}
use headless_mcp_server.Registry.Invariant.Calls.{route_call_with-keeps, backend_request-keeps}

-- One public operation of the registry, run to its end, or something that happens in the world.
pub data Step {W : Type 0} : Hub W → Hub W → Type 0 where
  registers :
      (s : Hub W) (def : BackendDef) (backend : McpBackend W) → Step s (register def backend s).1
  unregisters : (s : Hub W) (id : String) → Step s (unregister id s).1
  connects_all : (s : Hub W) → Step s (connect_all s).1
  reconnects : (s : Hub W) (id : String) → Step s (reconnect_backend id s).1
  refreshes : (s : Hub W) → Step s (refresh_tools s).1
  checks_health : (s : Hub W) (sleep : ℕ → W → W) → Step s (run_health_checks sleep s)
  routes_call :
      (s : Hub W) (name : String) (args : Option Value) (extra : Map) (timeout : ℕ)
      → Step s (route_call_with name args extra timeout s).1
  requests :
      (s : Hub W) (id method : String) (params : Option Value) (timeout : ℕ)
      → Step s (backend_request id method params timeout s).1
  world_moves : (s : Hub W) (w : W) → Step s (record s { world = w })

-- The states that come after `new` by any number of steps.
pub data Reach {W : Type 0} : Hub W → Type 0 where
  starts : (w : W) → Reach (new w)
  goes_on : (s t : Hub W) → Reach s → Step s t → Reach t

module _ {W : Type 0} where
  Step-IsWellFormed : (s t : Hub W) → Step s t → IsWellFormed s → IsWellFormed t
  Step-IsWellFormed _ _ (registers s def backend) wf = register-keeps def backend s wf
  Step-IsWellFormed _ _ (unregisters s id) wf = unregister-keeps id s wf
  Step-IsWellFormed _ _ (connects_all s) wf = connect_all-keeps s wf
  Step-IsWellFormed _ _ (reconnects s id) wf = reconnect_backend-keeps id s wf
  Step-IsWellFormed _ _ (refreshes s) wf = refresh_tools-keeps s wf
  Step-IsWellFormed _ _ (checks_health s sleep) wf = run_health_checks-keeps sleep s wf
  Step-IsWellFormed _ _ (routes_call s name args extra timeout) wf =
      route_call_with-keeps name args extra timeout s wf
  Step-IsWellFormed _ _ (requests s id method params timeout) wf =
      backend_request-keeps id method params timeout s wf
  Step-IsWellFormed _ _ (world_moves s w) wf = world-keeps s w wf

-- Every state that the registry reaches from `new`, whatever backends are registered and whatever
-- their servers answer, is well formed: each map has distinct keys, each backend stands under its
-- own id, and each tool of the index belongs to a registered backend, stands under the name that
-- the backend's namespace gives it, passes the backend's allow and deny lists, and shows none of
-- the backend's pinned or denied arguments in its schema.
pub Reach-IsWellFormed : {W : Type 0} (s : Hub W) → Reach s → IsWellFormed s
Reach-IsWellFormed _ (starts w) = new-IsWellFormed w
Reach-IsWellFormed _ (goes_on t s r step) = Step-IsWellFormed t s step (Reach-IsWellFormed t r)
