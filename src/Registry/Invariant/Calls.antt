-- ===== src/Registry/Invariant/Calls.antt =====
-- crates/registry/src/lib.rs: a routed call keeps a registry well formed.
use headless_mcp_server.Prelude.{
  is_empty, ℕ, String, Option, some, inl, inr, Bool-cases, Option-cases, Result-cases,
}
use headless_mcp_server.Exec.{lift}
use headless_mcp_server.Exec.Keeps.{Keeps, bind-Keeps}
use headless_mcp_server.Dict.{get}
use headless_mcp_server.Json.{Value, Map}
use headless_mcp_server.Core.{McpBackend, BackendResult, ConnectionMode, eager, lazy, per_call}
use headless_mcp_server.Registry.State.{Hub, Task, call, is_healthy}
use headless_mcp_server.Registry.Route.{
  merged, route_call_with, backend_request, invoke, ensure_connected, run_call,
}
use headless_mcp_server.Registry.Policy.{apply_arg_policy}
use headless_mcp_server.Registry.Invariant.Indexing.{connect_backend-keeps}
use headless_mcp_server.Registry.Invariant.Connecting.{Good, call-keeps}

module _ {W : Type 0} where
  Keeps-call : {A : Type 0} (f : W → BackendResult A × W) → Keeps Good (call f)
  Keeps-call f = record { at = λ s wf. call-keeps f s wf }

  invoke-Keeps :
      (backend : McpBackend W) (name : String) (args : Option Value) (extra : Map) (timeout : ℕ)
      → Keeps Good (invoke backend name args extra timeout)
  invoke-Keeps backend name args extra timeout = elim (Bool-cases (is_empty extra)) [
    | inl e ↦ rw e (Keeps-call (backend.call_tool name args timeout))
    | inr e ↦
        rw e (Keeps-call (backend.request "tools/call" (some (merged name args extra)) timeout))
  ]

  ensure_connected-Keeps :
      (mode : ConnectionMode) (id : String) → Keeps Good (ensure_connected {W = W} mode id)
  ensure_connected-Keeps eager id = record { at = λ s wf. wf }
  ensure_connected-Keeps per_call id = record { at = λ s wf. wf }
  ensure_connected-Keeps lazy id = record {
    at = λ s wf. elim (Bool-cases (is_healthy id s)) [
      | inl e ↦ rw e wf
      | inr e ↦ rw e (connect_backend-keeps id s wf)
    ];
  }

  run_call-Keeps :
      (mode : ConnectionMode) (backend : McpBackend W) (m : Task W Value)
      → Keeps Good m
      → Keeps Good (run_call mode backend m)
  run_call-Keeps eager backend m k = k
  run_call-Keeps lazy backend m k = k
  run_call-Keeps per_call backend m k =
      bind-Keeps (call backend.connect) _ (Keeps-call backend.connect) λ _. record {
        at = λ s wf.
            (bind-Keeps (call backend.disconnect) (λ _. lift (m s).0)
                (Keeps-call backend.disconnect) (λ _. record { at = λ s' wf'. wf' })).at
              (m s).1 (k.at s wf);
      }

  pub route_call_with-keeps :
      (name : String) (args : Option Value) (extra : Map) (timeout : ℕ) (s : Hub W)
      → Good s
      → Good (route_call_with name args extra timeout s).1
  unfolding route_call_with
  route_call_with-keeps name args extra timeout s wf = elim (Option-cases (get name s.tool_index)) [
    | inl missing ↦ rw missing wf
    | inr (t, found) ↦ rw found (elim (Option-cases (get t.backend_id s.backends)) [
      | inl gone ↦ rw gone wf
      | inr (h, there) ↦ rw there (elim (Result-cases (apply_arg_policy h.def args)) [
        | inr (e, refused) ↦ rw refused wf
        | inl (args', allowed) ↦ rw allowed (
            (bind-Keeps (ensure_connected h.def.connection_mode t.backend_id) _
                (ensure_connected-Keeps h.def.connection_mode t.backend_id)
                (λ _.
                  run_call-Keeps h.def.connection_mode h.backend _
                    (invoke-Keeps h.backend t.downstream_name args' extra timeout))).at
              s wf)
      ])
    ])
  ]

  pub backend_request-keeps :
      (id method : String) (params : Option Value) (timeout : ℕ) (s : Hub W)
      → Good s
      → Good (backend_request id method params timeout s).1
  unfolding backend_request
  backend_request-keeps id method params timeout s wf = elim (Option-cases (get id s.backends)) [
    | inl missing ↦ rw missing wf
    | inr (h, found) ↦ rw found (call-keeps (h.backend.request method params timeout) s wf)
  ]
