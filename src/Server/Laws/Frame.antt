-- ===== src/Server/Laws/Frame.antt =====
-- crates/mcp-server/src/session.rs: what a request leaves as it was.
use headless_mcp_server.Prelude.{
  ℕ, String, refl, not, ◌&&◌, Option, none, some, Result, ok, err, Bool-cases, Result-cases, inl,
  inr,
}
use headless_mcp_server.Json.{Value, Map}
use headless_mcp_server.Core.{BackendError}
use headless_mcp_server.Registry.State.{has_tool, is_healthy, backend_of_tool}
use headless_mcp_server.Registry.Connect.{reconnect_backend}
use headless_mcp_server.Registry.Route.{route_call_with}
use headless_mcp_server.Registry.Invariant.Reachable.{goes_on, reconnects, routes_call}
use headless_mcp_server.Server.Protocol.{RequestCtx}
use headless_mcp_server.Server.State.{
  McpSession, ToolCallParams, Codec, use_registry, notify_tools_list_changed, require_initialized,
}
use headless_mcp_server.Server.Tools.{
  Dispatched, handle_tools_list, bring_back, tell_reconnected, answer, call_tool_named,
  handle_tools_call, read_params,
}
use headless_mcp_server.Server.Dispatch.{handle_initialize, by_method}
use headless_mcp_server.Server.Laws.Methods.{
  Handles, discovers, initializes, lists_tools, calls_tool, lists_resources, reads_resource,
  lists_events, forwards, needs_stream, is_unknown, by_method-Handles,
}
use headless_mcp_server.Server.Laws.Follows.{
  Follows, stay, then_follow, Tracks, bind-Tracks, gate-Tracks,
}
use headless_mcp_server.Server.Laws.Forwarding.{
  handle_resources_list-Tracks, handle_resources_read-Tracks, handle_events_list-Tracks,
  forward_event_request-Tracks,
}

module _ {W : Type 0} where
  handle_tools_list-Tracks : (ctx : RequestCtx) → Tracks (handle_tools_list {W = W} ctx)
  unfolding handle_tools_list
  handle_tools_list-Tracks ctx =
      bind-Tracks (require_initialized ctx) _ (gate-Tracks ctx) λ _. record { at = λ s. stay s }

  route-Follows :
      (name : String) (args : Option Value) (extra : Map) (timeout : ℕ) (s : McpSession W)
      → Follows s (use_registry (route_call_with name args extra timeout) s).1
  route-Follows name args extra timeout s = record {
    reach = λ r. goes_on _ _ r (routes_call s.hub name args extra timeout);
    audit_same = refl;
    stays_open = λ o. o;
  }

  tell_reconnected-Follows :
      (s : McpSession W) (r : Result (Unit {0}) BackendError × McpSession W)
      → Follows s r.1
      → Follows s (tell_reconnected r)
  unfolding notify_tools_list_changed
  tell_reconnected-Follows s (ok u, t) f = record {
    reach = f.reach;
    audit_same = f.audit_same;
    stays_open = f.stays_open;
  }
  tell_reconnected-Follows s (err e, t) f = f

  answer-Follows :
      (to_string_pretty : Value → String) (backend : Option String) (name : String)
      (s : McpSession W) (r : Result Value BackendError × McpSession W)
      → Follows s r.1
      → Follows s (answer to_string_pretty backend name r).1
  answer-Follows to_string_pretty backend name s (ok v, t) f = f
  answer-Follows to_string_pretty backend name s (err e, t) f = f

  bring_back-Follows :
      (backend : Option String) (name : String) (s : McpSession W)
      → Follows s (bring_back backend name s)
  unfolding bring_back
  bring_back-Follows none name s = stay s
  bring_back-Follows (some id) name s =
      elim (Bool-cases (not (has_tool name s.hub) && not (is_healthy id s.hub))) [
        | inr e ↦ rw e (stay s)
        | inl e ↦ rw e (
            tell_reconnected-Follows s (use_registry (reconnect_backend id) s) (record {
              reach = λ r. goes_on _ _ r (reconnects s.hub id);
              audit_same = refl;
              stays_open = λ o. o;
            }))
      ]

  call_tool_named-Follows :
      (to_string_pretty : Value → String) (ctx : RequestCtx) (params : ToolCallParams)
      (s : McpSession W)
      → Follows s (call_tool_named to_string_pretty ctx params s).1
  unfolding call_tool_named
  call_tool_named-Follows to_string_pretty ctx params s =
      let s' = bring_back (backend_of_tool params.name s.hub) params.name s in
      answer-Follows to_string_pretty (backend_of_tool params.name s.hub) params.name s _ (
        then_follow s s' _ (bring_back-Follows (backend_of_tool params.name s.hub) params.name s)
          (route-Follows params.name params.arguments _ _ s'))

  handle_tools_call-Follows :
      (codec : Codec) (params : Option Value) (ctx : RequestCtx) (s : McpSession W)
      → Follows s (handle_tools_call codec params ctx s).1
  unfolding handle_tools_call
  handle_tools_call-Follows codec params ctx s = elim (Result-cases (require_initialized ctx s).0) [
    | inr (x, e) ↦ rw (e, handle_tools_call) (stay s)
    | inl (u, e) ↦
        rw (e, handle_tools_call)
          (elim (Result-cases (read_params codec.from_value params)) [
            | inr (x, e') ↦ rw e' (stay s)
            | inl (p, e') ↦ rw e' (call_tool_named-Follows codec.to_string_pretty ctx p s)
          ])
  ]

  -- Whatever the method, the session moves only so.
  handler-Follows :
      (codec : Codec) (method : String) (params : Option Value) (ctx : RequestCtx)
      (f : McpSession W → Dispatched × McpSession W)
      → Handles codec method params ctx f
      → (s : McpSession W) → Follows s (f s).1
  unfolding handle_initialize
  handler-Follows codec method params ctx _ (discovers e) s = stay s
  handler-Follows codec method params ctx _ (initializes e l) s = record {
    reach = λ r. r;
    audit_same = refl;
    stays_open = λ o. refl;
  }
  handler-Follows codec method params ctx _ (lists_tools e) s = (handle_tools_list-Tracks ctx).at s
  handler-Follows codec method params ctx _ (calls_tool e) s =
      handle_tools_call-Follows codec params ctx s
  handler-Follows codec method params ctx _ (lists_resources e) s =
      (handle_resources_list-Tracks ctx).at s
  handler-Follows codec method params ctx _ (reads_resource e) s =
      (handle_resources_read-Tracks params ctx).at s
  handler-Follows codec method params ctx _ (lists_events e) s =
      (handle_events_list-Tracks ctx).at s
  handler-Follows codec method params ctx _ (forwards other) s =
      (forward_event_request-Tracks method params ctx).at s
  handler-Follows codec method params ctx _ (needs_stream m e) s = stay s
  handler-Follows codec method params ctx _ (is_unknown m) s = stay s

  pub by_method-Follows :
      (codec : Codec) (method : String) (params : Option Value) (ctx : RequestCtx)
      (s : McpSession W)
      → Follows s (by_method codec method params ctx s).1
  by_method-Follows codec method params ctx s =
      handler-Follows codec method params ctx _ (by_method-Handles codec method params ctx) s
