-- ===== src/Server/Dispatch.antt =====
-- crates/mcp-server/src/session.rs: dispatching requests by method, and the audit of each.
use headless_mcp_server.Prelude.{
  String, true, false, ◌&&◌, ◌||◌, not, Option, none, some, [], ◌∷◌, ◌++◌, Result, ok, err, concat,
  is_empty, ◌==◌, if◌then◌else◌,
}
use headless_mcp_server.Exec.{raise}
use headless_mcp_server.Dict.{insert}
use headless_mcp_server.Json.{Value, bool, string, Map, from_map}
use headless_mcp_server.Wire.JsonRpc.{
  JsonRpcError, invalid_request, method_not_found, JsonRpcRequest, JsonRpcMessage, request,
  notification, success_response, error_response, new_success, new_error_response,
}
use headless_mcp_server.Registry.State.{Hub}
use headless_mcp_server.Registry.Listing.{backends_with}
use headless_mcp_server.Server.Protocol.{
  RequestCtx, from_params, is_modern, check_version, mark_complete, mark_cacheable,
  request_protocol_version, legacy_protocol_version, supported_versions, meta_server_info,
}
use headless_mcp_server.Server.State.{failed, AuditEvent, McpSession, Codec, Handler}
use headless_mcp_server.Server.Tools.{Dispatched, simple, handle_tools_list, handle_tools_call}
use headless_mcp_server.Server.Resources.{handle_resources_list, handle_resources_read}
use headless_mcp_server.Server.Events.{handle_events_list, forward_event_request}

-- `CARGO_PKG_VERSION`
abbrev pub package_version : String
package_version = "0.0.16"

abbrev server_info : Value
server_info = from_map (("name", string "headless-mcp") ∷ ("version", string package_version) ∷ [])

abbrev empty_object : Value
empty_object = from_map []

abbrev pub mark : RequestCtx → String → Result Value JsonRpcError → Result Value JsonRpcError
mark ctx method (err e) = err e
mark ctx method (ok value) =
    if is_modern ctx then ok (mark_cacheable method (mark_complete value)) else ok value

abbrev pub reply_to : JsonRpcRequest → Result Value JsonRpcError → JsonRpcMessage
reply_to r (ok value) = success_response (new_success r.id value)
reply_to r (err e) = error_response (new_error_response (some r.id) e)

module _ {W : Type 0} where
  unfoldable pub capabilities : Hub W → Value
  unfolding backends_with insert
  capabilities hub =
      let tools : Map = ("tools", from_map (("listChanged", bool true) ∷ [])) ∷ [] in
      let resources =
        if is_empty (backends_with "resources" hub)
        then tools
        else insert "resources"
            (from_map (("subscribe", bool false) ∷ ("listChanged", bool false) ∷ [])) tools in
      from_map (
        if is_empty (backends_with "events" hub)
        then resources
        else insert "events" empty_object resources)

  unfoldable pub handle_discover : Hub W → Value
  unfolding capabilities
  handle_discover hub = from_map (
      ("supportedVersions", supported_versions)
      ∷ ("capabilities", capabilities hub)
      ∷ ("_meta", from_map ((meta_server_info, server_info) ∷ []))
      ∷ [])

  unfoldable pub handle_initialize : Handler W Value
  unfolding capabilities
  handle_initialize s = (
    ok (
        from_map (
          ("protocolVersion", string legacy_protocol_version)
          ∷ ("serverInfo", server_info)
          ∷ ("capabilities", capabilities s.hub)
          ∷ [])),
    record s { initialized = true },
  )

  abbrev pub simply : Handler W Value → McpSession W → Dispatched × McpSession W
  simply m s = (simple (m s).0, (m s).1)

  -- The match on the method.
  unfoldable pub by_method :
      Codec → String → Option Value → RequestCtx → McpSession W → Dispatched × McpSession W
  unfolding handle_discover handle_initialize handle_tools_list handle_tools_call
      handle_resources_list handle_resources_read handle_events_list forward_event_request
  by_method codec method params ctx =
      if method == "server/discover"
      then simply (λ s. (ok (handle_discover s.hub), s))
      else if method == "initialize" && not (is_modern ctx)
      then simply handle_initialize
      else if method == "tools/list"
      then simply (handle_tools_list ctx)
      else if method == "tools/call"
      then handle_tools_call codec params ctx
      else if method == "resources/list"
      then simply (handle_resources_list ctx)
      else if method == "resources/read"
      then simply (handle_resources_read params ctx)
      else if method == "events/list"
      then simply (handle_events_list ctx)
      else if method == "events/subscribe" || method == "events/unsubscribe"
      then simply (forward_event_request method params ctx)
      else if method == "subscriptions/listen"
      then simply (raise (invalid_request "subscriptions/listen needs a streaming transport"))
      else simply (raise (method_not_found (concat ("unknown method: " ∷ method ∷ []))))

  unfoldable pub dispatch_request :
      Codec → JsonRpcRequest → McpSession W → Dispatched × McpSession W
  unfolding request_protocol_version check_version by_method mark_complete mark_cacheable
  dispatch_request codec r s =
      let ctx = from_params r.params in
      elim (check_version ctx) [
        | err e ↦ ((err e, none, failed e.code), s)
        | ok _ ↦
            let ((result, tool_name, outcome), s') = by_method codec r.method r.params ctx s in
            ((mark ctx r.method result, tool_name, outcome), s')
      ]

  abbrev pub record_event : AuditEvent → McpSession W → McpSession W
  record_event event s = record s { audit = s.audit ++ event ∷ [] }

  unfoldable pub handle_request :
      Codec → JsonRpcRequest → McpSession W → JsonRpcMessage × McpSession W
  unfolding dispatch_request
  handle_request codec r s =
      let ((result, tool_name, outcome), s') = dispatch_request codec r s in
      (
        reply_to r result,
        record_event (record { method = r.method; tool_name = tool_name; outcome = outcome }) s',
      )

  unfoldable pub handle :
      Codec → JsonRpcMessage → McpSession W → Option JsonRpcMessage × McpSession W
  unfolding handle_request
  handle codec (request r) s = let (reply, s') = handle_request codec r s in (some reply, s')
  handle codec (notification n) s = (none, s)
  handle codec (success_response r) s = (none, s)
  handle codec (error_response r) s = (none, s)
