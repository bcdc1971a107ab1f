-- ===== src/Server/Laws/Gate.antt =====
-- crates/mcp-server/src/session.rs, protocol.rs: what a session refuses before it does anything.
use headless_mcp_server.Prelude.{
  String, ◌≡◌, ◌≢◌, ◌⊎◌, refl, false, Option, none, some, ok, err, contains, inl, inr,
}
use headless_mcp_server.Json.{Value}
use headless_mcp_server.Wire.JsonRpc.{
  JsonRpcError, invalid_request_code, method_not_found_code, JsonRpcRequest, error_response,
  new_error_response,
}
use headless_mcp_server.Server.Protocol.{
  RequestCtx, from_params, is_modern, check_version, request_protocol_version, unsupported,
  modern_protocol_versions,
}
use headless_mcp_server.Server.State.{
  failed, McpSession, Codec, require_initialized, not_initialized,
}
use headless_mcp_server.Server.Tools.{Dispatched, simple, handle_tools_list, handle_tools_call}
use headless_mcp_server.Server.Resources.{handle_resources_list, handle_resources_read}
use headless_mcp_server.Server.Events.{handle_events_list, forward_event_request}
use headless_mcp_server.Server.Dispatch.{by_method, dispatch_request, record_event, handle_request}
use headless_mcp_server.Server.Laws.Methods.{
  Handles, discovers, initializes, lists_tools, calls_tool, lists_resources, reads_resource,
  lists_events, forwards, needs_stream, is_unknown, by_method-Handles,
}

legacy_version :
    (params : Option Value)
    → request_protocol_version params ≡ none
    → check_version (from_params params) ≡ ok tt
unfolding check_version
legacy_version params p = rw p refl

module _ {W : Type 0} where
  -- A request that is answered with an error and changes nothing but the audit log.
  pub record IsRefused (codec : Codec) (r : JsonRpcRequest) (s : McpSession W) (e : JsonRpcError)
      : Type 0 where
    pub reply : (handle_request codec r s).0 ≡ error_response (new_error_response (some r.id) e)
    pub left :
        (handle_request codec r s).1
        ≡ record_event (record { method = r.method; tool_name = none; outcome = failed e.code }) s

  refused :
      (codec : Codec) (r : JsonRpcRequest) (s : McpSession W) (e : JsonRpcError)
      → dispatch_request codec r s ≡ ((err e, none, failed e.code), s)
      → IsRefused codec r s e
  unfolding handle_request
  refused codec r s e h = record { reply = rw h refl; left = rw h refl }

  -- A request that declares a protocol version which the server does not know is refused with
  -- the error for that, and changes nothing but the audit log.
  pub unsupported-IsRefused :
      (codec : Codec) (r : JsonRpcRequest) (s : McpSession W) (version : String)
      → request_protocol_version r.params ≡ some version
      → contains modern_protocol_versions version ≡ false
      → IsRefused codec r s (unsupported version)
  unfolding check_version
  unsupported-IsRefused codec r s version p c =
      refused codec r s (unsupported version)
        (unfold dispatch_request in rw (p, c, dispatch_request) refl)

  -- A closed session, and a legacy request.
  record IsClosed (ctx : RequestCtx) (s : McpSession W) : Type 0 where
    legacy : is_modern ctx ≡ false
    shut : s.initialized ≡ false

  abbrev Turned : (McpSession W → Dispatched × McpSession W) → McpSession W → Type 0
  Turned f s =
      (e : JsonRpcError) × (f s ≡ (simple (err e), s))
      × ((e.code ≡ invalid_request_code) ⊎ (e.code ≡ method_not_found_code))

  gate-closed :
      (ctx : RequestCtx) (s : McpSession W)
      → IsClosed ctx s
      → (require_initialized ctx s).0 ≡ err not_initialized
  unfolding require_initialized
  gate-closed ctx s c = rw c.legacy (rw c.shut refl)

  handler-closed :
      (codec : Codec) (method : String) (params : Option Value) (ctx : RequestCtx)
      (f : McpSession W → Dispatched × McpSession W)
      → Handles codec method params ctx f
      → (s : McpSession W) → IsClosed ctx s
      → method ≢ "server/discover"
      → method ≢ "initialize"
      → Turned f s
  unfolding handle_tools_list handle_tools_call handle_resources_list handle_resources_read
      handle_events_list forward_event_request
  handler-closed codec method params ctx _ (discovers e) s c d i = absurd (d e)
  handler-closed codec method params ctx _ (initializes e l) s c d i = absurd (i e)
  handler-closed codec method params ctx _ (lists_tools e) s c d i =
      (not_initialized, rw (gate-closed ctx s c, handle_tools_list) refl, inl refl)
  handler-closed codec method params ctx _ (calls_tool e) s c d i =
      (not_initialized, rw (gate-closed ctx s c, handle_tools_call) refl, inl refl)
  handler-closed codec method params ctx _ (lists_resources e) s c d i =
      (not_initialized, rw (gate-closed ctx s c, handle_resources_list) refl, inl refl)
  handler-closed codec method params ctx _ (reads_resource e) s c d i =
      (not_initialized, rw (gate-closed ctx s c, handle_resources_read) refl, inl refl)
  handler-closed codec method params ctx _ (lists_events e) s c d i =
      (not_initialized, rw (gate-closed ctx s c, handle_events_list) refl, inl refl)
  handler-closed codec method params ctx _ (forwards other) s c d i =
      (not_initialized, rw (gate-closed ctx s c, forward_event_request) refl, inl refl)
  handler-closed codec method params ctx _ (needs_stream m e) s c d i = (_, refl, inl refl)
  handler-closed codec method params ctx _ (is_unknown m) s c d i = (_, refl, inr refl)

  dispatch-turned :
      (codec : Codec) (r : JsonRpcRequest) (s : McpSession W) (e : JsonRpcError)
      → check_version (from_params r.params) ≡ ok tt
      → by_method codec r.method r.params (from_params r.params) s ≡ (simple (err e), s)
      → dispatch_request codec r s ≡ ((err e, none, failed e.code), s)
  unfolding dispatch_request
  dispatch-turned codec r s e v h = rw (v, h, dispatch_request) refl

  -- Before `initialize`, a request that declares no protocol version and asks for neither
  -- `server/discover` nor `initialize` is refused as invalid or of an unknown method, and changes
  -- nothing but the audit log.
  pub legacy-IsRefused :
      (codec : Codec) (r : JsonRpcRequest) (s : McpSession W)
      → request_protocol_version r.params ≡ none
      → s.initialized ≡ false
      → r.method ≢ "server/discover"
      → r.method ≢ "initialize"
      → (e : JsonRpcError) × IsRefused codec r s e
        × ((e.code ≡ invalid_request_code) ⊎ (e.code ≡ method_not_found_code))
  legacy-IsRefused codec r s p i d n =
      let ctx = from_params r.params in
      let c : IsClosed ctx s = record { legacy = rw p refl; shut = i } in
      let (e, h, code) =
        handler-closed codec r.method r.params ctx _ (by_method-Handles codec r.method r.params ctx)
          s c d n in
      (e, refused codec r s e (dispatch-turned codec r s e (legacy_version r.params p) h), code)
