-- ===== src/HttpBackend/Interface.antt =====
-- crates/backends/backend-http/src/lib.rs: `McpBackend` for `HttpBackend`.
pub mod Unconnected
use headless_mcp_server.Prelude.{
  String, Bool, true, false, Option, none, some, List, [], ◌∷◌, ok, err, ok_or, map_err, concat,
  if◌then◌else◌,
}
use headless_mcp_server.Dict.{Dict, insert}
use headless_mcp_server.Json.{Value, string, from_map, get_field, as_array}
use headless_mcp_server.Core.{
  BackendResult, backend_error, connection, protocol, internal, InitializeResult, ToolDescriptor,
  McpBackend,
}
use headless_mcp_server.Exec.{lift, modify, ◌>>=◌, ◌>>◌}
use headless_mcp_server.OAuth2.State.{Env, Browser}
use headless_mcp_server.OAuth2.Cache.{and_then, unwrap_or, adopt_persisted}
use headless_mcp_server.HttpBackend.Headers.{ParamHeaders, param_header_paths}
use headless_mcp_server.HttpBackend.State.{
  HttpState, Setup, Call, rebuild_client_with_token, on_manager,
}
use headless_mcp_server.HttpBackend.Sessions.{handshake, send_request}

-- `collect` of results: the first error, or all values.
abbrev and_more : {A : Type 0} → BackendResult A → BackendResult (List A) → BackendResult (List A)
and_more (ok a) (ok more) = ok (a ∷ more)
and_more (ok a) (err e) = err e
and_more (err e) more = err e

abbrev add_paths : String → ParamHeaders → Dict ParamHeaders → Dict ParamHeaders
add_paths name [] m = m
add_paths name (p ∷ paths) m = insert name (p ∷ paths) m

-- `collect` into the map: a later tool of the same name replaces an earlier one.
collect_headers : List ToolDescriptor → Dict ParamHeaders → Dict ParamHeaders
unfolding param_header_paths insert
collect_headers [] m = m
collect_headers (t ∷ tools) m =
    collect_headers tools (add_paths t.name (param_header_paths t.input_schema) m)

abbrev array_of : Option Value → Option (List Value)
array_of v = and_then v as_array

module _ {W : Type 0} (setup : Setup W) where
  unfoldable pub check_connected : Call W (Unit {0})
  check_connected s = (
    if s.connected
        then ok tt
        else err (
            backend_error connection
              (concat ("backend '" ∷ setup.definition.id ∷ "' not connected" ∷ []))),
    s,
  )

  adopt_token : Option String → HttpState W → HttpState W
  unfolding rebuild_client_with_token
  adopt_token none s = s
  adopt_token (some token) s = rebuild_client_with_token setup.libraries token s

  adopt : Option (Env W × Browser W) → HttpState W → HttpState W
  unfolding adopt_token adopt_persisted
  adopt none s = s
  adopt (some (env, browser)) s =
      let (token, s') = on_manager (adopt_persisted env setup.definition.id) s in
      adopt_token token s'

  abbrev connect_anew : Call W InitializeResult
  connect_anew s =
      (handshake setup >>= λ init.
      modify (λ s'. record s' { initialize_result = some init; connected = true })
      >> lift (ok init))
        (adopt setup.oauth2 s)

  unfoldable pub connect_http : Call W InitializeResult
  unfolding handshake adopt
  connect_http s =
      let anew = connect_anew s in
      if s.connected
      then (ok_or (backend_error internal "no cached init result") s.initialize_result, s)
      else anew

  abbrev descriptor : Value → BackendResult ToolDescriptor
  descriptor v =
      map_err (λ e. backend_error protocol (concat ("invalid tool descriptor: " ∷ e ∷ [])))
        (setup.libraries.tool_descriptor v)

  descriptors : List Value → BackendResult (List ToolDescriptor)
  descriptors [] = ok []
  descriptors (v ∷ vs) = and_more (descriptor v) (descriptors vs)

  unfoldable pub list_http_tools : Call W (List ToolDescriptor)
  unfolding check_connected send_request descriptors collect_headers
  list_http_tools = do
    check_connected
    result ← send_request setup "tools/list" none true
    listed ← lift (
        ok_or (backend_error protocol "no 'tools' array in response")
          (array_of (get_field "tools" result)))
    tools ← lift (descriptors listed)
    modify (λ s. record s { param_headers = collect_headers tools [] })
    lift (ok tools)

  abbrev call_params : String → Option Value → Value
  call_params name arguments =
      from_map (("name", string name) ∷ ("arguments", unwrap_or (from_map []) arguments) ∷ [])

  unfoldable pub call_http_tool : String → Option Value → Call W Value
  unfolding check_connected send_request
  call_http_tool name arguments = do
    check_connected
    send_request setup "tools/call" (some (call_params name arguments)) true

  unfoldable pub request_http : String → Option Value → Call W Value
  unfolding check_connected send_request
  request_http method params = do check_connected; send_request setup method params true

  unfoldable pub disconnect_http : Call W (Unit {0})
  disconnect_http s = (ok tt, record s { connected = false })

  unfoldable pub check_http : Call W (Unit {0})
  unfolding check_connected send_request
  check_http = do check_connected; _ ← send_request setup "tools/list" none true; lift (ok tt)

  unfoldable pub take_http_refresh : HttpState W → Bool × HttpState W
  take_http_refresh s = (s.tools_refresh, record s { tools_refresh = false })

  -- The backend as the registry knows it.
  abbrev pub http_backend : McpBackend (HttpState W)
  http_backend = record {
    backend_id = setup.definition.id;
    connect = connect_http;
    list_tools = list_http_tools;
    call_tool = λ name arguments timeout. call_http_tool name arguments;
    disconnect = disconnect_http;
    health_check = check_http;
    request = λ method params timeout. request_http method params;
    take_tools_refresh = take_http_refresh;
  }
