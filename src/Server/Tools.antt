-- ===== src/Server/Tools.antt =====
-- crates/mcp-server/src/session.rs: `tools/list` and `tools/call`.
use Prim.Native.String.{◌++◌ as str_append}
use headless_mcp_server.Prelude.{
  ℕ, String, Bool, true, false, ◌&&◌, ◌||◌, not, Option, none, some, List, [], ◌∷◌, map, Result, ok,
  err, concat, ◌==◌, if◌then◌else◌,
}
use headless_mcp_server.Exec.{◌>>=◌}
use headless_mcp_server.Dict.{get, insert}
use headless_mcp_server.Json.{Value, bool, string, array, Map, from_map, from_list, get_field}
use headless_mcp_server.Core.{
  BackendError, BackendErrorKind, connection, auth, timeout, protocol, internal, ToolDescriptor,
}
use headless_mcp_server.Wire.JsonRpc.{JsonRpcError, invalid_params, internal_error_code}
use headless_mcp_server.Registry.State.{
  is_healthy, has_tool, backend_of_tool, forwards_request_meta, unavailable_hint,
}
use headless_mcp_server.Registry.Connect.{reconnect_backend}
use headless_mcp_server.Registry.Route.{route_call_with}
use headless_mcp_server.Registry.Listing.{aggregated_tools}
use headless_mcp_server.Server.Protocol.{RequestCtx, is_modern, then_str}
use headless_mcp_server.Server.State.{
  AuditOutcome, fine, failed, from_result, McpSession, ToolCallParams, Codec, Handler, use_registry,
  notify_tools_list_changed, require_initialized,
}

abbrev pub default_call_timeout_secs : ℕ
default_call_timeout_secs = 30

abbrev descriptor_to_value : ToolDescriptor → Value
descriptor_to_value d = from_map (
    ("name", string d.name)
    ∷ ("description", string d.description)
    ∷ ("inputSchema", d.input_schema)
    ∷ [])

abbrev pub tools_value : List ToolDescriptor → Value
tools_value ds = from_map (("tools", from_list (map descriptor_to_value ds)) ∷ [])

abbrev is_array : Option Value → Bool
is_array (some (array vs)) = true
is_array _ = false

abbrev is_input_required : Option String → Bool
is_input_required none = false
is_input_required (some s) = s == "input_required"

abbrev text_content : String → Value
text_content text = from_list (from_map (("type", string "text") ∷ ("text", string text) ∷ []) ∷ [])

unfoldable pub tool_result : (Value → String) → Value → Value
unfolding get
tool_result to_string_pretty value =
    if is_array (get_field "content" value)
      || is_input_required (then_str (get_field "resultType" value))
    then value
    else from_map (
        ("content", text_content (to_string_pretty value))
        ∷ ("isError", bool false)
        ∷ ("structuredContent", value)
        ∷ [])

abbrev pub make_error_result : String → Value
make_error_result message =
    from_map (("content", text_content message) ∷ ("isError", bool true) ∷ [])

abbrev pub is_true : Option Value → Bool
is_true (some (bool b)) = b
is_true _ = false

abbrev pub tool_failed : AuditOutcome
tool_failed = failed internal_error_code

unfoldable pub call_outcome : Value → AuditOutcome
unfolding get
call_outcome value = if is_true (get_field "isError" value) then tool_failed else fine

abbrev is_unreachable : BackendErrorKind → Bool
is_unreachable connection = true
is_unreachable timeout = true
is_unreachable auth = false
is_unreachable protocol = false
is_unreachable internal = false

abbrev with_hint : String → Option String → String
with_hint message none = message
with_hint message (some hint) = concat (message ∷ "\n" ∷ hint ∷ [])

-- `for (key, value) in [..] { if let Some(value) = value { extra.insert(key, value) } }`
abbrev add_some : String → Option Value → Map → Map
add_some key none extra = extra
add_some key (some value) extra = insert key value extra

abbrev string_value : Option String → Option Value
string_value none = none
string_value (some s) = some (string s)

unfoldable pub forwarded : ToolCallParams → Map
unfolding insert
forwarded params =
    add_some "inputResponses" params.input_responses (
      add_some "requestState" (string_value params.request_state) (add_some "_meta" params.meta []))

abbrev pub Dispatched : Type 0
Dispatched = Result Value JsonRpcError × Option String × AuditOutcome

-- `self.simple(result)`
abbrev pub simple : Result Value JsonRpcError → Dispatched
simple result = (result, none, from_result result)

abbrev pub read_params :
    (Value → Result ToolCallParams String) → Option Value → Result ToolCallParams JsonRpcError
read_params from_value none = err (invalid_params "\"tools/call\" requires params")
read_params from_value (some v) = elim (from_value v) [
  | ok params ↦ ok params
  | err e ↦ err (invalid_params (str_append "invalid \"tools/call\" params: " e))
]

module _ {W : Type 0} where
  unfoldable pub handle_tools_list : RequestCtx → Handler W Value
  unfolding require_initialized aggregated_tools
  handle_tools_list ctx = do
    _ ← require_initialized ctx
    λ s. (ok (tools_value (aggregated_tools s.hub)), s)

  -- The match on the reconnect: only a success is told to the subscribers.
  abbrev pub tell_reconnected : Result (Unit {0}) BackendError × McpSession W → McpSession W
  tell_reconnected (ok u, s) = notify_tools_list_changed s
  tell_reconnected (err e, s) = s

  unfoldable pub bring_back : Option String → String → McpSession W → McpSession W
  unfolding notify_tools_list_changed has_tool is_healthy reconnect_backend
  bring_back none name s = s
  bring_back (some id) name s =
      if not (has_tool name s.hub) && not (is_healthy id s.hub)
      then tell_reconnected (use_registry (reconnect_backend id) s)
      else s

  abbrev forwards_to : Option String → McpSession W → Bool
  forwards_to none s = false
  forwards_to (some id) s = forwards_request_meta id s.hub

  abbrev hint_for : Option String → BackendErrorKind → McpSession W → Option String
  hint_for none kind s = none
  hint_for (some id) kind s = if is_unreachable kind then unavailable_hint id s.hub else none

  abbrev pub answer :
      (Value → String)
      → Option String
      → String
      → Result Value BackendError × McpSession W
      → Dispatched × McpSession W
  answer to_string_pretty backend name (ok value, s) =
      ((ok (tool_result to_string_pretty value), some name, call_outcome value), s)
  answer to_string_pretty backend name (err e, s) = (
    (
      ok (make_error_result (with_hint e.message (hint_for backend e.kind s))),
      some name,
      tool_failed,
    ),
    s,
  )

  -- `handle_tools_call` from the decoded parameters on.
  unfoldable pub call_tool_named :
      (Value → String) → RequestCtx → ToolCallParams → McpSession W → Dispatched × McpSession W
  unfolding backend_of_tool bring_back forwards_request_meta unavailable_hint forwarded tool_result
      call_outcome route_call_with
  call_tool_named to_string_pretty ctx params s =
      let backend = backend_of_tool params.name s.hub in
      let s' = bring_back backend params.name s in
      let extra = if is_modern ctx && forwards_to backend s' then forwarded params else [] in
      answer to_string_pretty backend params.name (
        use_registry (route_call_with params.name params.arguments extra default_call_timeout_secs)
          s')

  unfoldable pub handle_tools_call :
      Codec → Option Value → RequestCtx → McpSession W → Dispatched × McpSession W
  unfolding require_initialized call_tool_named
  handle_tools_call codec params ctx s = elim (require_initialized ctx s).0 [
    | err e ↦ ((err e, none, failed e.code), s)
    | ok _ ↦ elim (read_params codec.from_value params) [
      | err e ↦ ((err e, none, failed e.code), s)
      | ok p ↦ call_tool_named codec.to_string_pretty ctx p s
    ]
  ]
