-- ===== src/Server/Laws/Tests.antt =====
-- crates/mcp-server: tests, and the theorems at concrete inputs.
use headless_mcp_server.Prelude.{
  ℕ, String, ◌≡◌, ◌⊎◌, refl, Option, none, some, [], ◌∷◌, ◌++◌, Result, ok, err, true, false, Memᴰ,
  head, tail, strip_prefix, concat, ◌≢◌, ap, sym, ◌∙◌,
}
use headless_mcp_server.Dict.{get, contains_key, insert}
use headless_mcp_server.Json.{
  int, pos, Value, string, Fields, fields, from_map, object, props, from_list, number, bool,
  get_field,
}
use headless_mcp_server.Wire.JsonRpc.{
  number_id, JsonRpcError, JsonRpcRequest, success_response, new_success, jsonrpc_version,
  invalid_request_code, method_not_found_code,
}
use headless_mcp_server.Registry.State.{Hub}
use headless_mcp_server.Registry.State as Registry
use headless_mcp_server.Server.Protocol.{
  request_protocol_version, meta_protocol_version, unsupported,
}
use headless_mcp_server.Server.State.{AuditOutcome, McpSession, ToolCallParams, Codec, new}
use headless_mcp_server.Server.Dispatch.{handle_request}
use headless_mcp_server.Server.Laws.Replies.{IsReply, handle_request-IsReply}
use headless_mcp_server.Server.Laws.Gate.{IsRefused, unsupported-IsRefused, legacy-IsRefused}
use headless_mcp_server.Core.{BackendDef, McpBackend}
use headless_mcp_server.Dict.{update}
use headless_mcp_server.Registry.Tests.{shop, counting}
use headless_mcp_server.Registry.Connect.{register, connect_all}
use headless_mcp_server.Registry.Listing.{backends_with}
use headless_mcp_server.Server.Tools.{tool_result, call_outcome, tool_failed}
use headless_mcp_server.Server.Events.{event_owner, out_of_namespace, exposed_event_name}
use headless_mcp_server.Server.Laws.Owners.{
  IsOnlyOf, out_of_namespace-in_namespace, event_owner-exposed_event_name, IsOnlyOf,
}
use headless_mcp_server.Server.Laws.Marks.{IsMarked, handle_request-IsMarked}

abbrev empty_hub : Hub ℕ
empty_hub = Registry.new 0

abbrev fresh : McpSession ℕ
fresh = new empty_hub

abbrev no_params : Value → Result ToolCallParams String
no_params v = err "missing field `name`"

abbrev pretty : Value → String
pretty v = "{}"

abbrev codec : Codec
codec = record { from_value = no_params; to_string_pretty = pretty }

abbrev asks : String → Option Value → JsonRpcRequest
asks method params = record {
  jsonrpc = jsonrpc_version;
  id = number_id (pos 1);
  method = method;
  params = params;
}

abbrev declaring : String → Option Value
declaring version =
    some (from_map (("_meta", from_map ((meta_protocol_version, string version) ∷ [])) ∷ []))

handle_request-IsReply_example :
    (tool_name : Option String) × (outcome : AuditOutcome) × ((handle_request codec
        (asks "tools/list" none)
        fresh).1.audit
      ≡ fresh.audit
        ++ record { method = "tools/list"; tool_name = tool_name; outcome = outcome } ∷ [])
    × IsReply codec
        (asks "tools/list" none)
        fresh
        (handle_request codec (asks "tools/list" none) fresh).0
        outcome
handle_request-IsReply_example = handle_request-IsReply codec (asks "tools/list" none) fresh

old_version : request_protocol_version (declaring "1900-01-01") ≡ some "1900-01-01"
unfolding request_protocol_version get
old_version = refl

unsupported-IsRefused_example :
    IsRefused codec (asks "tools/list" (declaring "1900-01-01")) fresh (unsupported "1900-01-01")
unsupported-IsRefused_example =
    unsupported-IsRefused codec (asks "tools/list" (declaring "1900-01-01")) fresh "1900-01-01"
      old_version refl

no_version : request_protocol_version none ≡ none
unfolding request_protocol_version
no_version = refl

legacy-IsRefused_example :
    (e : JsonRpcError) × IsRefused codec (asks "tools/list" none) fresh e
    × ((e.code ≡ invalid_request_code) ⊎ (e.code ≡ method_not_found_code))
legacy-IsRefused_example =
    legacy-IsRefused codec (asks "tools/list" none) fresh no_version refl (λ h. cc) (λ h. cc)

new_version : request_protocol_version (declaring "2026-07-28") ≡ some "2026-07-28"
unfolding request_protocol_version get
new_version = refl

abbrev no_tools : Fields
no_tools = fields (
    ("tools", from_list [])
    ∷ ("resultType", string "complete")
    ∷ ("ttlMs", number (int (pos 60000)))
    ∷ ("cacheScope", string "private")
    ∷ [])

listed_nothing :
    (handle_request codec (asks "tools/list" (declaring "2026-07-28")) fresh).0
    ≡ success_response (new_success (number_id (pos 1)) (object no_tools))
unfolding handle_request get insert contains_key
listed_nothing = refl

handle_request-IsMarked_example : IsMarked "tools/list" (props no_tools)
handle_request-IsMarked_example =
    handle_request-IsMarked codec (asks "tools/list" (declaring "2026-07-28")) fresh "2026-07-28"
      no_tools new_version listed_nothing

-- A backend that has events and no tools.
abbrev with_events : McpBackend ℕ
with_events = record counting {
  connect = λ w. (
    ok (record {
      protocol_version = "2025-06-18";
      server_info = record { name = "shop"; version = "1" };
      capabilities = record {
        tools = none;
        resources = none;
        prompts = none;
        events = some (from_map []);
      };
    }),
    w,
  );
  list_tools = λ w. (ok [], w);
}

-- A backend without a namespace that comes before the shop.
abbrev bare : BackendDef
bare = record shop { id = "bare"; namespace = none }

abbrev two_backends_hub : Hub ℕ
two_backends_hub =
    (connect_all (register bare with_events (register shop with_events empty_hub).1).1).1

with_events_test : backends_with "events" two_backends_hub ≡ "bare" ∷ "shop" ∷ []
unfolding backends_with connect_all register get update contains_key
with_events_test = refl

-- The shop's event goes to the backend without a namespace, which never had it.
misrouted_test :
    event_owner two_backends_hub (exposed_event_name two_backends_hub "shop" "sold")
    ≡ some ("bare", "shop.sold")
unfolding event_owner exposed_event_name connect_all register get update contains_key
misrouted_test = refl

bare-Memᴰ : Memᴰ "bare" (backends_with "events" two_backends_hub)
bare-Memᴰ = rw with_events_test (head refl)

-- The shop, which puts its namespace before a name, exposes nothing as `sold`.
not_of_shop : (original : String) → concat ("shop" ∷ "." ∷ original ∷ []) ≢ "sold"
unfolding strip_prefix
not_of_shop original h =
    let never : out_of_namespace (some "shop") "sold" ≡ some original =
      ap (out_of_namespace (some "shop")) (sym h)
      ∙ out_of_namespace-in_namespace (some "shop") original in
    cc

only_bare : IsOnlyOf two_backends_hub "bare" "sold"
unfolding exposed_event_name connect_all register get update contains_key
only_bare j original m e = elim (rw with_events_test at m) [
  | head same ↦ same
  | tail (head same) ↦ absurd (not_of_shop original (rw same at e))
  | tail (tail further) ↦ elim further [ ]
]

event_owner-exposed_event_name_example :
    event_owner two_backends_hub (exposed_event_name two_backends_hub "bare" "sold")
    ≡ some ("bare", "sold")
unfolding exposed_event_name connect_all register get update contains_key
event_owner-exposed_event_name_example =
    event_owner-exposed_event_name two_backends_hub "bare" "sold" bare-Memᴰ only_bare

abbrev failure : Value
failure = from_map (("isError", bool true) ∷ [])

-- An answer that says it failed, without content: the client is told otherwise.
tool_result_test : get_field "isError" (tool_result pretty failure) ≡ some (bool false)
unfolding tool_result get
tool_result_test = refl

call_outcome_test : call_outcome failure ≡ tool_failed
unfolding call_outcome get
call_outcome_test = refl
