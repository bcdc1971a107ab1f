-- ===== src/Wire/JsonRpc.antt =====
-- crates/mcp-wire/src/jsonrpc.rs: the four message shapes, their errors and their JSON.
pub mod Nesting
pub mod Decode
pub mod Tests
use headless_mcp_server.Prelude.{ℕ, String, Option, none, some, List, [], ◌∷◌, ◌++◌}
use headless_mcp_server.Json.{ℤ, pos, negsuc, Value, null, string, number, int, Map, from_map}

pub data JsonRpcId : Type 0 where
  number_id : ℤ → JsonRpcId
  string_id : String → JsonRpcId

pub record JsonRpcError : Type 0 where
  pub code : ℤ
  pub message : String
  pub data_value : Option Value

-- -32700, -32600, -32601, -32602 and -32603.
abbrev pub parse_error_code : ℤ
parse_error_code = negsuc 32699

abbrev pub invalid_request_code : ℤ
invalid_request_code = negsuc 32599

abbrev pub method_not_found_code : ℤ
method_not_found_code = negsuc 32600

abbrev pub invalid_params_code : ℤ
invalid_params_code = negsuc 32601

abbrev pub internal_error_code : ℤ
internal_error_code = negsuc 32602

abbrev pub new_error : ℤ → String → JsonRpcError
new_error code message = record { code = code; message = message; data_value = none }

abbrev pub parse_error : String → JsonRpcError
parse_error = new_error parse_error_code

abbrev pub invalid_request : String → JsonRpcError
invalid_request = new_error invalid_request_code

abbrev pub method_not_found : String → JsonRpcError
method_not_found = new_error method_not_found_code

abbrev pub invalid_params : String → JsonRpcError
invalid_params = new_error invalid_params_code

abbrev pub internal_error : String → JsonRpcError
internal_error = new_error internal_error_code

abbrev pub with_data : JsonRpcError → Value → JsonRpcError
with_data e v = record e { data_value = some v }

abbrev pub jsonrpc_version : String
jsonrpc_version = "2.0"

pub record JsonRpcRequest : Type 0 where
  pub jsonrpc : String
  pub id : JsonRpcId
  pub method : String
  pub params : Option Value

pub record JsonRpcNotification : Type 0 where
  pub jsonrpc : String
  pub method : String
  pub params : Option Value

pub record JsonRpcSuccessResponse : Type 0 where
  pub jsonrpc : String
  pub id : JsonRpcId
  pub result : Value

pub record JsonRpcErrorResponse : Type 0 where
  pub jsonrpc : String
  pub id : Option JsonRpcId
  pub error : JsonRpcError

pub data JsonRpcMessage : Type 0 where
  request : JsonRpcRequest → JsonRpcMessage
  notification : JsonRpcNotification → JsonRpcMessage
  success_response : JsonRpcSuccessResponse → JsonRpcMessage
  error_response : JsonRpcErrorResponse → JsonRpcMessage

abbrev pub new_notification : String → Option Value → JsonRpcNotification
new_notification method params = record {
  jsonrpc = jsonrpc_version;
  method = method;
  params = params;
}

abbrev pub new_success : JsonRpcId → Value → JsonRpcSuccessResponse
new_success id result = record { jsonrpc = jsonrpc_version; id = id; result = result }

abbrev pub new_error_response : Option JsonRpcId → JsonRpcError → JsonRpcErrorResponse
new_error_response id error = record { jsonrpc = jsonrpc_version; id = id; error = error }

-- The derived serializers. An `untagged` id is the bare number or string, and a field under
-- `skip_serializing_if = "Option::is_none"` is left out.
abbrev pub id_to_value : JsonRpcId → Value
id_to_value (number_id n) = number (int n)
id_to_value (string_id s) = string s

abbrev pub optional_id_to_value : Option JsonRpcId → Value
optional_id_to_value none = null
optional_id_to_value (some id) = id_to_value id

abbrev pub optional_field : String → Option Value → Map
optional_field k none = []
optional_field k (some v) = (k, v) ∷ []

abbrev pub error_to_value : JsonRpcError → Value
error_to_value e = from_map (
    ("code", number (int e.code))
    ∷ ("message", string e.message)
    ∷ optional_field "data" e.data_value)

unfoldable pub to_value : JsonRpcMessage → Value
to_value (request r) = from_map (
    ("jsonrpc", string r.jsonrpc)
    ∷ ("id", id_to_value r.id)
    ∷ ("method", string r.method)
    ∷ optional_field "params" r.params)
to_value (notification n) =
    from_map (
      ("jsonrpc", string n.jsonrpc)
      ∷ ("method", string n.method)
      ∷ optional_field "params" n.params)
to_value (success_response r) =
    from_map (("jsonrpc", string r.jsonrpc) ∷ ("id", id_to_value r.id) ∷ ("result", r.result) ∷ [])
to_value (error_response r) = from_map (
    ("jsonrpc", string r.jsonrpc)
    ∷ ("id", optional_id_to_value r.id)
    ∷ ("error", error_to_value r.error)
    ∷ [])
