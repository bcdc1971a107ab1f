-- ===== src/Wire/JsonRpc/Decode.antt =====
-- crates/mcp-wire/src/jsonrpc.rs: `decode_message`. serde_json's parser and its reader of error
-- objects are parameters.
pub mod Shapes
pub mod Errors
pub mod RoundTrip
use Prim.Native.String.{◌++◌ as str_append}
use headless_mcp_server.Prelude.{
  ℕ, String, Bool, true, false, ◌&&◌, Option, none, some, List, [], ◌∷◌, Result, ok, err, ok_or,
  map_err, ◌>>=◌, ◌==◌, if◌then◌else◌,
}
use headless_mcp_server.Dict.{get, contains_key}
use headless_mcp_server.Json.{
  Value, null, bool, number, string, array, object, Map, as_object, as_str, as_i64,
}
use headless_mcp_server.Wire.JsonRpc.{
  JsonRpcId, number_id, string_id, JsonRpcError, parse_error, invalid_request, jsonrpc_version,
  JsonRpcMessage, request, notification, success_response, error_response,
}
use headless_mcp_server.Wire.JsonRpc.Nesting.{exceeds_max_nesting}
use mathlib.Core.Option

-- What the decoder takes from serde_json: `from_slice`, and `from_value` at `JsonRpcError`. An
-- error is the text of the message that the library gives.
pub record Serde : Type 0 where
  pub from_slice : List ℕ → Result Value String
  pub error_from_value : Value → Result JsonRpcError String

abbrev pub max_json_nesting_depth : ℕ
max_json_nesting_depth = 128

pub parse_id : Value → Option JsonRpcId
parse_id (number n) = Option.map number_id (as_i64 n)
parse_id (string s) = some (string_id s)
parse_id _ = none

abbrev is_version : Value → Bool
is_version (string v) = v == jsonrpc_version
is_version _ = false

check_jsonrpc : Option Value → Result (Unit {0}) JsonRpcError
check_jsonrpc none = err (invalid_request "missing \"jsonrpc\" field")
check_jsonrpc (some v) =
    if is_version v then ok tt else err (invalid_request "\"jsonrpc\" must be the string \"2.0\"")

pub decode_request_or_notification : Map → Value → Result JsonRpcMessage JsonRpcError
unfolding parse_id
decode_request_or_notification obj method_value = do
  method ← ok_or (invalid_request "\"method\" must be a string") (as_str method_value)
  let params = get "params" obj
  elim (get "id" obj) [
    | none ↦
        ok (notification (record { jsonrpc = jsonrpc_version; method = method; params = params }))
    | some id_value ↦ do
      id ← ok_or (invalid_request "\"id\" must be a number or string") (parse_id id_value)
      ok (request (record { jsonrpc = jsonrpc_version; id = id; method = method; params = params }))
  ]

abbrev or_null : Option Value → Value
or_null none = null
or_null (some v) = v

abbrev missing_id : JsonRpcError
missing_id = invalid_request "missing \"id\" field"

decode_success : Map → Result JsonRpcMessage JsonRpcError
unfolding parse_id
decode_success obj = do
  id_value ← ok_or missing_id (get "id" obj)
  id ← ok_or (invalid_request "\"id\" must be a number or string") (parse_id id_value)
  ok (
      success_response
        (record { jsonrpc = jsonrpc_version; id = id; result = or_null (get "result" obj) }))

pub parse_optional_id : Value → Result (Option JsonRpcId) JsonRpcError
unfolding parse_id
parse_optional_id null = ok none
parse_optional_id other = do
  id ← ok_or (invalid_request "\"id\" must be a number, string, or null") (parse_id other)
  ok (some id)

module _ (serde : Serde) where
  decode_error : Map → Result JsonRpcMessage JsonRpcError
  unfolding parse_optional_id
  decode_error obj = do
    id_value ← ok_or missing_id (get "id" obj)
    id ← parse_optional_id id_value
    error ←
        map_err (λ e. invalid_request (str_append "invalid \"error\" object: " e))
          (serde.error_from_value (or_null (get "error" obj)))
    ok (error_response (record { jsonrpc = jsonrpc_version; id = id; error = error }))

  pub decode_response : Map → Result JsonRpcMessage JsonRpcError
  unfolding decode_success decode_error
  decode_response obj =
      let has_result = contains_key "result" obj in
      let has_error = contains_key "error" obj in
      if has_result && has_error
      then err (invalid_request "a response must not contain both \"result\" and \"error\"")
      else if has_result
      then decode_success obj
      else if has_error
      then decode_error obj
      else err
          (invalid_request "a JSON-RPC message must contain \"method\", \"result\", or \"error\"")

  unfoldable pub decode_value : Value → Result JsonRpcMessage JsonRpcError
  unfolding check_jsonrpc decode_request_or_notification decode_response
  decode_value value = do
    obj ← ok_or (invalid_request "a JSON-RPC message must be a JSON object") (as_object value)
    _ ← check_jsonrpc (get "jsonrpc" obj)
    elim (get "method" obj) [
      | some method_value ↦ decode_request_or_notification obj method_value
      | none ↦ decode_response obj
    ]

  unfoldable pub decode_message : List ℕ → Result JsonRpcMessage JsonRpcError
  unfolding decode_value exceeds_max_nesting
  decode_message bytes =
      if exceeds_max_nesting bytes max_json_nesting_depth
      then err (invalid_request "JSON nesting depth exceeds the limit of 128")
      else do value ← map_err parse_error (serde.from_slice bytes); decode_value value
