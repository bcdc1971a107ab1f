-- ===== src/Wire/JsonRpc/Decode/Shapes.antt =====
-- crates/mcp-wire/src/jsonrpc.rs: which JSON objects `decode_value` takes for which message.
use headless_mcp_server.Prelude.{String, ◌≡◌, Option, none, some, ok, arith}
use headless_mcp_server.Dict.{get}
use headless_mcp_server.Dict.Laws.{contains_key-of_none, contains_key-of_some}
use headless_mcp_server.Json.{Value, string, Map, as_object}
use headless_mcp_server.Wire.JsonRpc.{
  JsonRpcId, JsonRpcError, jsonrpc_version, JsonRpcMessage, request, notification, success_response,
  error_response,
}
use headless_mcp_server.Wire.JsonRpc.Decode.{Serde, parse_id, parse_optional_id, decode_value}

module _ (serde : Serde) (obj : Map) where
  -- The four shapes, by the fields that an object has and does not have.
  pub data Reads : JsonRpcMessage → Type 0 where
    a_request :
        {m : JsonRpcMessage} (method : String) (key : Value) (id : JsonRpcId)
        → get "method" obj ≡ some (string method)
        → get "id" obj ≡ some key
        → parse_id key ≡ some id
        → m
          ≡ request (record {
            jsonrpc = jsonrpc_version;
            id = id;
            method = method;
            params = get "params" obj;
          })
        → Reads m
    a_notification :
        {m : JsonRpcMessage} (method : String)
        → get "method" obj ≡ some (string method)
        → get "id" obj ≡ none
        → m
          ≡ notification
              (record { jsonrpc = jsonrpc_version; method = method; params = get "params" obj })
        → Reads m
    a_success :
        {m : JsonRpcMessage} (key result : Value) (id : JsonRpcId)
        → get "method" obj ≡ none
        → get "error" obj ≡ none
        → get "result" obj ≡ some result
        → get "id" obj ≡ some key
        → parse_id key ≡ some id
        → m ≡ success_response (record { jsonrpc = jsonrpc_version; id = id; result = result })
        → Reads m
    an_error :
        {m : JsonRpcMessage} (key value : Value) (id : Option JsonRpcId) (error : JsonRpcError)
        → get "method" obj ≡ none
        → get "result" obj ≡ none
        → get "error" obj ≡ some value
        → get "id" obj ≡ some key
        → parse_optional_id key ≡ ok id
        → serde.error_from_value value ≡ ok error
        → m ≡ error_response (record { jsonrpc = jsonrpc_version; id = id; error = error })
        → Reads m

  pub Reads-complete :
      {m : JsonRpcMessage} (value : Value)
      → as_object value ≡ some obj
      → get "jsonrpc" obj ≡ some (string jsonrpc_version)
      → Reads m
      → decode_value serde value ≡ ok m
  unfolding decode_value
  Reads-complete value o v (a_request method key id found has_id good e) = ground arith
  Reads-complete value o v (a_notification method found no_id e) = ground arith
  Reads-complete value o v (a_success key result id no_method no_error found has_id good e) =
      ground
        (arith, contains_key-of_none "error" obj, contains_key-of_some "result" obj {v = result})
  Reads-complete value o v
        (an_error key error_value id error no_method no_result found has_id good read e) =
      ground (
        arith,
        contains_key-of_none "result" obj,
        contains_key-of_some "error" obj {v = error_value},
      )
