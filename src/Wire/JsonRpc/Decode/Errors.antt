-- ===== src/Wire/JsonRpc/Decode/Errors.antt =====
-- crates/mcp-wire/src/jsonrpc.rs: the codes of the errors that the decoder answers with.
use headless_mcp_server.Prelude.{
  ℕ, String, ◌≡◌, ◌⊎◌, Option, List, ok, err, arith, inl, inr, Bool-cases, Result-cases,
}
use headless_mcp_server.Json.{Value, Map}
use headless_mcp_server.Wire.JsonRpc.{JsonRpcError, parse_error_code, invalid_request_code}
use headless_mcp_server.Wire.JsonRpc.Nesting.{
  exceeds_max_nesting, exceeds_max_nesting_iff, IsTooDeep, start,
}
use headless_mcp_server.Wire.JsonRpc.Decode.{
  Serde, check_jsonrpc, decode_request_or_notification, parse_optional_id, decode_response,
  decode_value, decode_message, max_json_nesting_depth,
}

decode_method-code :
    (obj : Map) (mv : Value) (e : JsonRpcError)
    → decode_request_or_notification obj mv ≡ err e
    → e.code ≡ invalid_request_code
unfolding decode_request_or_notification
decode_method-code obj mv e h = ground arith

parse_optional_id-code :
    (v : Value) (e : JsonRpcError) → parse_optional_id v ≡ err e → e.code ≡ invalid_request_code
unfolding parse_optional_id
parse_optional_id-code v e h = ground arith

decode_response-code :
    (serde : Serde) (obj : Map) (e : JsonRpcError)
    → decode_response serde obj ≡ err e
    → e.code ≡ invalid_request_code
unfolding decode_response
decode_response-code serde obj e h = ground arith

check_jsonrpc-code :
    (o : Option Value) (e : JsonRpcError) → check_jsonrpc o ≡ err e → e.code ≡ invalid_request_code
unfolding check_jsonrpc
check_jsonrpc-code o e h = ground arith

decode_value-code :
    (serde : Serde) (v : Value) (e : JsonRpcError)
    → decode_value serde v ≡ err e
    → e.code ≡ invalid_request_code
unfolding decode_value
decode_value-code serde v e h = ground arith

-- An error of the decoder is a parse error exactly if the nesting is within the limit and the JSON
-- parser refuses the bytes, and an invalid request otherwise.
pub decode_message-code :
    (serde : Serde) (bytes : List ℕ) (e : JsonRpcError)
    → decode_message serde bytes ≡ err e
    → ((e.code ≡ parse_error_code)
        × (¬ IsTooDeep max_json_nesting_depth start bytes)
        × ((message : String) × (serde.from_slice bytes ≡ err message)))
      ⊎ ((e.code ≡ invalid_request_code)
          × (IsTooDeep max_json_nesting_depth start bytes
              ⊎ ((value : Value) × (serde.from_slice bytes ≡ ok value))))
unfolding decode_message
decode_message-code serde bytes e h =
    elim (Bool-cases (exceeds_max_nesting bytes max_json_nesting_depth)) [
      | inl deep ↦
          inr (ground arith, inl ((exceeds_max_nesting_iff bytes max_json_nesting_depth).0 deep))
      | inr fine ↦ elim (Result-cases (serde.from_slice bytes)) [
        | inl (value, read) ↦
            inr (decode_value-code serde value e (ground arith), inr (value, read))
        | inr (message, bad) ↦ inl (
          ground arith,
          λ deep. cc ((exceeds_max_nesting_iff bytes max_json_nesting_depth).1 deep),
          (message, bad),
        )
      ]
    ]
