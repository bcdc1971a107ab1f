-- ===== src/Wire/JsonRpc/Decode/RoundTrip.antt =====
-- crates/mcp-wire/src/jsonrpc.rs: decoding the JSON of a message gives the message back.
use headless_mcp_server.Prelude.{
  String, ◌≡◌, ◌≢◌, refl, ap, true, Option, none, some, [], ◌∷◌, ok, arith,
}
use headless_mcp_server.Dict.{get}
use headless_mcp_server.Json.{
  ℤ, pos, negsuc, InI64, Value, null, string, Map, from_map, props-fields, in_i64,
}
use headless_mcp_server.Wire.JsonRpc.{
  JsonRpcId, number_id, string_id, JsonRpcError, jsonrpc_version, JsonRpcMessage, request,
  notification, success_response, error_response, id_to_value, optional_id_to_value, optional_field,
  error_to_value, to_value,
}
use headless_mcp_server.Wire.JsonRpc.Decode.{Serde, parse_id, parse_optional_id, decode_value}
use headless_mcp_server.Wire.JsonRpc.Decode.Shapes.{
  a_request, a_notification, a_success, an_error, Reads-complete,
}

abbrev pub IsId : JsonRpcId → Type 0
IsId (number_id n) = InI64 n
IsId (string_id s) = Unit

abbrev pub IsOptionalId : Option JsonRpcId → Type 0
IsOptionalId none = Unit
IsOptionalId (some id) = IsId id

-- An error object that its own reader reads back: the code fits an `i64`, and the data is not an
-- explicit `null`, which an `Option` field reads as absent.
pub record IsPlainError (e : JsonRpcError) : Type 0 where
  pub code_fits : InI64 e.code
  pub not_null : e.data_value ≢ some null

-- What serde promises of a derived serializer and reader of one struct.
abbrev pub ReadsErrors : Serde → Type 0
ReadsErrors serde =
    (e : JsonRpcError) → IsPlainError e → serde.error_from_value (error_to_value e) ≡ ok e

-- A message that this program builds: every constructor of the source sets the version.
abbrev pub IsMessage : JsonRpcMessage → Type 0
IsMessage (request r) = (r.jsonrpc ≡ jsonrpc_version) × IsId r.id
IsMessage (notification n) = n.jsonrpc ≡ jsonrpc_version
IsMessage (success_response r) = (r.jsonrpc ≡ jsonrpc_version) × IsId r.id
IsMessage (error_response r) =
    (r.jsonrpc ≡ jsonrpc_version) × IsOptionalId r.id × IsPlainError r.error

pub as_i64-int : (n : ℤ) → InI64 n → in_i64 n ≡ true
as_i64-int (pos n) h = ground arith
as_i64-int (negsuc n) h = ground arith

parse_id-id_to_value : (id : JsonRpcId) → IsId id → parse_id (id_to_value id) ≡ some id
unfolding parse_id
parse_id-id_to_value (number_id n) h = ground (arith, as_i64-int n h)
parse_id-id_to_value (string_id s) h = refl

parse_optional_id-to_value :
    (id : Option JsonRpcId) → IsOptionalId id → parse_optional_id (optional_id_to_value id) ≡ ok id
unfolding parse_optional_id
parse_optional_id-to_value none h = refl
parse_optional_id-to_value (some (number_id n)) h = ground (arith, as_i64-int n h)
parse_optional_id-to_value (some (string_id s)) h = refl

get-optional_field : (o : Option Value) → get "params" (optional_field "params" o) ≡ o
unfolding get
get-optional_field none = refl
get-optional_field (some v) = refl

get-id_of_optional : (o : Option Value) → get "id" (optional_field "params" o) ≡ none
unfolding get
get-id_of_optional none = refl
get-id_of_optional (some v) = refl

-- Decoding the serialized form of a message gives that message, for each of the four shapes, if it
-- has the version of the protocol, its numeric id and an error's code fit an `i64`, and an error's
-- data is not an explicit null.
pub decode_value-to_value :
    (serde : Serde) (m : JsonRpcMessage)
    → ReadsErrors serde
    → IsMessage m
    → decode_value serde (to_value m) ≡ ok m
unfolding to_value get
decode_value-to_value serde (request r) law (v, h) =
    let obj : Map =
      ("jsonrpc", string r.jsonrpc)
      ∷ ("id", id_to_value r.id)
      ∷ ("method", string r.method)
      ∷ optional_field "params" r.params in
    Reads-complete serde obj (from_map obj) (ap some (props-fields obj))
      (ap (λ (s : String). some (string s)) v)
      (a_request r.method (id_to_value r.id) r.id refl refl (parse_id-id_to_value r.id h)
        (ground (arith, get-optional_field r.params)))
decode_value-to_value serde (notification n) law v =
    let obj : Map =
      ("jsonrpc", string n.jsonrpc)
      ∷ ("method", string n.method)
      ∷ optional_field "params" n.params in
    Reads-complete serde obj (from_map obj) (ap some (props-fields obj))
      (ap (λ (s : String). some (string s)) v)
      (a_notification n.method refl (get-id_of_optional n.params)
        (ground (arith, get-optional_field n.params)))
decode_value-to_value serde (success_response r) law (v, h) =
    let obj : Map =
      ("jsonrpc", string r.jsonrpc) ∷ ("id", id_to_value r.id) ∷ ("result", r.result) ∷ [] in
    Reads-complete serde obj (from_map obj) refl (ap (λ (s : String). some (string s)) v) (
      a_success (id_to_value r.id) r.result r.id refl refl refl refl (parse_id-id_to_value r.id h)
        (ground arith))
decode_value-to_value serde (error_response r) law (v, h, p) =
    let obj : Map =
      ("jsonrpc", string r.jsonrpc)
      ∷ ("id", optional_id_to_value r.id)
      ∷ ("error", error_to_value r.error)
      ∷ [] in
    Reads-complete serde obj (from_map obj) refl (ap (λ (s : String). some (string s)) v) (
      an_error (optional_id_to_value r.id) (error_to_value r.error) r.id r.error refl refl refl refl
        (parse_optional_id-to_value r.id h) (law r.error p) (ground arith))
