-- ===== src/Wire/JsonRpc/Tests.antt =====
-- crates/mcp-wire/src/jsonrpc.rs: tests, and the theorems at concrete inputs.
use headless_mcp_server.Prelude.{
  ℕ, String, ◌≡◌, ◌∙◌, ◌≢◌, ◌⊎◌, ◌↔◌, refl, true, Option, none, some, List, [], ◌∷◌, Result, ok,
  err, ◌>>=◌, ok_or, arith, Option-cases, codes, inl, inr,
}
use headless_mcp_server.Dict.{get, contains_key}
use headless_mcp_server.Json.{
  ℤ, pos, Value, null, bool, number, string, array, object, props, from_map, as_str, as_i64,
}
use headless_mcp_server.Wire.JsonRpc.{
  number_id, JsonRpcError, JsonRpcMessage, error_response, internal_error, new_error_response,
  to_value, parse_error_code, new_error, invalid_request_code, notification, new_notification,
}
use headless_mcp_server.Wire.JsonRpc.Nesting.{
  exceeds_max_nesting, IsTooDeep, start, exceeds_max_nesting_iff,
}
use headless_mcp_server.Wire.JsonRpc.Decode.{
  Serde, decode_value, decode_message, max_json_nesting_depth,
}
use headless_mcp_server.Wire.JsonRpc.Decode.Errors.{decode_message-code}
use headless_mcp_server.Wire.JsonRpc.Decode.RoundTrip.{
  as_i64-int, ReadsErrors, IsMessage, decode_value-to_value,
}

-- A reader of error objects, as serde derives it.
abbrev plain_data : Option Value → Option Value
plain_data none = none
plain_data (some null) = none
plain_data (some v) = some v

abbrev read_code : Option Value → Option ℤ
read_code (some (number n)) = as_i64 n
read_code _ = none

abbrev read_string : Option Value → Option String
read_string (some v) = as_str v
read_string none = none

abbrev read_error : Value → Result JsonRpcError String
read_error (object fs) = do
  code ← ok_or "code" (read_code (get "code" (props fs)))
  message ← ok_or "message" (read_string (get "message" (props fs)))
  ok (record { code = code; message = message; data_value = plain_data (get "data" (props fs)) })
read_error _ = err "not an object"

abbrev refuse : List ℕ → Result Value String
refuse bytes = err "expected value"

abbrev derived : Serde
derived = record { from_slice = refuse; error_from_value = read_error }

plain_data_lem : (v : Value) → some v ≢ some null → plain_data (some v) ≡ some v
plain_data_lem null h = absurd (h refl)
plain_data_lem (bool _) h = refl
plain_data_lem (number _) h = refl
plain_data_lem (string _) h = refl
plain_data_lem (array _) h = refl
plain_data_lem (object _) h = refl

derived-ReadsErrors : ReadsErrors derived
unfolding get
derived-ReadsErrors e p = rw (as_i64-int e.code p.code_fits) (elim (Option-cases e.data_value) [
  | inl e' ↦ rw e' cc
  | inr (v, e') ↦ rw e' (rw (plain_data_lem v (λ h. p.not_null (e' ∙ h))) cc)
])

abbrev lost : JsonRpcMessage
lost = error_response (new_error_response (some (number_id (pos 7))) (internal_error "lost"))

lost-IsMessage : IsMessage lost
lost-IsMessage = (refl, omega arith, record { code_fits = omega arith; not_null = λ h. cc })

decode_value-to_value_example : decode_value derived (to_value lost) ≡ ok lost
decode_value-to_value_example =
    decode_value-to_value derived lost derived-ReadsErrors lost-IsMessage

-- {"jsonrpc": "2.0", "method": "ping"}
abbrev ping_object : Value
ping_object = from_map (("jsonrpc", string "2.0") ∷ ("method", string "ping") ∷ [])

abbrev ping : JsonRpcMessage
ping = notification (new_notification "ping" none)

ping_test : decode_value derived ping_object ≡ ok ping
unfolding decode_value get contains_key
ping_test = refl

-- `[[` and a closing bracket.
abbrev brackets : List ℕ
brackets = codes "[[]"

exceeds_max_nesting_test : exceeds_max_nesting brackets 1 ≡ true
unfolding exceeds_max_nesting
exceeds_max_nesting_test = refl

exceeds_max_nesting_iff_example :
    (exceeds_max_nesting brackets 1 ≡ true) ↔ IsTooDeep 1 start brackets
exceeds_max_nesting_iff_example = exceeds_max_nesting_iff brackets 1

refused : decode_message derived brackets ≡ err (new_error parse_error_code "expected value")
unfolding decode_message
refused = refl

decode_message-code_example :
    ((parse_error_code ≡ parse_error_code)
      × (¬ IsTooDeep max_json_nesting_depth start brackets)
      × ((message : String) × (refuse brackets ≡ err message)))
    ⊎ ((parse_error_code ≡ invalid_request_code)
        × (IsTooDeep max_json_nesting_depth start brackets
            ⊎ ((value : Value) × (refuse brackets ≡ ok value))))
decode_message-code_example = decode_message-code derived brackets _ refused
