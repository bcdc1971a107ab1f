-- ===== src/Server/Protocol.antt =====
-- crates/mcp-server/src/protocol.rs: protocol versions, and the marks on modern results.
use Prim.Native.Nat.{◌^◌}
use headless_mcp_server.Prelude.{
  ℕ, String, ◌==◌, Bool, true, false, Option, none, some, List, [], ◌∷◌, Result, ok, err, contains,
  ltb, if◌then◌else◌,
}
use headless_mcp_server.Dict.{get, contains_key, insert}
use headless_mcp_server.Json.{
  ℤ, pos, negsuc, Number, int, float, Value, number, string, object, Map, props, from_map,
  from_list, as_str, get_field,
}
use headless_mcp_server.Wire.JsonRpc.{JsonRpcError}

abbrev pub legacy_protocol_version : String
legacy_protocol_version = "2025-06-18"

abbrev pub modern_protocol_versions : List String
modern_protocol_versions = "2026-07-28" ∷ []

abbrev pub meta_protocol_version : String
meta_protocol_version = "io.modelcontextprotocol/protocolVersion"

abbrev pub meta_server_info : String
meta_server_info = "io.modelcontextprotocol/serverInfo"

abbrev pub meta_subscription_id : String
meta_subscription_id = "io.modelcontextprotocol/subscriptionId"

-- -32020 and -32022.
abbrev pub header_mismatch : ℤ
header_mismatch = negsuc 32019

abbrev pub unsupported_protocol_version : ℤ
unsupported_protocol_version = negsuc 32021

-- `o?.get(k)?` and `o?.as_str()`
abbrev pub then_get : String → Option Value → Option Value
then_get k none = none
then_get k (some v) = get_field k v

abbrev pub then_str : Option Value → Option String
then_str none = none
then_str (some v) = as_str v

unfoldable pub request_protocol_version : Option Value → Option String
unfolding get
request_protocol_version params =
    then_str (then_get meta_protocol_version (then_get "_meta" params))

pub record RequestCtx : Type 0 where
  pub modern : Option String

abbrev pub from_params : Option Value → RequestCtx
from_params params = record { modern = request_protocol_version params }

abbrev some_version : Option String → Bool
some_version none = false
some_version (some v) = true

abbrev pub is_modern : RequestCtx → Bool
is_modern ctx = some_version ctx.modern

abbrev strings : List String → List Value
strings [] = []
strings (s ∷ ss) = string s ∷ strings ss

abbrev pub supported_versions : Value
supported_versions = from_list (strings modern_protocol_versions)

abbrev pub unsupported : String → JsonRpcError
unsupported v = record {
  code = unsupported_protocol_version;
  message = "Unsupported protocol version";
  data_value = some (from_map (("supported", supported_versions) ∷ ("requested", string v) ∷ []));
}

abbrev check_modern : Option String → Result (Unit {0}) JsonRpcError
check_modern none = ok tt
check_modern (some v) = if contains modern_protocol_versions v then ok tt else err (unsupported v)

unfoldable pub check_version : RequestCtx → Result (Unit {0}) JsonRpcError
check_version ctx = check_modern ctx.modern

-- `entry(k).or_insert(v)`
abbrev pub or_insert {ℓ} : {V : Type ℓ} → String → V → List (String × V) → List (String × V)
or_insert k v m = if contains_key k m then m else insert k v m

unfoldable pub mark_complete : Value → Value
unfolding contains_key insert
mark_complete (object fs) = from_map (or_insert "resultType" (string "complete") (props fs))
mark_complete v = v

abbrev pub list_ttl_ms : ℕ
list_ttl_ms = 60000

abbrev is_list_method : String → Bool
is_list_method method =
    contains
      ("server/discover" ∷ "tools/list" ∷ "resources/list" ∷ "resources/templates/list"
        ∷ "prompts/list" ∷ [])
      method

unfoldable pub cache_ttl_ms : String → Option ℕ
cache_ttl_ms method =
    if is_list_method method
    then some list_ttl_ms
    else if method == "resources/read"
    then some 0
    else none

-- `v.is_some_and(Value::is_u64)`
abbrev pub is_u64_number : Number → Bool
is_u64_number (int (pos n)) = ltb n (2 ^ 64)
is_u64_number (int (negsuc n)) = false
is_u64_number (float bits) = false

abbrev pub is_u64 : Option Value → Bool
is_u64 (some (number n)) = is_u64_number n
is_u64 _ = false

abbrev pub says_complete : Option String → Bool
says_complete none = false
says_complete (some s) = s == "complete"

abbrev pub with_ttl : ℕ → Map → Map
with_ttl ttl_ms obj =
    if is_u64 (get "ttlMs" obj) then obj else insert "ttlMs" (number (int (pos ttl_ms))) obj

abbrev pub mark_object : ℕ → Map → Map
mark_object ttl_ms obj =
    if says_complete (then_str (get "resultType" obj))
    then insert "cacheScope" (string "private") (with_ttl ttl_ms obj)
    else obj

abbrev pub mark_value : ℕ → Value → Value
mark_value ttl_ms (object fs) = from_map (mark_object ttl_ms (props fs))
mark_value ttl_ms v = v

unfoldable pub mark_cacheable : String → Value → Value
unfolding cache_ttl_ms get insert
mark_cacheable method value = elim (cache_ttl_ms method) [
  | none ↦ value
  | some ttl_ms ↦ mark_value ttl_ms value
]
