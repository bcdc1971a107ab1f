-- ===== src/Http/Tests.antt =====
-- crates/transport-http: tests, and the theorems at concrete inputs.
use headless_mcp_server.Prelude.{
  ℕ, String, ◌≡◌, ◌≢◌, refl, Bool, true, none, some, List, [], ◌∷◌, Result, ok, err, inl,
}
use headless_mcp_server.Json.{Value, string, number, int, pos, from_map}
use headless_mcp_server.Wire.JsonRpc.{JsonRpcError}
use headless_mcp_server.Wire.JsonRpc.Decode.{decode_message}
use headless_mcp_server.Registry.State as Registry
use headless_mcp_server.Server.State.{McpSession, ToolCallParams, new}
use headless_mcp_server.Http.{
  Libraries, HttpTransportConfig, AppState, HttpRequest, extract_bearer_token, contains_text,
  handle_mcp, modern_request, build_router, run_http,
}
use headless_mcp_server.Http.Laws.{
  IsTurnedAway, enforce_rate_limit-IsTurnedAway, run_http-IsTurnedAway,
}

abbrev a_request : Value
a_request = from_map (
    ("jsonrpc", string "2.0") ∷ ("id", number (int (pos 1))) ∷ ("method", string "initialize") ∷ [])

abbrev parse : List ℕ → Result Value String
parse bytes = ok a_request

abbrev no_error : Value → Result JsonRpcError String
no_error v = err "no error object"

abbrev no_params : Value → Result ToolCallParams String
no_params v = err "missing field `name`"

abbrev pretty : Value → String
pretty v = "{}"

abbrev as_it_is : String → String
as_it_is s = s

-- A limiter that counts, and allows everything.
abbrev counter : ℕ → ℕ
counter n = 0

abbrev count : String → ℕ → Bool × ℕ
count ip n = (true, n)

abbrev pub libraries : Libraries String ℕ
libraries = record {
  serde = record { from_slice = parse; error_from_value = no_error };
  codec = record { from_value = no_params; to_string_pretty = pretty };
  debug = as_it_is;
  per_minute = counter;
  check_key = count;
}

abbrev pub session : McpSession ℕ
session = new (Registry.new 0)

abbrev config : HttpTransportConfig
config = record { bearer_token = "secret"; rate_limit_per_minute = 60 }

abbrev state : AppState ℕ ℕ
state = build_router libraries session config

abbrev empty_token : HttpRequest String
empty_token = record {
  ip = "127.0.0.1";
  authorization = some "Bearer ";
  protocol_version = none;
  body = [];
}

presented : extract_bearer_token empty_token.authorization ≡ some ""
unfolding extract_bearer_token
presented = refl

started : run_http libraries session config ≡ ok state
unfolding run_http
started = refl

unresolved_test : contains_text "{{unresolved:" "x{{unresolved:TOKEN}}" ≡ true
unfolding contains_text
unresolved_test = refl

not_secret : extract_bearer_token empty_token.authorization ≢ some "secret"
unfolding extract_bearer_token
not_secret h = cc

enforce_rate_limit-IsTurnedAway_example : IsTurnedAway libraries empty_token state
enforce_rate_limit-IsTurnedAway_example =
    enforce_rate_limit-IsTurnedAway libraries empty_token state not_secret

run_http-IsTurnedAway_example : IsTurnedAway libraries empty_token state
run_http-IsTurnedAway_example =
    run_http-IsTurnedAway libraries session config state empty_token "" started presented (inl refl)

abbrev modern_body : Value
modern_body = from_map (
    ("jsonrpc", string "2.0")
    ∷ ("id", number (int (pos 1)))
    ∷ ("method", string "ping")
    ∷ (
      "params",
      from_map (
          (
            "_meta",
            from_map (("io.modelcontextprotocol/protocolVersion", string "2026-07-28") ∷ []),
          )
          ∷ []),
    )
    ∷ [])

abbrev parse_modern : List ℕ → Result Value String
parse_modern bytes = ok modern_body

abbrev modern_libraries : Libraries String ℕ
modern_libraries = record libraries {
  serde = record { from_slice = parse_modern; error_from_value = no_error };
}

-- A modern request with no header is answered with status 400.
header_test : (handle_mcp modern_libraries empty_token session).0.status ≡ 400
unfolding handle_mcp decode_message modern_request
header_test = refl
