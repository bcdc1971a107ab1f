-- ===== src/Http.antt =====
-- crates/transport-http: a POST to /mcp, from the rate limit and the bearer check to the reply.
pub mod Laws
pub mod Tests
use Prim.Native.String
use Prim.Native.String.{◌++◌ as str_append}
use headless_mcp_server.Prelude.{
  ℕ, String, ◌==◌, Bool, true, false, ◌||◌, Option, none, some, List, [], ◌∷◌, Result, ok, err,
  concat, strip_prefix, eqb, if◌then◌else◌,
}
use headless_mcp_server.Json.{ℤ, pos, negsuc, Value}
use headless_mcp_server.Wire.JsonRpc.{
  JsonRpcId, JsonRpcError, new_error, JsonRpcMessage, request, notification, success_response,
  error_response, new_error_response, to_value, method_not_found_code,
}
use headless_mcp_server.Wire.JsonRpc.Decode.{Serde, decode_message}
use headless_mcp_server.Server.Protocol.{
  request_protocol_version, header_mismatch, unsupported_protocol_version,
}
use headless_mcp_server.Server.State.{McpSession, Codec}
use headless_mcp_server.Server.Subscriptions.{
  SessionReply, message, stream, Subscription, handle_streaming,
}

-- What the transport takes from libraries: the JSON readers, `{:?}` of a text, and a limiter whose
-- state is an `L` and whose keys are addresses.
pub record Libraries (I L : Type 0) : Type 0 where
  pub serde : Serde
  pub codec : Codec
  pub debug : String → String
  pub per_minute : ℕ → L
  pub check_key : I → L → Bool × L

pub record HttpTransportConfig : Type 0 where
  pub bearer_token : String
  pub rate_limit_per_minute : ℕ

pub record AppState (W L : Type 0) : Type 0 where
  pub session : McpSession W
  pub bearer_token : String
  pub limiter : L

-- A POST to /mcp: the address it comes from, two of its headers, where they are text, and its body.
pub record HttpRequest (I : Type 0) : Type 0 where
  pub ip : I
  pub authorization : Option String
  pub protocol_version : Option String
  pub body : List ℕ

pub data Body : Type 0 where
  json : Value → Body
  events : Subscription → Body
  plain : String → Body
  nothing : Body

pub record Response : Type 0 where
  pub status : ℕ
  pub content : Body

abbrev pub json_response : ℕ → JsonRpcMessage → Response
json_response status m = record { status = status; content = json (to_value m) }

unfoldable pub extract_bearer_token : Option String → Option String
unfolding strip_prefix
extract_bearer_token none = none
extract_bearer_token (some raw) = strip_prefix "Bearer " raw

abbrev pub tokens_match : String → String → Bool
tokens_match provided expected = provided == expected

abbrev starts_with : String → Option String → Bool
starts_with needle none = false
starts_with needle (some rest) = true

-- `hay.contains(needle)`
unfoldable pub contains_text : String → String → Bool
unfolding strip_prefix
contains_text needle String.[] = starts_with needle (strip_prefix needle "")
contains_text needle (String.◌∷◌ c hay) =
    starts_with needle (strip_prefix needle (String.◌∷◌ c hay)) || contains_text needle hay

abbrev is_code : ℤ → ℤ → Bool
is_code (pos a) (pos b) = eqb a b
is_code (negsuc a) (negsuc b) = eqb a b
is_code _ _ = false

-- The reply's code decides the status of a modern reply.
unfoldable pub modern_status : JsonRpcMessage → ℕ
modern_status (error_response r) =
    if is_code r.error.code unsupported_protocol_version
    then 400
    else if is_code r.error.code method_not_found_code
    then 404
    else 200
modern_status _ = 200

abbrev with_id : JsonRpcId → Option String → Option (String × JsonRpcId)
with_id id none = none
with_id id (some version) = some (version, id)

unfoldable pub modern_request : JsonRpcMessage → Option (String × JsonRpcId)
unfolding request_protocol_version
modern_request (request r) = with_id r.id (request_protocol_version r.params)
modern_request _ = none

abbrev pub says : String → Option String → Bool
says version none = false
says version (some header) = header == version

abbrev or_missing : Option String → String
or_missing none = "<missing>"
or_missing (some header) = header

abbrev pub mismatch : (String → String) → Option String → String → JsonRpcError
mismatch debug header version = new_error header_mismatch (
    concat (
      "Header mismatch: MCP-Protocol-Version "
      ∷ debug (or_missing header)
      ∷ " does not match body version '"
      ∷ version
      ∷ "'"
      ∷ []))

-- The session's reply as a response.
abbrev status_of : Option (String × JsonRpcId) → JsonRpcMessage → ℕ
status_of none reply = 200
status_of (some modern) reply = modern_status reply

unfoldable pub respond : Option (String × JsonRpcId) → Option SessionReply → Response
unfolding modern_status
respond modern (some (message reply)) = json_response (status_of modern reply) reply
respond modern (some (stream id sub)) = record { status = 200; content = events sub }
respond modern none = record { status = 202; content = nothing }

abbrev authorized : Option String → String → Bool
authorized none expected = false
authorized (some token) expected = tokens_match token expected

-- `NonZeroU32::new(n).unwrap_or(MIN)`
abbrev pub build_limiter : {I L : Type 0} → Libraries I L → ℕ → L
build_limiter lib requests_per_minute =
    lib.per_minute (if eqb requests_per_minute 0 then 1 else requests_per_minute)

module _ {I L W : Type 0} (lib : Libraries I L) where
  -- The session is given the message, and answers.
  abbrev pub pass_on :
      Option (String × JsonRpcId) → JsonRpcMessage → McpSession W → Response × McpSession W
  pass_on modern m s =
      let (reply, s') = handle_streaming lib.codec m s in (respond modern reply, s')

  abbrev pub check_header :
      Option String
      → Option (String × JsonRpcId)
      → JsonRpcMessage
      → McpSession W
      → Response × McpSession W
  check_header header none m s = pass_on none m s
  check_header header (some (version, id)) m s =
      if says version header then pass_on (some (version, id)) m s else (
        json_response 400
            (error_response (new_error_response (some id) (mismatch lib.debug header version))),
        s,
      )

  unfoldable pub handle_mcp : HttpRequest I → McpSession W → Response × McpSession W
  unfolding decode_message modern_request handle_streaming respond
  handle_mcp r s = elim (decode_message lib.serde r.body) [
    | err e ↦ (json_response 200 (error_response (new_error_response none e)), s)
    | ok m ↦ check_header r.protocol_version (modern_request m) m s
  ]

  unfoldable pub require_bearer_token : HttpRequest I → AppState W L → Response × AppState W L
  unfolding extract_bearer_token handle_mcp
  require_bearer_token r st =
      if authorized (extract_bearer_token r.authorization) st.bearer_token
      then (let (response, s) = handle_mcp r st.session in (response, record st { session = s }))
      else (record { status = 401; content = plain "unauthorized" }, st)

  unfoldable pub enforce_rate_limit : HttpRequest I → AppState W L → Response × AppState W L
  unfolding require_bearer_token
  enforce_rate_limit r st =
      let (allowed, limiter) = lib.check_key r.ip st.limiter in
      let st' = record st { limiter = limiter } in
      if allowed
      then require_bearer_token r st'
      else (record { status = 429; content = plain "rate limit exceeded" }, st')

  abbrev pub build_router : McpSession W → HttpTransportConfig → AppState W L
  build_router session config = record {
    session = session;
    bearer_token = config.bearer_token;
    limiter = build_limiter lib config.rate_limit_per_minute;
  }

  -- The checks of `run_http`, and the state that it then serves.
  unfoldable pub run_http : McpSession W → HttpTransportConfig → Result (AppState W L) String
  unfolding contains_text
  run_http session config =
      if config.bearer_token == ""
      then err
          "refusing to start: no bearer token configured (set [auth] hub_token or HEADLESS_MCP_TOKEN)"
      else if contains_text "{{unresolved:" config.bearer_token
      then err (
          concat (
            "refusing to start: bearer token still contains an unresolved placeholder ("
            ∷ config.bearer_token ∷ "); the referenced variable is not set" ∷ []))
      else ok (build_router session config)
