-- ===== src/Http/Laws.antt =====
-- crates/transport-http: who gets through to the session, and with what status.
use headless_mcp_server.Prelude.{
  String, ◌≡◌, ◌≢◌, ◌⊎◌, refl, sym, ◌∙◌, ◌==◌, eq_iff, true, false, Option, none, some, ok, err,
  Bool-cases, Option-cases, inl, inr, arith,
}
use headless_mcp_server.Wire.JsonRpc.{
  JsonRpcId, JsonRpcError, JsonRpcMessage, error_response, new_error_response, JsonRpcRequest,
  JsonRpcNotification, JsonRpcSuccessResponse, JsonRpcErrorResponse,
}
use headless_mcp_server.Wire.JsonRpc.Decode.{decode_message}
use headless_mcp_server.Server.State.{McpSession}
use headless_mcp_server.Http.{
  Libraries, HttpTransportConfig, AppState, HttpRequest, Response, json_response,
  extract_bearer_token, contains_text, mismatch, pass_on, require_bearer_token, enforce_rate_limit,
  run_http, build_router, request, request_protocol_version, notification, success_response,
}

-- A message that the header agrees with, and the version and id that it declares: a request that
-- declares a version has a header that says the same; other messages declare none.
pub data MatchesHeader (header : Option String)
    : JsonRpcMessage → Option (String × JsonRpcId) → Type 0 where
  declares :
      (q : JsonRpcRequest) (version : String)
      → request_protocol_version q.params ≡ some version
      → header ≡ some version
      → MatchesHeader header (request q) (some (version, q.id))
  declares_none :
      (q : JsonRpcRequest)
      → request_protocol_version q.params ≡ none
      → MatchesHeader header (request q) none
  notifies : (n : JsonRpcNotification) → MatchesHeader header (notification n) none
  responds : (a : JsonRpcSuccessResponse) → MatchesHeader header (success_response a) none
  fails : (a : JsonRpcErrorResponse) → MatchesHeader header (error_response a) none

module _ {I L W : Type 0} (lib : Libraries I L) where
  -- A request that is turned away: with 401 or 429, and the session is as it was.
  pub record IsTurnedAway (r : HttpRequest I) (st : AppState W L) : Type 0 where
    pub status :
        ((enforce_rate_limit lib r st).0.status ≡ 401)
        ⊎ ((enforce_rate_limit lib r st).0.status ≡ 429)
    pub session : (enforce_rate_limit lib r st).1.session ≡ st.session

  unauthorized :
      (r : HttpRequest I) (st : AppState W L)
      → extract_bearer_token r.authorization ≢ some st.bearer_token
      → ((require_bearer_token lib r st).0.status ≡ 401)
        × ((require_bearer_token lib r st).1.session ≡ st.session)
  unfolding require_bearer_token
  unauthorized r st other = elim (Option-cases (extract_bearer_token r.authorization)) [
    | inl e ↦ rw e (refl, refl)
    | inr (token, e) ↦
        let differs : (token == st.bearer_token) ≡ false =
          ground (arith, eq_iff token st.bearer_token, e) in
        rw (e, require_bearer_token) (rw differs (refl, refl))
  ]

  -- A request whose bearer token is missing or is not the configured one is turned away, with
  -- status 401 or 429, and the session does not see it.
  pub enforce_rate_limit-IsTurnedAway :
      (r : HttpRequest I) (st : AppState W L)
      → extract_bearer_token r.authorization ≢ some st.bearer_token
      → IsTurnedAway r st
  unfolding enforce_rate_limit
  enforce_rate_limit-IsTurnedAway r st other = elim (Bool-cases (lib.check_key r.ip st.limiter).0) [
    | inr e ↦ record { status = rw e (inr refl); session = rw e refl }
    | inl e ↦
        let u = unauthorized r (record st { limiter = (lib.check_key r.ip st.limiter).1 }) other in
        record { status = rw e (inl u.0); session = rw e u.1 }
  ]

  started_token :
      (session : McpSession W) (config : HttpTransportConfig) (st : AppState W L)
      → run_http lib session config ≡ ok st
      → (st.bearer_token ≢ "") × (contains_text "{{unresolved:" st.bearer_token ≡ false)
  unfolding run_http
  started_token session config st h = elim (Bool-cases (config.bearer_token == "")) [
    | inl empty ↦ absurd (ground arith)
    | inr full ↦ elim (Bool-cases (contains_text "{{unresolved:" config.bearer_token)) [
      | inl unset ↦ absurd (ground arith)
      | inr resolved ↦
          let same : build_router lib session config ≡ st = ground arith in
          rw (← same) (λ empty. cc ((eq_iff config.bearer_token "").1 empty), resolved)
    ]
  ]

  -- A transport that starts turns away every request that presents the empty token or one with an
  -- unresolved placeholder, whatever is configured.
  pub run_http-IsTurnedAway :
      (session : McpSession W) (config : HttpTransportConfig) (st : AppState W L)
      (r : HttpRequest I) (token : String)
      → run_http lib session config ≡ ok st
      → extract_bearer_token r.authorization ≡ some token
      → (token ≡ "") ⊎ (contains_text "{{unresolved:" token ≡ true)
      → IsTurnedAway r st
  run_http-IsTurnedAway session config st r token h e bad =
      let (full, resolved) = started_token session config st h in
      enforce_rate_limit-IsTurnedAway r st (λ same.
        let equal : token ≡ st.bearer_token = ground arith in
        elim bad [ inl empty ↦ full (sym equal ∙ empty) | inr unset ↦ cc ])

  -- What becomes of a request that is authorized.
  pub data Outcome (r : HttpRequest I) (s : McpSession W) : Response × McpSession W → Type 0 where
    undecodable :
        (e : JsonRpcError)
        → decode_message lib.serde r.body ≡ err e
        → Outcome r s (json_response 200 (error_response (new_error_response none e)), s)
    disagrees :
        (q : JsonRpcRequest) (version : String)
        → decode_message lib.serde r.body ≡ ok (request q)
        → request_protocol_version q.params ≡ some version
        → r.protocol_version ≢ some version
        → Outcome r s (
          json_response 400 (
              error_response
                (new_error_response (some q.id) (mismatch lib.debug r.protocol_version version))),
          s,
        )
    passes :
        (m : JsonRpcMessage) (modern : Option (String × JsonRpcId))
        → decode_message lib.serde r.body ≡ ok m
        → MatchesHeader r.protocol_version m modern
        → Outcome r s (pass_on lib modern m s)
