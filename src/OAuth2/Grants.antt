-- ===== src/OAuth2/Grants.antt =====
-- crates/backends/backend-http/src/oauth2.rs: the grants by which a token is acquired or refreshed.
pub mod Cached
use headless_mcp_server.Prelude.{
  ℕ, String, Bool, true, false, ◌||◌, not, Option, none, some, List, [], ◌∷◌, Result, ok, err,
  ok_or, map_err, concat, contains, eqb, ◌==◌, if◌then◌else◌,
}
use headless_mcp_server.Json.{Value, get_field}
use headless_mcp_server.Core.{BackendError}
use headless_mcp_server.Exec.{Exec, lift, raise, ◌>>=◌, ◌>>◌, modify}
use headless_mcp_server.Server.Protocol.{then_str}
use headless_mcp_server.OAuth2.Query.{trim, code_of_url, code_of_request_line}
use headless_mcp_server.OAuth2.State.{
  DiscoveredOAuth2, RefreshFailure, Manager, Answer, Env, Auth, auth_error, outside, ask,
}
use headless_mcp_server.OAuth2.Cache.{
  and_then, unwrap_or, current_client_id, set_dynamic_client_id, cache_token_response,
}
use headless_mcp_server.OAuth2.Discovery.{
  is_success, registration_endpoint, json_of, redirect_uri, register_client,
}

abbrev error_desc : Value → String
error_desc body = unwrap_or "unknown error" (then_str (get_field "error_description" body))

module _ {W : Type 0} (env : Env W) where
  -- The answer of the token endpoint.
  token_answer : String → ℕ → Value → Auth W String
  unfolding cache_token_response
  token_answer id status body m =
      let cached = cache_token_response env body id m in
      if is_success status then cached else (
        err (
            auth_error (
              "token endpoint returned "
              ∷ env.readers.show_status status
              ∷ ": "
              ∷ error_desc body
              ∷ [])),
        m,
      )

  -- A form sent to the token endpoint, and what its answer gives.
  unfoldable pub request_token : String → String → String → List (String × String) → Auth W String
  unfolding token_answer
  request_token failed id endpoint form = do
    answer ← ask failed (env.web.post_form endpoint form)
    body ← json_of env "failed to parse token response" answer
    token_answer id answer.status body

  abbrev pub has_registration : Manager W → Bool
  has_registration m = elim (and_then m.discovered registration_endpoint) [
    | none ↦ false
    | some e ↦ true
  ]

  abbrev pub remember : String × Option String → Auth W (String × String)
  remember (client_id, secret) m =
      (ok (client_id, unwrap_or "" secret), set_dynamic_client_id env client_id m)

  -- A client from dynamic registration, whose id is remembered for refreshes.
  abbrev pub registered_client : String → Auth W (String × String)
  registered_client missing m =
      let dynamic = (register_client env >>= remember) m in
      if has_registration m then dynamic else (err (auth_error (missing ∷ [])), m)

  abbrev pub client : String → Option String → Auth W (String × String)
  client missing none = registered_client missing
  client missing (some client_id) = lift (ok (client_id, unwrap_or "" env.config.client_secret))

  unfoldable pub do_client_credentials : String → String → Auth W String
  unfolding register_client set_dynamic_client_id request_token
  do_client_credentials endpoint id = do
    (client_id, secret) ←
        client "OAuth2 client_id not configured and no registration endpoint" env.config.client_id
    request_token "OAuth2 token request failed" id endpoint (
        ("grant_type", "client_credentials")
        ∷ ("client_id", client_id)
        ∷ ("client_secret", secret)
        ∷ ("scope", unwrap_or "mcp" env.config.scopes)
        ∷ [])

  unfoldable pub resolve_token_endpoint : Auth W String
  resolve_token_endpoint m =
      let discovered : Result String BackendError =
        ok_or (auth_error ("no OAuth2 token endpoint configured or discovered" ∷ []))
          (and_then m.discovered (λ d. some d.auth_server_metadata.token_endpoint)) in
      (
        elim env.config.token_endpoint [
          | none ↦ discovered
          | some endpoint ↦ if endpoint == "" then discovered else ok endpoint
        ],
        m,
      )

  unfoldable pub resolve_grant_type : String
  resolve_grant_type =
      if env.config.grant_type == "" then "client_credentials" else env.config.grant_type

  abbrev Refresh : Type 0
  Refresh = Exec (Manager W) RefreshFailure String

  -- `?` from a `BackendError`, which never says that the token was rejected.
  abbrev not_rejected : {A : Type 0} → Auth W A → Exec (Manager W) RefreshFailure A
  not_rejected n m = (map_err (λ e. record { error = e; rejected = false }) (n m).0, (n m).1)

  -- The answer to a refresh.
  refresh_answer : String → ℕ → Value → Refresh
  unfolding cache_token_response
  refresh_answer id status body m =
      let cached = not_rejected (cache_token_response env body id) m in
      if is_success status then cached else (
        err (record {
          error =
              auth_error (
                "refresh failed (" ∷ env.readers.show_status status ∷ "): " ∷ error_desc body ∷ []);
          rejected = eqb status 400 || eqb status 401;
        }),
        m,
      )

  abbrev refresh_form : String → Manager W → List (String × String)
  refresh_form refresh_token m =
      ("grant_type", "refresh_token")
      ∷ ("refresh_token", refresh_token)
      ∷ ("client_id", unwrap_or "" (current_client_id env m))
      ∷ ("client_secret", unwrap_or "" env.config.client_secret)
      ∷ []

  abbrev ask_refresh : String → String → Exec (Manager W) RefreshFailure Answer
  ask_refresh endpoint refresh_token m =
      not_rejected
        (ask "token refresh failed" (env.web.post_form endpoint (refresh_form refresh_token m))) m

  read_refresh : String → Answer → Refresh
  unfolding refresh_answer
  read_refresh id answer = do
    body ← not_rejected (json_of env "failed to parse refresh response" answer)
    refresh_answer id answer.status body

  unfoldable pub do_refresh : String → String → Refresh
  unfolding resolve_token_endpoint current_client_id read_refresh
  do_refresh refresh_token id = do
    endpoint ← not_rejected resolve_token_endpoint
    answer ← ask_refresh endpoint refresh_token
    read_refresh id answer
