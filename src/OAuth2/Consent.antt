-- ===== src/OAuth2/Consent.antt =====
-- crates/backends/backend-http/src/oauth2.rs: the authorization code grant, which asks a person.
pub mod Cached
use headless_mcp_server.Prelude.{
  ℕ, String, Bool, true, false, ◌||◌, not, Option, none, some, List, [], ◌∷◌, Result, ok, err,
  ok_or, map_err, concat, contains, eqb, ◌==◌, if◌then◌else◌,
}
use headless_mcp_server.Json.{Value, get_field}
use headless_mcp_server.Core.{BackendError}
use headless_mcp_server.Exec.{Exec, lift, raise, ◌>>=◌, ◌>>◌, modify}
use headless_mcp_server.Server.Protocol.{then_str}
use headless_mcp_server.OAuth2.Query.{trim, code_of_url, code_of_request_line}
use headless_mcp_server.OAuth2.State.{
  DiscoveredOAuth2, RefreshFailure, Manager, Answer, Env, Auth, auth_error, outside, ask,
}
use headless_mcp_server.OAuth2.Cache.{
  and_then, unwrap_or, current_client_id, set_dynamic_client_id, cache_token_response,
}
use headless_mcp_server.OAuth2.Discovery.{
  is_success, registration_endpoint, json_of, redirect_uri, register_client,
}
use headless_mcp_server.OAuth2.Grants.{request_token, client}
use headless_mcp_server.OAuth2.State.{Browser}

-- `(verifier, challenge)`
abbrev Pkce : Type 0
Pkce = String × String

abbrev join_spaces : List String → String
join_spaces [] = ""
join_spaces (s ∷ []) = s
join_spaces (s ∷ t ∷ more) = concat (s ∷ " " ∷ join_spaces (t ∷ more) ∷ [])

abbrev callback_response : String
callback_response =
    "HTTP/1.1 200 OK\r\nContent-Type: text/html\r\n\r\n<html><body><h1>Authorization Complete</h1><p>You can close this window.</p></body></html>"

module _ {W : Type 0} (env : Env W) (browser : Browser W) where
  abbrev generate_pkce_s256 : Manager W → Pkce × Manager W
  generate_pkce_s256 m = let (v, m') = outside browser.verifier m in ((v, browser.sha256 v), m')

  abbrev generate_pkce_plain : Manager W → Pkce × Manager W
  generate_pkce_plain m = let (v, m') = outside browser.verifier m in ((v, v), m')

  pkce_for : List String → Manager W → Pkce × Manager W
  pkce_for methods m =
      let s256 = generate_pkce_s256 m in
      let plain = generate_pkce_plain m in if contains methods "S256" then s256 else plain

  receive_callback : Auth W String
  unfolding code_of_request_line
  receive_callback = do
    ask "failed to bind callback server" (browser.bind env.config.callback_port)
    ask "callback server accept failed" browser.accept
    line ← ask "read request failed" browser.read_request_line
    code ←
        lift (
          ok_or (auth_error ("no authorization code in callback" ∷ [])) (code_of_request_line line))
    ask "write response failed" (browser.write_response callback_response)
    lift (ok code)

  pasted_code : Auth W String
  unfolding trim code_of_url
  pasted_code = do
    line ← ask "failed to read input" browser.read_stdin_line
    lift (
        ok_or (auth_error ("could not parse authorization code from input" ∷ []))
          (code_of_url (trim line)))

  abbrev auth_endpoint : String → Option DiscoveredOAuth2 → String
  auth_endpoint endpoint d =
      unwrap_or endpoint (and_then d (λ d'. d'.auth_server_metadata.authorization_endpoint))

  abbrev pkce_methods : Option DiscoveredOAuth2 → List String
  pkce_methods d =
      unwrap_or [] (and_then d (λ d'. d'.auth_server_metadata.code_challenge_methods_supported))

  abbrev scopes_of : Option String → Option DiscoveredOAuth2 → String
  scopes_of (some s) d = s
  scopes_of none d = unwrap_or "" (
      and_then (and_then d (λ d'. d'.auth_server_metadata.scopes_supported))
        (λ scopes. some (join_spaces scopes)))

  abbrev scope_suffix : String → String
  scope_suffix scopes = if scopes == "" then "" else concat ("&scope=" ∷ scopes ∷ [])

  auth_url : String → String → String → String → String
  auth_url endpoint client_id challenge scopes = concat (
      endpoint
      ∷ "?response_type=code&client_id="
      ∷ client_id
      ∷ "&redirect_uri="
      ∷ redirect_uri env
      ∷ "&code_challenge="
      ∷ challenge
      ∷ "&code_challenge_method=S256"
      ∷ scope_suffix scopes
      ∷ [])

  -- The code, by the callback of a browser that opens, else as it is pasted.
  authorization_code : String → Auth W String
  unfolding receive_callback pasted_code
  authorization_code url m =
      let (opened, m') = outside (browser.open_url url) m in
      let called_back = receive_callback m' in
      let pasted = pasted_code m' in if opened then called_back else pasted

  -- `do_authorization_code` once the client is known.
  authorize : String → String → String → Option DiscoveredOAuth2 → Auth W String
  unfolding pkce_for auth_url authorization_code request_token
  authorize endpoint id client_id d m =
      let ((verifier, challenge), m') = pkce_for (pkce_methods d) m in
      (authorization_code (
            auth_url (auth_endpoint endpoint d) client_id challenge
              (scopes_of env.config.scopes m'.discovered))
          >>= λ code. request_token env "token request failed" id endpoint (
              ("grant_type", "authorization_code")
              ∷ ("client_id", client_id)
              ∷ ("code", code)
              ∷ ("redirect_uri", redirect_uri env)
              ∷ ("code_verifier", verifier)
              ∷ []))
        m'

  unfoldable pub do_authorization_code : String → String → Auth W String
  unfolding register_client set_dynamic_client_id authorize
  do_authorization_code endpoint id m =
      (client env "OAuth2 client_id not configured and no registration endpoint discovered"
            env.config.client_id
          >>= λ chosen. authorize endpoint id chosen.0 m.discovered)
        m
