-- ===== src/OAuth2/Discovery.antt =====
-- crates/backends/backend-http/src/oauth2.rs: discovery of the authorization server, and the
-- registration of a client there.
use headless_mcp_server.Prelude.{
  ℕ, String, Bool, ◌&&◌, Option, none, some, List, [], ◌∷◌, Result, ok, err, ok_or, map_err, ltb,
  not, concat, if◌then◌else◌,
}
use headless_mcp_server.Json.{Value, string, from_map, from_list, get_field}
use headless_mcp_server.Exec.{lift, ◌>>=◌, ◌>>◌, modify}
use headless_mcp_server.Server.Protocol.{then_str}
use headless_mcp_server.OAuth2.State.{
  AuthServerMetadata, DiscoveredOAuth2, Answer, Env, Auth, auth_error, ask,
}
use headless_mcp_server.OAuth2.Cache.{and_then}
use headless_mcp_server.Http.{contains_text}

abbrev pub is_success : ℕ → Bool
is_success status = not (ltb status 200) && ltb status 300

abbrev first : List String → Option String
first [] = none
first (s ∷ ss) = some s

abbrev pub registration_endpoint : DiscoveredOAuth2 → Option String
registration_endpoint d = d.auth_server_metadata.registration_endpoint

module _ {W : Type 0} (env : Env W) where
  -- `.json().await.map_err(…)?` at a type of its own.
  abbrev parsed : {A : Type 0} → String → (Value → Result A String) → Answer → Auth W A
  parsed what read answer = lift (
      map_err (λ e. auth_error (what ∷ ": " ∷ e ∷ []))
        (elim answer.json [ ok v ↦ read v | err e ↦ err e ]))

  -- `.json::<Value>()`
  abbrev pub json_of : String → Answer → Auth W Value
  json_of what answer = lift (map_err (λ e. auth_error (what ∷ ": " ∷ e ∷ [])) answer.json)

  abbrev server_url : Option (List String) → Option String
  server_url servers =
      and_then (and_then servers first)
        (λ url. some (concat (url ∷ "/.well-known/oauth-authorization-server" ∷ [])))

  -- The first half: the URL of the authorization server's metadata.
  auth_server_url : String → Auth W String
  unfolding contains_text
  auth_server_url discovery_url m =
      let fetched =
        (ask "failed to fetch resource metadata" (env.web.get discovery_url) >>= λ answer.
        parsed "failed to parse resource metadata" env.readers.resource_metadata answer
        >>= λ metadata. lift (
            ok_or (auth_error ("resource metadata has no authorization_servers" ∷ []))
              (server_url metadata.authorization_servers)))
          m in
      if contains_text "oauth-protected-resource" discovery_url
      then fetched
      else (ok discovery_url, m)

  abbrev discovered_from : AuthServerMetadata → DiscoveredOAuth2
  discovered_from metadata = record {
    resource_metadata = record {
      resource = "";
      authorization_servers = none;
      scopes_supported = metadata.scopes_supported;
      bearer_methods_supported = none;
      resource_name = none;
    };
    auth_server_metadata = metadata;
  }

  unfoldable pub discover : String → Auth W DiscoveredOAuth2
  unfolding auth_server_url
  discover discovery_url = do
    url ← auth_server_url discovery_url
    answer ← ask "failed to fetch auth server metadata" (env.web.get url)
    metadata ← parsed "failed to parse auth server metadata" env.readers.auth_server_metadata answer
    modify (λ m. record m { discovered = some (discovered_from metadata) })
    lift (ok (discovered_from metadata))

  abbrev pub redirect_uri : String
  redirect_uri =
      concat
        ("http://localhost:" ∷ env.readers.show_port env.config.callback_port ∷ "/callback" ∷ [])

  abbrev registration_body : Value
  registration_body = from_map (
      ("client_name", string "headless-mcp")
      ∷ ("redirect_uris", from_list (string redirect_uri ∷ []))
      ∷ ("grant_types", from_list (string "authorization_code" ∷ string "refresh_token" ∷ []))
      ∷ ("token_endpoint_auth_method", string "none")
      ∷ [])

  -- The answer of the registration endpoint.
  registered : ℕ → Value → Auth W (String × Option String)
  registered status reg m = (
    if is_success status
        then elim (then_str (get_field "client_id" reg)) [
          | none ↦ err (auth_error ("registration response missing client_id" ∷ []))
          | some client_id ↦ ok (client_id, then_str (get_field "client_secret" reg))
        ]
        else err (
            auth_error (
              "registration failed ("
              ∷ env.readers.show_status status
              ∷ "): "
              ∷ env.readers.show_value reg
              ∷ [])),
    m,
  )

  register_at : Option String → Auth W (String × Option String)
  unfolding registered
  register_at none = lift (ok ("", none))
  register_at (some endpoint) = do
    answer ← ask "dynamic client registration failed" (env.web.post_json endpoint registration_body)
    reg ← json_of "failed to parse registration response" answer
    registered answer.status reg

  unfoldable pub register_client : Auth W (String × Option String)
  unfolding register_at
  register_client m = register_at (and_then m.discovered registration_endpoint) m
