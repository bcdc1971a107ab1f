-- ===== src/OAuth2/Consent/Cached.antt =====
-- crates/backends/backend-http/src/oauth2.rs: a token for a consent is the cached one.
use headless_mcp_server.Prelude.{String, Option}
use headless_mcp_server.OAuth2.State.{Browser, Manager, Env}
use headless_mcp_server.OAuth2.Grants.Cached.{Gives, request_token-Gives}
use headless_mcp_server.OAuth2.Consent.{authorization_code, authorize, do_authorization_code}
use headless_mcp_server.OAuth2.Grants.{client}
use headless_mcp_server.OAuth2.State.{DiscoveredOAuth2}
use headless_mcp_server.OAuth2.Grants.Cached.{bind-Gives}

module _ {W : Type 0} (env : Env W) (browser : Browser W) where
  authorize-Gives :
      (endpoint id client_id : String) (d : Option DiscoveredOAuth2) (m : Manager W)
      → Gives
          (authorize env browser endpoint id client_id d m).0
          (authorize env browser endpoint id client_id d m).1
  unfolding authorize
  authorize-Gives endpoint id client_id d m =
      bind-Gives (authorization_code env browser _) _ _
        λ code _. request_token-Gives env "token request failed" id endpoint _ _

  pub do_authorization_code-Gives :
      (endpoint id : String) (m : Manager W)
      → Gives
          (do_authorization_code env browser endpoint id m).0
          (do_authorization_code env browser endpoint id m).1
  unfolding do_authorization_code
  do_authorization_code-Gives endpoint id m =
      bind-Gives (client env _ env.config.client_id) _ m
        λ chosen _. authorize-Gives endpoint id chosen.0 m.discovered _
