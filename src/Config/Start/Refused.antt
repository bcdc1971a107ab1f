-- ===== src/Config/Start/Refused.antt =====
-- crates/server/src/config.rs and main.rs: a hub whose token is not set does not start to listen.
use mathlib.Core.Option
use headless_mcp_server.Prelude.{String, map, ◌≡◌, none, some, [], ◌∷◌, ok, err, concat, bind-eq-ok}
use headless_mcp_server.Server.State.{McpSession}
use headless_mcp_server.Http.{Libraries, run_http}
use headless_mcp_server.Config.Placeholders.{Environment, unresolved}
use headless_mcp_server.Config.Placeholders.Laws.{
  IsName, IsPlain, env_placeholder, unresolved_token-refused,
}
use headless_mcp_server.Config.Raw.{RawAuthConfig, RawConfig, HubConfig}
use headless_mcp_server.Config.Load.{auth_of, expose_block, backends_of, resolved_config}
use headless_mcp_server.Config.Start.{http_config}

-- If the hub's token in the configuration file is the placeholder of a variable that is not set,
-- the HTTP transport that is started with the loaded configuration refuses to start, and the error
-- shows the token with the mark. The name of the variable ends where the braces of the placeholder
-- stand, and holds no placeholder itself.
pub unset_token-refused :
    (env : Environment) {I L W : Type 0} (lib : Libraries I L) (session : McpSession W)
    (raw : RawConfig) (auth : RawAuthConfig) (cfg : HubConfig) (name : String)
    → raw.auth ≡ some auth
    → auth.hub_token ≡ some (env_placeholder name)
    → env.var name ≡ none
    → IsName name
    → IsPlain (unresolved name)
    → resolved_config env raw ≡ ok cfg
    → run_http lib session (http_config env cfg)
      ≡ err (
          concat (
            "refusing to start: bearer token still contains an unresolved placeholder ("
            ∷ unresolved name
            ∷ "); the referenced variable is not set"
            ∷ []))
unfolding resolved_config
unset_token-refused env lib session raw auth cfg name has_auth has_token unset is_name plain h =
    let (backends, _, taken) = bind-eq-ok (backends_of env raw.backends) _ h in
    let same : record {
      auth = Option.map (auth_of env) raw.auth;
      backends = backends;
      expose = map expose_block raw.expose;
    }
        ≡ cfg =
      cc in
    rw (← same) (
      rw has_auth (
        rw has_token
          (unresolved_token-refused env lib session auth.rate_limit name unset is_name plain)))
