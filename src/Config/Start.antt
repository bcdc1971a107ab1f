-- ===== src/Config/Start.antt =====
-- crates/server/src/main.rs: what the HTTP listeners are started with.
pub mod Refused
use headless_mcp_server.Prelude.{ℕ, String, Option, none, some}
use headless_mcp_server.OAuth2.Cache.{unwrap_or}
use headless_mcp_server.Http.{HttpTransportConfig}
use headless_mcp_server.Config.Placeholders.{Environment}
use headless_mcp_server.Config.Raw.{AuthConfig, HubConfig}

abbrev default_rate_limit : ℕ
default_rate_limit = 120

-- `cfg.auth.as_ref().and_then(|a| a.hub_token.clone())`
abbrev configured : Option AuthConfig → Option String
configured none = none
configured (some a) = a.hub_token

abbrev rate_limit_of : Option AuthConfig → ℕ
rate_limit_of none = default_rate_limit
rate_limit_of (some a) = a.rate_limit

-- The configuration of a listener, less its address.
abbrev pub http_config : Environment → HubConfig → HttpTransportConfig
http_config env cfg = record {
  bearer_token = unwrap_or (unwrap_or "" (env.var "HEADLESS_MCP_TOKEN")) (configured cfg.auth);
  rate_limit_per_minute = rate_limit_of cfg.auth;
}
