-- ===== src/Config/Raw.antt =====
-- crates/server/src/config.rs: the configuration as it is written, and as it is used.
use headless_mcp_server.Prelude.{ℕ, String, Bool, Option, List, Result}
use headless_mcp_server.Json.{Value}
use headless_mcp_server.Core.{BackendDef}

pub record RawExposeBackend : Type 0 where
  pub tools_allow : List String
  pub tools_deny : List String

pub record RawExposeBlock : Type 0 where
  pub port : ℕ
  pub label : Option String
  pub backends : List (String × RawExposeBackend)

pub record RawAuthConfig : Type 0 where
  pub hub_token : Option String
  pub rate_limit : ℕ

pub record RawOAuth2Config : Type 0 where
  pub token_endpoint : Option String
  pub client_id : Option String
  pub client_secret : Option String
  pub scopes : Option String
  pub grant_type : String
  pub callback_port : ℕ

-- `pin_args` is what `serde_json::to_value` makes of the TOML table.
pub record RawBackendConfig : Type 0 where
  pub transport : String
  pub command : Option String
  pub args : List String
  pub env : List (String × String)
  pub cwd : Option String
  pub url : Option String
  pub bearer_token : Option String
  pub oauth2 : Option RawOAuth2Config
  pub namespace : Option String
  pub connection_mode : String
  pub connect_timeout_secs : ℕ
  pub call_timeout_secs : ℕ
  pub stderr_mode : String
  pub tools_allow : List String
  pub tools_deny : List String
  pub pin_args : Result Value String
  pub deny_args : List String
  pub unavailable_hint : Option String
  pub forward_request_meta : Bool

-- A map of the configuration is the list of its entries, in the order in which it is walked.
pub record RawConfig : Type 0 where
  pub auth : Option RawAuthConfig
  pub backends : List (String × RawBackendConfig)
  pub expose : List RawExposeBlock

pub record ExposeBackendConfig : Type 0 where
  pub tools_allow : List String
  pub tools_deny : List String

pub record ExposeBlock : Type 0 where
  pub port : ℕ
  pub label : Option String
  pub backends : List (String × ExposeBackendConfig)

pub record AuthConfig : Type 0 where
  pub hub_token : Option String
  pub rate_limit : ℕ

pub record HubConfig : Type 0 where
  pub auth : Option AuthConfig
  pub backends : List BackendDef
  pub expose : List ExposeBlock
