-- ===== src/Config/Load.antt =====
-- crates/server/src/config.rs: `find_config_file` and `load_config`.
pub mod Carried
pub mod Usable
use mathlib.Core.Option
use headless_mcp_server.Prelude.{
  ℕ, String, ◌==◌, Bool, true, false, ◌||◌, Option, none, some, List, [], ◌∷◌, map, Result, ok, err,
  ok_or, map_err, ◌>>=◌, concat, if◌then◌else◌,
}
use headless_mcp_server.Json.{Value, Map, as_object}
use headless_mcp_server.Core.{
  BackendDef, BackendTransport, stdio, http, OAuth2Config, ConnectionMode, eager, lazy, per_call,
  StderrMode, log_on_error, silent, passthrough, log_always,
}
use headless_mcp_server.OAuth2.Cache.{or_else, unwrap_or}
use headless_mcp_server.Config.Placeholders.{Environment, resolve_value}
use headless_mcp_server.Config.Raw.{
  RawExposeBackend, RawExposeBlock, RawAuthConfig, RawOAuth2Config, RawBackendConfig, RawConfig,
  ExposeBackendConfig, ExposeBlock, AuthConfig, HubConfig,
}

-- The files of the disk, and the reader of TOML.
pub record Files : Type 0 where
  pub exists : String → Bool
  pub read_to_string : String → Result String String
  pub from_toml : String → Result RawConfig String
  pub join : String → String → String

abbrev if_exists : Files → String → Option String
if_exists files path = if files.exists path then some path else none

abbrev explicit_file : Files → Option String → Option String
explicit_file files none = none
explicit_file files (some path) = if_exists files path

abbrev user_file : Files → Option String → Option String
user_file files none = none
user_file files (some home) =
    if_exists files
      (files.join (files.join (files.join home ".config") "headless-mcp") "config.toml")

abbrev backend_says : {A : Type 0} → String → List String → Result A String
backend_says id pieces = err (concat ("backend '" ∷ id ∷ "': " ∷ concat pieces ∷ []))

unfoldable pub connection_mode_of : String → String → Result ConnectionMode String
connection_mode_of id mode =
    if mode == "" || mode == "eager"
    then ok eager
    else if mode == "lazy"
    then ok lazy
    else if mode == "per-call" || mode == "per_call"
    then ok per_call
    else backend_says id ("unknown connection_mode '" ∷ mode ∷ "'" ∷ [])

unfoldable pub stderr_mode_of : String → String → Result StderrMode String
stderr_mode_of id mode =
    if mode == "" || (mode == "log-on-error" || mode == "log_on_error")
    then ok log_on_error
    else if mode == "silent"
    then ok silent
    else if mode == "passthrough"
    then ok passthrough
    else if mode == "log-always" || mode == "log_always"
    then ok log_always
    else backend_says id ("unknown stderr_mode '" ∷ mode ∷ "'" ∷ [])

-- The needed field of a transport.
abbrev pub required : String → String → String → Option String → Result String String
required id field kind none =
    backend_says id ("missing '" ∷ field ∷ "' for " ∷ kind ∷ " transport" ∷ [])
required id field kind (some v) = ok v

abbrev pub expose_block : RawExposeBlock → ExposeBlock
expose_block eb = record {
  port = eb.port;
  label = eb.label;
  backends =
      map (λ (id, b). (id, record { tools_allow = b.tools_allow; tools_deny = b.tools_deny }))
        eb.backends;
}

module _ (env : Environment) (files : Files) where
  -- `find_config_file`, and the user's home.
  unfoldable pub find_config_file : Option String → Option String
  find_config_file explicit =
      or_else (explicit_file files explicit)
        (or_else (if_exists files "./headless-mcp.toml") (user_file files (env.var "HOME")))

module _ (env : Environment) where
  abbrev resolved : Option String → Option String
  resolved = Option.map (resolve_value env)

  abbrev pub oauth2_of : RawOAuth2Config → OAuth2Config
  oauth2_of o = record {
    token_endpoint = o.token_endpoint;
    client_id = resolved o.client_id;
    client_secret = resolved o.client_secret;
    scopes = o.scopes;
    grant_type = o.grant_type;
    callback_port = o.callback_port;
  }

  abbrev pub stdio_of : RawBackendConfig → String → BackendTransport
  stdio_of bc command =
      stdio command bc.args (map (λ (k, v). (k, resolve_value env v)) bc.env) bc.cwd

  abbrev pub http_of : RawBackendConfig → String → BackendTransport
  http_of bc url = http url (resolved bc.bearer_token) (Option.map oauth2_of bc.oauth2)

  unfoldable pub transport_of : String → RawBackendConfig → Result BackendTransport String
  unfolding resolve_value
  transport_of id bc =
      if bc.transport == "stdio"
      then (do command ← required id "command" "stdio" bc.command; ok (stdio_of bc command))
      else if bc.transport == "http"
      then (do url ← required id "url" "http" bc.url; ok (http_of bc url))
      else backend_says id ("unknown transport '" ∷ bc.transport ∷ "'" ∷ [])

  abbrev pub definition_of :
      String
      → RawBackendConfig
      → BackendTransport
      → ConnectionMode
      → StderrMode
      → Value
      → BackendDef
  definition_of id bc transport mode stderr pins = record {
    id = id;
    label = none;
    transport = transport;
    namespace = bc.namespace;
    connection_mode = mode;
    connect_timeout_secs = bc.connect_timeout_secs;
    call_timeout_secs = bc.call_timeout_secs;
    stderr_mode = stderr;
    tools_allow = bc.tools_allow;
    tools_deny = bc.tools_deny;
    unavailable_hint = bc.unavailable_hint;
    forward_request_meta = bc.forward_request_meta;
    pin_args = unwrap_or [] (as_object pins);
    deny_args = bc.deny_args;
  }

  unfoldable pub backend_of : String → RawBackendConfig → Result BackendDef String
  unfolding transport_of connection_mode_of stderr_mode_of
  backend_of id bc = do
    transport ← transport_of id bc
    mode ← connection_mode_of id bc.connection_mode
    stderr ← stderr_mode_of id bc.stderr_mode
    pins ← bc.pin_args
    ok (definition_of id bc transport mode stderr pins)

  unfoldable pub backends_of : List (String × RawBackendConfig) → Result (List BackendDef) String
  unfolding backend_of
  backends_of [] = ok []
  backends_of ((id, bc) ∷ more) = do
    def ← backend_of id bc
    defs ← backends_of more
    ok (def ∷ defs)

  abbrev pub auth_of : RawAuthConfig → AuthConfig
  auth_of a = record { hub_token = resolved a.hub_token; rate_limit = a.rate_limit }

  -- `load_config` from the parsed file on.
  unfoldable pub resolved_config : RawConfig → Result HubConfig String
  unfolding backends_of resolve_value
  resolved_config raw = do
    backends ← backends_of raw.backends
    ok (record {
      auth = Option.map auth_of raw.auth;
      backends = backends;
      expose = map expose_block raw.expose;
    })

module _ (env : Environment) (files : Files) where
  unfoldable pub load_config : Option String → Result HubConfig String
  unfolding find_config_file resolved_config
  load_config explicit = do
    path ←
        ok_or
          "no config file found. Create one at ./headless-mcp.toml or ~/.config/headless-mcp/config.toml"
          (find_config_file env files explicit)
    raw ← files.read_to_string path
    parsed ← files.from_toml raw
    resolved_config env parsed
