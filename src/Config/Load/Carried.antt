-- ===== src/Config/Load/Carried.antt =====
-- crates/server/src/config.rs: what a configuration that is taken carries over.
use headless_mcp_server.Prelude.{String, ◌≡◌, List, [], ◌∷◌, ok, ◌≢◌, map, some}
use mathlib.Core.Option
use headless_mcp_server.Json.{Value, object, Fields, Map, props}
use headless_mcp_server.Core.{BackendDef, BackendTransport, stdio, http}
use headless_mcp_server.Config.Placeholders.{Environment, resolve_value}
use headless_mcp_server.Config.Raw.{RawBackendConfig}
use headless_mcp_server.Config.Load.{oauth2_of}

-- The pinned arguments that a value stands for: the members of an object, and none otherwise.
pub data Pins : Value → Map → Type 0 where
  members : (fs : Fields) → Pins (object fs) (props fs)
  no_object : (v : Value) → ((fs : Fields) → v ≢ object fs) → Pins v []

-- The transport of an entry: a process with its command, arguments, variables and directory, or a
-- server with its URL and credentials. Variables and credentials have their placeholders resolved.
pub data IsTransport (env : Environment) (bc : RawBackendConfig) : BackendTransport → Type 0 where
  by_stdio :
      (command : String)
      → bc.transport ≡ "stdio"
      → bc.command ≡ some command
      → IsTransport env bc
          (stdio command bc.args (map (λ (k, v). (k, resolve_value env v)) bc.env) bc.cwd)
  by_http :
      (url : String)
      → bc.transport ≡ "http"
      → bc.url ≡ some url
      → IsTransport env bc (
          http url
            (Option.map (resolve_value env) bc.bearer_token)
            (Option.map (oauth2_of env) bc.oauth2))

-- What a definition keeps of its entry.
pub record Carries (env : Environment) (id : String) (bc : RawBackendConfig) (def : BackendDef)
    : Type 0 where
  pub same_id : def.id ≡ id
  pub transport : IsTransport env bc def.transport
  pub pins : (v : Value) × (bc.pin_args ≡ ok v) × Pins v def.pin_args
  pub connect_timeout : def.connect_timeout_secs ≡ bc.connect_timeout_secs
  pub call_timeout : def.call_timeout_secs ≡ bc.call_timeout_secs
  pub hint : def.unavailable_hint ≡ bc.unavailable_hint
  pub allow : def.tools_allow ≡ bc.tools_allow
  pub deny : def.tools_deny ≡ bc.tools_deny
  pub deny_args : def.deny_args ≡ bc.deny_args
  pub namespace : def.namespace ≡ bc.namespace
  pub forward_meta : def.forward_request_meta ≡ bc.forward_request_meta

pub data CarriesAll (env : Environment)
    : List (String × RawBackendConfig) → List BackendDef → Type 0 where
  nil : CarriesAll env [] []
  cons :
      {id : String} {bc : RawBackendConfig} {def : BackendDef}
      {more : List (String × RawBackendConfig)} {defs : List BackendDef}
      → Carries env id bc def
      → CarriesAll env more defs
      → CarriesAll env ((id, bc) ∷ more) (def ∷ defs)
