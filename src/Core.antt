-- ===== src/Core.antt =====
-- crates/core: backend errors, backend definitions and the interface of a connected backend.
pub mod Unconnected
use headless_mcp_server.Prelude.{
  ℕ, String, Bool, false, Option, none, List, [], ◌∷◌, concat, Result, err,
}
use headless_mcp_server.Json.{Value, Map}

pub data BackendErrorKind : Type 0 where
  connection auth timeout protocol internal : BackendErrorKind

pub record BackendError : Type 0 where
  pub kind : BackendErrorKind
  pub message : String
  pub detail : Option String

abbrev pub backend_error : BackendErrorKind → String → BackendError
backend_error kind message = record { kind = kind; message = message; detail = none }

abbrev pub BackendResult : Type 0 → Type 0
BackendResult A = Result A BackendError

pub data ConnectionMode : Type 0 where
  eager lazy per_call : ConnectionMode

pub data StderrMode : Type 0 where
  log_on_error silent passthrough log_always : StderrMode

pub record OAuth2Config : Type 0 where
  pub token_endpoint : Option String
  pub client_id : Option String
  pub client_secret : Option String
  pub scopes : Option String
  pub grant_type : String
  pub callback_port : ℕ

pub data BackendTransport : Type 0 where
  stdio : String → List String → List (String × String) → Option String → BackendTransport
  http : String → Option String → Option OAuth2Config → BackendTransport

pub record BackendDef : Type 0 where
  pub id : String
  pub label : Option String
  pub transport : BackendTransport
  pub namespace : Option String
  pub connection_mode : ConnectionMode
  pub connect_timeout_secs : ℕ
  pub call_timeout_secs : ℕ
  pub stderr_mode : StderrMode
  pub tools_allow : List String
  pub tools_deny : List String
  pub unavailable_hint : Option String
  pub forward_request_meta : Bool
  pub pin_args : Map
  pub deny_args : List String

pub record ServerInfo : Type 0 where
  pub name : String
  pub version : String

pub record ToolsCapability : Type 0 where
  pub list_changed : Bool

pub record ResourcesCapability : Type 0 where
  pub subscribe : Bool
  pub list_changed : Bool

pub record PromptsCapability : Type 0 where
  pub list_changed : Bool

pub record ServerCapabilities : Type 0 where
  pub tools : Option ToolsCapability
  pub resources : Option ResourcesCapability
  pub prompts : Option PromptsCapability
  pub events : Option Value

pub record InitializeResult : Type 0 where
  pub protocol_version : String
  pub server_info : ServerInfo
  pub capabilities : ServerCapabilities

pub record ToolDescriptor : Type 0 where
  pub name : String
  pub description : String
  pub input_schema : Value

-- The trait `McpBackend`. `W` is all that the backends' own state and their servers consist of; a
-- method runs in it to its end. A timeout is in seconds.
pub record McpBackend (W : Type 0) : Type 0 where
  pub backend_id : String
  pub connect : W → BackendResult InitializeResult × W
  pub list_tools : W → BackendResult (List ToolDescriptor) × W
  pub call_tool : String → Option Value → ℕ → W → BackendResult Value × W
  pub disconnect : W → BackendResult (Unit {0}) × W
  pub health_check : W → BackendResult (Unit {0}) × W
  pub request : String → Option Value → ℕ → W → BackendResult Value × W
  pub take_tools_refresh : W → Bool × W

-- The trait's own bodies of `request` and `take_tools_refresh`.
pub default_request : {W : Type 0} → String → String → W → BackendResult Value × W
default_request backend_id method w = (
  err (
      backend_error internal
        (concat ("backend '" ∷ backend_id ∷ "' does not support '" ∷ method ∷ "'" ∷ []))),
  w,
)

pub default_take_tools_refresh : {W : Type 0} → W → Bool × W
default_take_tools_refresh w = (false, w)
