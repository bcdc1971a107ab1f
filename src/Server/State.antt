-- ===== src/Server/State.antt =====
-- crates/mcp-server/src/session.rs, audit.rs: the state of a session, and how it uses the registry.
use headless_mcp_server.Prelude.{
  String, Bool, false, ◌||◌, Option, List, [], ◌∷◌, ◌++◌, Result, ok, err, if◌then◌else◌,
}
use headless_mcp_server.Exec.{Exec}
use headless_mcp_server.Dict.{Dict}
use headless_mcp_server.Json.{ℤ, Value}
use headless_mcp_server.Core.{BackendResult}
use headless_mcp_server.Wire.JsonRpc.{JsonRpcError, invalid_request}
use headless_mcp_server.Registry.State.{Hub, Task}
use headless_mcp_server.Server.Protocol.{RequestCtx, is_modern}

pub data AuditOutcome : Type 0 where
  fine : AuditOutcome
  failed : ℤ → AuditOutcome

abbrev pub from_result {ℓ} : {A : Type ℓ} → Result A JsonRpcError → AuditOutcome
from_result (ok a) = fine
from_result (err e) = failed e.code

pub record AuditEvent : Type 0 where
  pub method : String
  pub tool_name : Option String
  pub outcome : AuditOutcome

pub data Change : Type 0 where
  tools_list_changed : Change

-- `audit` is what the logger was told so far, and `changes` what was sent to the broadcast channel,
-- each in order.
pub record McpSession (W : Type 0) : Type 0 where
  pub hub : Hub W
  pub audit : List AuditEvent
  pub initialized : Bool
  pub changes : List Change
  pub resource_owners : Dict String

pub record ToolCallParams : Type 0 where
  pub name : String
  pub arguments : Option Value
  pub meta : Option Value
  pub request_state : Option String
  pub input_responses : Option Value

-- What the session takes from serde_json: `from_value` at `ToolCallParams`, whose error is the text
-- of its message, and `to_string_pretty`.
pub record Codec : Type 0 where
  pub from_value : Value → Result ToolCallParams String
  pub to_string_pretty : Value → String

abbrev pub Handler : Type 0 → Type 0 → Type 0
Handler W A = Exec (McpSession W) JsonRpcError A

abbrev pub new : {W : Type 0} → Hub W → McpSession W
new hub = record { hub = hub; audit = []; initialized = false; changes = []; resource_owners = [] }

abbrev pub not_initialized : JsonRpcError
not_initialized = invalid_request "session is not initialized; call \"initialize\" first"

module _ {W : Type 0} where
  -- A call of an operation of the registry.
  abbrev pub use_registry : {A : Type 0} → Task W A → McpSession W → BackendResult A × McpSession W
  use_registry m s = let (r, hub) = m s.hub in (r, record s { hub = hub })

  unfoldable pub notify_tools_list_changed : McpSession W → McpSession W
  notify_tools_list_changed s = record s { changes = s.changes ++ tools_list_changed ∷ [] }

  unfoldable pub require_initialized : RequestCtx → Handler W (Unit {0})
  require_initialized ctx s =
      (if is_modern ctx || s.initialized then ok tt else err not_initialized, s)
