-- ===== src/Registry/Invariant.antt =====
-- crates/registry/src/lib.rs: what holds of the registry in every reachable state.
pub mod Writes
pub mod Indexing
pub mod Connecting
pub mod Calls
pub mod Reachable
use mathlib.Core.Option
use headless_mcp_server.Prelude.{
  String, ◌≡◌, Bool, true, false, not, ◌&&◌, ◌||◌, Option, none, some, List, contains, is_empty,
}
use headless_mcp_server.Dict.{Dict, get, IsDistinct}
use headless_mcp_server.Json.{Value}
use headless_mcp_server.Core.{BackendDef}
use headless_mcp_server.Registry.Policy.{hidden_args, compute_exposed_name}
use headless_mcp_server.Registry.Policy.Schemas.{property}
use headless_mcp_server.Registry.State.{RoutedTool, BackendHandle, BackendRegistry, Hub}

abbrev pub Defs : Type 0
Defs = String → Option BackendDef

abbrev pub def_of : {W : Type 0} → BackendHandle W → BackendDef
def_of h = h.def

-- The definitions of the registered backends.
abbrev pub defs : {W : Type 0} → Hub W → Defs
defs s id = Option.map def_of (get id s.backends)

-- What the configuration says about exposing a tool, by its name at the backend.
abbrev pub is_exposed : BackendDef → String → Bool
is_exposed def name =
    (is_empty def.tools_allow || contains def.tools_allow name)
    && not (contains def.tools_deny name)

-- An entry of the tool index that agrees with the definition of its backend.
pub record IsRoute (ds : Defs) (name : String) (t : RoutedTool) : Type 0 where
  pub def : BackendDef
  pub owned : ds t.backend_id ≡ some def
  pub exposed : t.exposed_name ≡ name
  pub described : t.descriptor.name ≡ name
  pub computed : compute_exposed_name def.namespace t.downstream_name ≡ name
  pub allowed : is_exposed def t.downstream_name ≡ true
  pub stripped :
      (k : String)
      → contains (hidden_args def) k ≡ true
      → property k t.descriptor.input_schema ≡ none

pub record IsIndex (ds : Defs) (index : Dict RoutedTool) : Type 0 where
  pub distinct : IsDistinct index
  pub routes : (name : String) (t : RoutedTool) → get name index ≡ some t → IsRoute ds name t

-- No key stands twice in either map, a backend stands under its own id, and every indexed tool is
-- a tool that its backend, which is registered, may expose, under its computed name.
pub record IsWellFormed {W : Type 0} (s : Hub W) : Type 0 where
  pub distinct_backends : IsDistinct s.backends
  pub ids : (id : String) (def : BackendDef) → defs s id ≡ some def → def.id ≡ id
  pub indexed : IsIndex (defs s) s.tool_index
