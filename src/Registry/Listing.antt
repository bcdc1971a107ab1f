-- ===== src/Registry/Listing.antt =====
-- crates/registry/src/lib.rs: the aggregated tool list and the backends of a capability.
pub mod Laws
use headless_mcp_server.Prelude.{
  String, Bool, true, false, not, ◌&&◌, Option, none, some, List, [], ◌∷◌, map, keep, ◌==◌,
  if◌then◌else◌, sort_by,
}
use headless_mcp_server.Dict.{Dict, get}
use headless_mcp_server.Core.{ToolDescriptor, ServerCapabilities}
use headless_mcp_server.Registry.State.{RoutedTool, BackendHandle, Hub, is_healthy}

abbrev pub values {ℓ} : {V : Type ℓ} → Dict V → List V
values [] = []
values ((k, v) ∷ m) = v ∷ values m

abbrev pub is_some {ℓ} : {A : Type ℓ} → Option A → Bool
is_some none = false
is_some (some a) = true

abbrev pub descriptor_name : ToolDescriptor → String
descriptor_name d = d.name

abbrev pub descriptor_of : RoutedTool → ToolDescriptor
descriptor_of t = t.descriptor

abbrev pub itself : String → String
itself id = id

abbrev advertises : String → ServerCapabilities → Bool
advertises capability c =
    if capability == "resources"
    then is_some c.resources
    else if capability == "events"
    then is_some c.events
    else if capability == "tools"
    then is_some c.tools
    else false

abbrev pub advertised : String → Option ServerCapabilities → Bool
advertised capability none = false
advertised capability (some c) = advertises capability c

module _ {W : Type 0} where
  abbrev pub is_served : Hub W → RoutedTool → Bool
  is_served s t = is_healthy t.backend_id s

  unfoldable pub aggregated_tools : Hub W → List ToolDescriptor
  unfolding is_healthy sort_by
  aggregated_tools s =
      sort_by descriptor_name (map descriptor_of (keep (is_served s) (values s.tool_index)))

  abbrev ids_of : String → Dict (BackendHandle W) → List String
  ids_of capability [] = []
  ids_of capability ((id, h) ∷ m) =
      let rest = ids_of capability m in
      if h.health && advertised capability h.capabilities then id ∷ rest else rest

  unfoldable pub backends_with : String → Hub W → List String
  unfolding sort_by
  backends_with capability s = sort_by itself (ids_of capability s.backends)
