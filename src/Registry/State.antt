-- ===== src/Registry/State.antt =====
-- crates/registry/src/lib.rs: the state of the registry, and the operations that read it.
use headless_mcp_server.Prelude.{
  ℕ, String, Bool, true, false, Option, none, some, List, [], ◌∷◌, ok_or, concat, strip_prefix,
  find_map, if◌then◌else◌,
}
use headless_mcp_server.Exec.{Exec}
use headless_mcp_server.Dict.{Dict, get, contains_key, update, keys}
use headless_mcp_server.Core.{
  BackendDef, BackendError, BackendResult, backend_error, internal, McpBackend, ServerCapabilities,
  ToolDescriptor,
}

pub record RoutedTool : Type 0 where
  pub backend_id : String
  pub exposed_name : String
  pub downstream_name : String
  pub descriptor : ToolDescriptor

pub record BackendHandle (W : Type 0) : Type 0 where
  pub def : BackendDef
  pub backend : McpBackend W
  pub health : Bool
  pub capabilities : Option ServerCapabilities
  pub reconnect_attempts : ℕ

pub record BackendRegistry (W : Type 0) : Type 0 where
  pub backends : Dict (BackendHandle W)
  pub tool_index : Dict RoutedTool

-- The registry together with the world that its backends run in.
pub record Hub (W : Type 0) : Type 0 where
  pub registry : BackendRegistry W
  pub open registry use *
  pub world : W

abbrev pub Task : Type 0 → Type 0 → Type 0
Task W A = Exec (Hub W) BackendError A

abbrev pub new : {W : Type 0} → W → Hub W
new w = record { registry = record { backends = []; tool_index = [] }; world = w }

abbrev pub not_registered : String → BackendError
not_registered id = backend_error internal (concat ("backend '" ∷ id ∷ "' is not registered" ∷ []))

abbrev starts_with_dot : Option String → Bool
starts_with_dot none = false
starts_with_dot (some rest) = elim (strip_prefix "." rest) [ none ↦ false | some _ ↦ true ]

abbrev in_namespace : String → Option String → Bool
in_namespace name none = false
in_namespace name (some ns) = starts_with_dot (strip_prefix ns name)

module _ {W : Type 0} where
  -- An awaited call of a backend.
  abbrev pub call : {A : Type 0} → (W → BackendResult A × W) → Task W A
  call f s = ((f s.world).0, record s { world = (f s.world).1 })

  abbrev pub set_backends : Dict (BackendHandle W) → Hub W → Hub W
  set_backends bs s = record s { registry = record s.registry { backends = bs } }

  abbrev pub set_tool_index : Dict RoutedTool → Hub W → Hub W
  set_tool_index ts s = record s { registry = record s.registry { tool_index = ts } }

  -- A write through the locks of one handle, if it is still there.
  abbrev pub change : String → (BackendHandle W → BackendHandle W) → Hub W → Hub W
  change id f s = set_backends (update id f s.backends) s

  abbrev pub find_backend : String → Task W (BackendHandle W)
  find_backend id s = (ok_or (not_registered id) (get id s.backends), s)

  -- `backends.get(id).map(f).unwrap_or(d)` and the like.
  abbrev pub with_backend {ℓ} : {A : Type ℓ} → A → (BackendHandle W → A) → String → Hub W → A
  with_backend d f id s = elim (get id s.backends) [ none ↦ d | some h ↦ f h ]

  unfoldable pub is_healthy : String → Hub W → Bool
  unfolding get
  is_healthy = with_backend false (λ h. h.health)

  unfoldable pub unavailable_hint : String → Hub W → Option String
  unfolding get
  unavailable_hint = with_backend none (λ h. h.def.unavailable_hint)

  unfoldable pub forwards_request_meta : String → Hub W → Bool
  unfolding get
  forwards_request_meta = with_backend false (λ h. h.def.forward_request_meta)

  unfoldable pub namespace : String → Hub W → Option String
  unfolding get
  namespace = with_backend none (λ h. h.def.namespace)

  pub backend_ids : Hub W → List String
  unfolding keys
  backend_ids s = keys s.backends

  unfoldable pub has_tool : String → Hub W → Bool
  unfolding contains_key
  has_tool name s = contains_key name s.tool_index

  abbrev claims : String → String × BackendHandle W → Option String
  claims name (id, h) = if in_namespace name h.def.namespace then some id else none

  unfoldable pub backend_of_tool : String → Hub W → Option String
  unfolding get strip_prefix
  backend_of_tool name s = elim (get name s.tool_index) [
    | some routed ↦ some routed.backend_id
    | none ↦ find_map (claims name) s.backends
  ]
