-- ===== src/Registry/Connect.antt =====
-- crates/registry/src/lib.rs: registering, connecting and indexing backends.
use headless_mcp_server.Prelude.{
  String, Bool, true, false, not, none, some, List, [], ◌∷◌, ok, err, concat, contains, is_empty,
  keep, ◌==◌, if◌then◌else◌,
}
use headless_mcp_server.Exec.{ignore, modify, ◌>>=◌, ◌>>◌}
use headless_mcp_server.Dict.{Dict, get, contains_key, insert, retain, remove}
use headless_mcp_server.Core.{
  BackendDef, BackendError, BackendResult, backend_error, internal, McpBackend, ToolDescriptor,
  ServerCapabilities, eager, lazy, per_call,
}
use headless_mcp_server.Registry.Policy.{hidden_args, strip_schema_args, compute_exposed_name}
use headless_mcp_server.Registry.State.{
  RoutedTool, BackendHandle, Hub, Task, call, set_backends, set_tool_index, change, find_backend,
}

-- The allow list, if there is one, then the deny list.
unfoldable pub filter_tools : BackendDef → List ToolDescriptor → List ToolDescriptor
filter_tools def tools =
    let allowed =
      if is_empty def.tools_allow
      then tools
      else keep (λ (t : ToolDescriptor). contains def.tools_allow t.name) tools in
    if is_empty def.tools_deny
    then allowed
    else keep (λ (t : ToolDescriptor). not (contains def.tools_deny t.name)) allowed

abbrev pub routed_tool : String → BackendDef → ToolDescriptor → RoutedTool
routed_tool id def tool =
    let exposed_name = compute_exposed_name def.namespace tool.name in
    record {
      backend_id = id;
      exposed_name = exposed_name;
      downstream_name = tool.name;
      descriptor = record {
        name = exposed_name;
        description = tool.description;
        input_schema = strip_schema_args tool.input_schema (hidden_args def);
      };
    }

abbrev pub collision : String → String → String → BackendError
collision existing id exposed_name = backend_error internal (
    concat (
      "tool name collision: both backend '" ∷ existing ∷ "' and backend '" ∷ id ∷ "' expose '"
      ∷ exposed_name ∷ "'. Add a namespace." ∷ []))

-- The loop over the tools; what it inserted before a collision stays.
unfoldable pub index_tools :
    String
    → BackendDef
    → List ToolDescriptor
    → Dict RoutedTool
    → BackendResult (Unit {0}) × Dict RoutedTool
index_tools id def [] index = (ok tt, index)
index_tools id def (tool ∷ tools) index =
    let routed = routed_tool id def tool in
    elim (get routed.exposed_name index) [
      | some existing ↦ (err (collision existing.backend_id id routed.exposed_name), index)
      | none ↦ index_tools id def tools (insert routed.exposed_name routed index)
    ]

abbrev pub of_others : String → String → RoutedTool → Bool
of_others id name routed = not (routed.backend_id == id)

module _ {W : Type 0} where
  unfoldable pub register : BackendDef → McpBackend W → Task W (Unit {0})
  unfolding contains_key insert
  register def backend s =
      if contains_key def.id s.backends
      then (
        err (
            backend_error internal
              (concat ("backend '" ∷ def.id ∷ "' is already registered" ∷ []))),
        s,
      )
      else (
        ok tt,
        set_backends
            (insert def.id
              (record {
                def = def;
                backend = backend;
                health = false;
                capabilities = none;
                reconnect_attempts = 0;
              })
              s.backends)
            s,
      )

  unfoldable pub unregister : String → Task W (Unit {0})
  unfolding remove retain
  unregister id = do
    handle ← find_backend id
    modify (λ s. set_backends (remove id s.backends) s)
    modify (λ s. set_tool_index (retain (of_others id) s.tool_index) s)
    call handle.backend.disconnect

  abbrev pub set_capabilities : ServerCapabilities → BackendHandle W → BackendHandle W
  set_capabilities c h = record h { capabilities = some c }

  abbrev pub mark_healthy : BackendHandle W → BackendHandle W
  mark_healthy h = record h { health = true; reconnect_attempts = 0 }

  -- The part of `connect_backend` under the write lock of the index.
  unfoldable pub index_backend : String → BackendDef → List ToolDescriptor → Task W (Unit {0})
  unfolding index_tools retain
  index_backend id def tools s =
      let (r, index) = index_tools id def tools (retain (of_others id) s.tool_index) in
      (r, set_tool_index index s)

  -- `connect_backend` from the handshake on.
  unfoldable pub connect_found : String → BackendHandle W → Task W (Unit {0})
  unfolding index_backend filter_tools
  connect_found id handle = do
    init ← call handle.backend.connect
    modify (change id (set_capabilities init.capabilities))
    tools ← call handle.backend.list_tools
    index_backend id handle.def (filter_tools handle.def tools)
    modify (change id mark_healthy)

  unfoldable pub connect_backend : String → Task W (Unit {0})
  unfolding connect_found
  connect_backend id = do handle ← find_backend id; connect_found id handle

  -- `let _ = backend.disconnect().await;`
  unfoldable pub reconnect_backend : String → Task W (Unit {0})
  unfolding connect_backend
  reconnect_backend id s = elim (get id s.backends) [
    | none ↦ connect_backend id s
    | some h ↦ connect_backend id (ignore (call h.backend.disconnect) s).1
  ]

  abbrev pub ids_where : (BackendHandle W → Bool) → Dict (BackendHandle W) → List String
  ids_where p [] = []
  ids_where p ((id, h) ∷ m) = let rest = ids_where p m in if p h then id ∷ rest else rest

  abbrev pub is_eager : BackendHandle W → Bool
  is_eager h = elim h.def.connection_mode [ eager ↦ true | lazy ↦ false | per_call ↦ false ]

  -- The loop of `connect_all`: a backend that fails does not stop the others.
  unfoldable pub connect_each :
      List String → Hub W → List (String × BackendResult (Unit {0})) × Hub W
  unfolding connect_backend
  connect_each [] s = ([], s)
  connect_each (id ∷ ids) s =
      let (result, s') = connect_backend id s in
      let (results, s'') = connect_each ids s' in ((id, result) ∷ results, s'')

  unfoldable pub connect_all : Hub W → List (String × BackendResult (Unit {0})) × Hub W
  unfolding connect_each
  connect_all s = connect_each (ids_where is_eager s.backends) s

  unfoldable pub refresh_tools : Task W (Unit {0})
  unfolding connect_each
  refresh_tools s =
      let ids = ids_where (λ h. h.health) s.backends in
      (ok tt, (connect_each ids (set_tool_index [] s)).1)
