-- ===== src/Registry/Laws/Ownership.antt =====
-- crates/registry/src/lib.rs: connecting one backend and the tools of the others.
use headless_mcp_server.Prelude.{
  String, ◌≡◌, ◌≢◌, refl, ◌∙◌, false, some, List, [], ◌∷◌, arith, Option-cases, inl, inr, ◌==◌,
  eq_iff,
}
use headless_mcp_server.Exec.{modify}
use headless_mcp_server.Exec.Keeps.{Keeps, bind-Keeps}
use headless_mcp_server.Dict.{Dict, get, insert}
use headless_mcp_server.Dict.Laws.{get-insert, get-retain, insert-IsDistinct, retain-IsDistinct}
use headless_mcp_server.Core.{BackendDef, BackendError, BackendResult, ToolDescriptor}
use headless_mcp_server.Registry.State.{RoutedTool, BackendHandle, Hub, call, change}
use headless_mcp_server.Registry.Connect.{
  of_others, filter_tools, routed_tool, index_tools, index_backend, connect_found, connect_backend,
  set_capabilities, mark_healthy,
}
use headless_mcp_server.Registry.Invariant.{IsWellFormed}
use headless_mcp_server.Dict.{IsDistinct}

-- Indexing stops at a name that is taken, so what stands in the index stays.
pub get-index_tools :
    (id : String) (def : BackendDef) (tools : List ToolDescriptor) (index : Dict RoutedTool)
    (name : String) (t : RoutedTool)
    → get name index ≡ some t
    → get name (index_tools id def tools index).1 ≡ some t
unfolding index_tools
get-index_tools id def [] index name t g = g
get-index_tools id def (tool ∷ tools) index name t g =
    let routed = routed_tool id def tool in
    elim (Option-cases (get routed.exposed_name index)) [
      | inr (existing, found) ↦ rw (found, index_tools) g
      | inl free ↦
          rw (free, index_tools)
            (get-index_tools id def tools (insert routed.exposed_name routed index) name t (
              ground (
                arith,
                get-insert routed.exposed_name name routed index,
                eq_iff routed.exposed_name name,
              )))
    ]

index_tools-IsDistinct :
    (id : String) (def : BackendDef) (tools : List ToolDescriptor) (index : Dict RoutedTool)
    → IsDistinct index
    → IsDistinct (index_tools id def tools index).1
unfolding index_tools
index_tools-IsDistinct id def [] index d = d
index_tools-IsDistinct id def (tool ∷ tools) index d =
    let routed = routed_tool id def tool in
    elim (Option-cases (get routed.exposed_name index)) [
      | inr (existing, found) ↦ rw (found, index_tools) d
      | inl free ↦
          rw (free, index_tools)
            (index_tools-IsDistinct id def tools (insert routed.exposed_name routed index)
              (insert-IsDistinct routed.exposed_name routed index d))
    ]

module _ {W : Type 0} where
  -- The name routes to the tool, in a map without double keys.
  record Routes (name : String) (t : RoutedTool) (s : Hub W) : Type 0 where
    distinct : IsDistinct s.tool_index
    routed : get name s.tool_index ≡ some t

  index_backend-Routes :
      (id name : String) (t : RoutedTool) (def : BackendDef) (tools : List ToolDescriptor)
      → (t.backend_id == id) ≡ false
      → Keeps (Routes name t) (index_backend id def tools)
  unfolding index_backend
  index_backend-Routes id name t def tools other = record {
    at = λ s r. record {
      distinct =
          index_tools-IsDistinct id def tools _ (retain-IsDistinct _ s.tool_index r.distinct);
      routed =
          get-index_tools id def tools _ name t
            (get-retain (of_others id) name s.tool_index r.distinct ∙ rw r.routed (rw other refl));
    };
  }

  same-Routes :
      (name : String) (t : RoutedTool) (f : Hub W → Hub W)
      → ((s : Hub W) → (f s).tool_index ≡ s.tool_index)
      → (s : Hub W) → Routes name t s
      → Routes name t (f s)
  same-Routes name t f same s r = record {
    distinct = rw (same s) r.distinct;
    routed = rw (same s) r.routed;
  }

  call-Routes :
      {A : Type 0} (name : String) (t : RoutedTool) (f : W → BackendResult A × W)
      → Keeps (Routes name t) (call f)
  call-Routes name t f = record { at = same-Routes name t (λ s. (call f s).1) (λ s. refl) }

  change-Routes :
      (name : String) (t : RoutedTool) (id : String) (f : BackendHandle W → BackendHandle W)
      → Keeps {E = BackendError} (Routes name t) (modify (change id f))
  change-Routes name t id f = record { at = same-Routes name t (change id f) (λ s. refl) }

  connect_found-Routes :
      (id name : String) (t : RoutedTool) (h : BackendHandle W)
      → (t.backend_id == id) ≡ false
      → Keeps (Routes name t) (connect_found id h)
  unfolding connect_found
  connect_found-Routes id name t h other =
      bind-Keeps (call h.backend.connect) _ (call-Routes name t h.backend.connect) λ init.
        bind-Keeps (modify (change id (set_capabilities init.capabilities))) _
          (change-Routes name t id (set_capabilities init.capabilities))
          λ _.
            bind-Keeps (call h.backend.list_tools) _ (call-Routes name t h.backend.list_tools)
              λ tools.
                bind-Keeps (index_backend id h.def (filter_tools h.def tools)) _
                  (index_backend-Routes id name t h.def _ other)
                  λ _. change-Routes name t id mark_healthy

  -- Connecting a backend, whether it succeeds or fails, leaves every tool of another backend where
  -- it was: a name that routes to such a tool still does.
  pub connect_backend-others :
      (id name : String) (t : RoutedTool) (s : Hub W)
      → IsWellFormed s
      → get name s.tool_index ≡ some t
      → t.backend_id ≢ id
      → get name (connect_backend id s).1.tool_index ≡ some t
  unfolding connect_backend
  connect_backend-others id name t s wf g other = elim (Option-cases (get id s.backends)) [
    | inl missing ↦ rw (missing, connect_backend) g
    | inr (h, found) ↦
        rw (found, connect_backend)
          ((connect_found-Routes id name t h (ground (arith, eq_iff t.backend_id id))).at s
            (record { distinct = wf.indexed.distinct; routed = g })).routed
  ]
