-- ===== src/Registry/Invariant/Indexing.antt =====
-- crates/registry/src/lib.rs: connecting backends keeps the registry well formed.
use mathlib.Core.Option
use headless_mcp_server.Prelude.{
  String, ◌≡◌, refl, sym, ap, ◌∙◌, true, not, ◌||◌, some, List, [], ◌∷◌, arith, inl, inr, All,
  All-intro, All-keep, All-map, keep, contains, is_empty, Bool-cases, Option-cases, ◌==◌, eq_iff,
  if◌then◌else◌,
}
use headless_mcp_server.Exec.{modify}
use headless_mcp_server.Exec.Keeps.{Keeps, bind-Keeps}
use headless_mcp_server.Dict.{Dict, get, insert, retain}
use headless_mcp_server.Dict.Laws.{get-insert, insert-IsDistinct, get-retain, retain-IsDistinct}
use headless_mcp_server.Core.{BackendError, BackendDef, ToolDescriptor, BackendResult}
use headless_mcp_server.Registry.Policy.{hidden_args}
use headless_mcp_server.Registry.Policy.Schemas.{property-strip_schema_args, contains-empty}
use headless_mcp_server.Registry.State.{RoutedTool, BackendHandle, Hub, call, change}
use headless_mcp_server.Registry.Connect.{
  of_others, filter_tools, routed_tool, index_tools, index_backend, connect_found, connect_backend,
  set_capabilities, mark_healthy,
}
use headless_mcp_server.Registry.Invariant.{
  Defs, def_of, defs, is_exposed, IsRoute, IsIndex, IsWellFormed,
}
use headless_mcp_server.Registry.Invariant.Writes.{keep_if-some, defs-change, change-IsWellFormed}

abbrev pub MayExpose : BackendDef → ToolDescriptor → Type 0
MayExpose def t = is_exposed def t.name ≡ true

allow_list :
    (def : BackendDef) (tools : List ToolDescriptor)
    → All
        (λ (t : ToolDescriptor).
          (is_empty def.tools_allow || contains def.tools_allow t.name) ≡ true)
        (if is_empty def.tools_allow
          then tools
          else keep (λ (t : ToolDescriptor). contains def.tools_allow t.name) tools)
allow_list def tools = elim (Bool-cases (is_empty def.tools_allow)) [
  | inl e ↦ rw e (All-intro (λ t. refl) tools)
  | inr e ↦ rw e (
      All-keep (λ (t : ToolDescriptor). contains def.tools_allow t.name) (λ t _ c. c) tools
        (All-intro {P = λ _. Unit {0}} (λ _. tt) tools))
]

deny_list :
    (def : BackendDef) (tools : List ToolDescriptor)
    → All
        (λ (t : ToolDescriptor).
          (is_empty def.tools_allow || contains def.tools_allow t.name) ≡ true)
        tools
    → All (MayExpose def) (
        if is_empty def.tools_deny
        then tools
        else keep (λ (t : ToolDescriptor). not (contains def.tools_deny t.name)) tools)
deny_list def tools h = elim (Bool-cases (is_empty def.tools_deny)) [
  | inl e ↦ rw e (All-map (λ t a. ground (arith, contains-empty def.tools_deny t.name e)) tools h)
  | inr e ↦ rw e (
      All-keep (λ (t : ToolDescriptor). not (contains def.tools_deny t.name))
        (λ t a d. ground arith) tools h)
]

filter_tools-MayExpose :
    (def : BackendDef) (tools : List ToolDescriptor) → All (MayExpose def) (filter_tools def tools)
unfolding filter_tools
filter_tools-MayExpose def tools = deny_list def _ (allow_list def tools)

routed_tool-IsRoute :
    (ds : Defs) (id : String) (def : BackendDef) (tool : ToolDescriptor)
    → ds id ≡ some def
    → MayExpose def tool
    → let t = routed_tool id def tool in IsRoute ds t.exposed_name t
routed_tool-IsRoute ds id def tool o m = record {
  def = def;
  owned = o;
  exposed = refl;
  described = refl;
  computed = refl;
  allowed = m;
  stripped = λ k c. property-strip_schema_args tool.input_schema (hidden_args def) k ∙ rw c;
}

insert-IsIndex :
    (ds : Defs) (index : Dict RoutedTool) (t : RoutedTool)
    → IsRoute ds t.exposed_name t
    → IsIndex ds index
    → IsIndex ds (insert t.exposed_name t index)
insert-IsIndex ds index t r ix = record {
  distinct = insert-IsDistinct t.exposed_name t index ix.distinct;
  routes = λ name u e. elim (Bool-cases (t.exposed_name == name)) [
    | inl p ↦
        let same : t ≡ u = ground (arith, get-insert t.exposed_name name t index) in
        rw (← (eq_iff t.exposed_name name).0 p) (rw (← same) r)
    | inr p ↦ ix.routes name u (ground (arith, get-insert t.exposed_name name t index))
  ];
}

index_tools-IsIndex :
    (ds : Defs) (id : String) (def : BackendDef) (tools : List ToolDescriptor)
    (index : Dict RoutedTool)
    → ds id ≡ some def
    → All (MayExpose def) tools
    → IsIndex ds index
    → IsIndex ds (index_tools id def tools index).1
unfolding index_tools
index_tools-IsIndex ds id def [] index o m ix = ix
index_tools-IsIndex ds id def (tool ∷ tools) index o (m, ms) ix =
    let t = routed_tool id def tool in
    elim (Option-cases (get t.exposed_name index)) [
      | inr (existing, found) ↦ rw (found, index_tools) ix
      | inl free ↦
          rw (free, index_tools)
            (index_tools-IsIndex ds id def tools (insert t.exposed_name t index) o ms
              (insert-IsIndex ds index t (routed_tool-IsRoute ds id def tool o m) ix))
    ]

retain-IsIndex :
    (ds : Defs) (id : String) (index : Dict RoutedTool)
    → IsIndex ds index
    → IsIndex ds (retain (of_others id) index)
retain-IsIndex ds id index ix = record {
  distinct = retain-IsDistinct _ index ix.distinct;
  routes = λ name t e.
      ix.routes name t
        (keep_if-some id name _ (sym (get-retain (of_others id) name index ix.distinct) ∙ e)).0;
}

module _ {W : Type 0} where
  -- Well formed, and the backend `id` is registered with the definition `def`.
  abbrev Serves : String → BackendDef → Hub W → Type 0
  Serves id def s = IsWellFormed s × (defs s id ≡ some def)

  change-Keeps :
      (id j : String) (def : BackendDef) (f : BackendHandle W → BackendHandle W)
      → ((h : BackendHandle W) → def_of (f h) ≡ def_of h)
      → Keeps {E = BackendError} (Serves id def) (modify (change j f))
  change-Keeps id j def f same = record {
    at = λ s (wf, o).
        (change-IsWellFormed f same j s wf, ap (λ (g : Defs). g id) (defs-change f same j s) ∙ o);
  }

  index_backend-Keeps :
      (id : String) (def : BackendDef) (tools : List ToolDescriptor)
      → All (MayExpose def) tools
      → Keeps (Serves id def) (index_backend id def tools)
  unfolding index_backend
  index_backend-Keeps id def tools m = record {
    at = λ s (wf, o). (
      record {
        distinct_backends = wf.distinct_backends;
        ids = wf.ids;
        indexed =
            index_tools-IsIndex (defs s) id def tools _ o m
              (retain-IsIndex (defs s) id s.tool_index wf.indexed);
      },
      o,
    );
  }

  -- The registry is as it was after an awaited call.
  call-Keeps :
      {A : Type 0} (id : String) (def : BackendDef) (f : W → BackendResult A × W)
      → Keeps (Serves id def) (call f)
  call-Keeps id def f = record {
    at = λ s (wf, o). (
      record { distinct_backends = wf.distinct_backends; ids = wf.ids; indexed = wf.indexed },
      o,
    );
  }

  connect_found-Keeps :
      (id : String) (h : BackendHandle W) → Keeps (Serves id h.def) (connect_found id h)
  unfolding connect_found
  connect_found-Keeps id h =
      bind-Keeps (call h.backend.connect) _ (call-Keeps id h.def h.backend.connect) λ init.
        bind-Keeps (modify (change id (set_capabilities init.capabilities))) _
          (change-Keeps id id h.def (set_capabilities init.capabilities) (λ _. refl))
          λ _.
            bind-Keeps (call h.backend.list_tools) _ (call-Keeps id h.def h.backend.list_tools)
              λ tools.
                bind-Keeps (index_backend id h.def (filter_tools h.def tools)) _
                  (index_backend-Keeps id h.def _ (filter_tools-MayExpose h.def tools))
                  λ _. change-Keeps id id h.def mark_healthy (λ _. refl)

  -- Connecting a backend keeps the registry well formed, whether it succeeds or fails.
  pub connect_backend-keeps :
      (id : String) (s : Hub W) → IsWellFormed s → IsWellFormed (connect_backend id s).1
  unfolding connect_backend
  connect_backend-keeps id s wf = elim (Option-cases (get id s.backends)) [
    | inl missing ↦ rw missing wf
    | inr (h, found) ↦
        rw found ((connect_found-Keeps id h).at s (wf, ap (Option.map def_of) found)).0
  ]
