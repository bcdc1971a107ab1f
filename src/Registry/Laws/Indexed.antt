-- ===== src/Registry/Laws/Indexed.antt =====
-- crates/registry/src/lib.rs: what the index holds after a backend's tools were indexed.
use headless_mcp_server.Prelude.{
  String, ◌≡◌, ◌≢◌, ◌⊎◌, ◌↔◌, refl, sym, ap, ◌∙◌, Bool, true, not, Option, none, some, List, [],
  ◌∷◌, ok, err, arith, Option-cases, Bool-cases, inl, inr, ◌==◌, eq_iff, eq_refl, Memᴰ, head, tail,
  cases_cons,
}
use headless_mcp_server.Dict.{Dict, get, insert, retain}
use headless_mcp_server.Dict.Laws.{get-insert, get-retain, keep_if}
use headless_mcp_server.Core.{BackendDef, BackendError, BackendResult, ToolDescriptor}
use headless_mcp_server.Registry.State.{RoutedTool, Hub}
use headless_mcp_server.Registry.Connect.{
  collision, of_others, routed_tool, index_tools, index_backend,
}
use headless_mcp_server.Registry.Invariant.{IsWellFormed}
use headless_mcp_server.Registry.Laws.Ownership.{get-index_tools}

-- The name leads to one of the backend's tools, which stands there as it is exposed.
abbrev pub Exposes : String → BackendDef → List ToolDescriptor → String → RoutedTool → Type 0
Exposes id def tools name t =
    (tool : ToolDescriptor) × Memᴰ tool tools
    × (t ≡ routed_tool id def tool)
    × (t.exposed_name ≡ name)

later :
    (id : String) (def : BackendDef) (tool : ToolDescriptor) (tools : List ToolDescriptor)
    (name : String) (t : RoutedTool)
    → Exposes id def tools name t
    → Exposes id def (tool ∷ tools) name t
later id def tool tools name t (u, m, same, named) = (u, tail m, same, named)

module _ (id : String) (def : BackendDef) (tool : ToolDescriptor) (tools : List ToolDescriptor)
    (index : Dict RoutedTool) where
  next_index : Dict RoutedTool
  next_index = insert (routed_tool id def tool).exposed_name (routed_tool id def tool) index

  index_tools_free :
      get (routed_tool id def tool).exposed_name index ≡ none
      → index_tools id def (tool ∷ tools) index ≡ index_tools id def tools next_index
  unfolding index_tools next_index
  index_tools_free free = rw (free, index_tools) refl

  index_tools_taken :
      (existing : RoutedTool)
      → get (routed_tool id def tool).exposed_name index ≡ some existing
      → (error : BackendError) × (index_tools id def (tool ∷ tools) index ≡ (err error, index))
  unfolding index_tools
  index_tools_taken existing found = (
    collision existing.backend_id id (routed_tool id def tool).exposed_name,
    rw (found, index_tools) refl,
  )

index_tools_sound :
    (id : String) (def : BackendDef) (tools : List ToolDescriptor) (index : Dict RoutedTool)
    (name : String) (t : RoutedTool)
    → get name (index_tools id def tools index).1 ≡ some t
    → (get name index ≡ some t) ⊎ Exposes id def tools name t
unfolding index_tools next_index
index_tools_sound id def [] index name t g = inl g
index_tools_sound id def (tool ∷ tools) index name t g =
    let routed = routed_tool id def tool in
    elim (Option-cases (get routed.exposed_name index)) [
      | inr (existing, found) ↦
          let (error, same) = index_tools_taken id def tool tools index existing found in
          inl (ap (λ (r : BackendResult (Unit {0}) × Dict RoutedTool). get name r.1) (sym same) ∙ g)
      | inl free ↦
          let same = index_tools_free id def tool tools index free in
          elim (index_tools_sound id def tools (insert routed.exposed_name routed index) name t (
            ap (λ (r : BackendResult (Unit {0}) × Dict RoutedTool). get name r.1) (sym same) ∙ g)) [
              | inr deeper ↦ inr (later id def tool tools name t deeper)
              | inl inserted ↦ elim (Bool-cases (routed.exposed_name == name)) [
                | inr other ↦ inl (ground (arith, get-insert routed.exposed_name name routed index))
                | inl here ↦
                    let is_routed : t ≡ routed =
                      ground (arith, get-insert routed.exposed_name name routed index) in
                    inr (
                      tool,
                      head refl,
                      ground (arith, get-insert routed.exposed_name name routed index),
                      ap (λ (u : RoutedTool). u.exposed_name) is_routed
                          ∙ (eq_iff routed.exposed_name name).0 here,
                    )
              ]
            ]
    ]

index_tools_complete :
    (id : String) (def : BackendDef) (tools : List ToolDescriptor) (index : Dict RoutedTool)
    (tool : ToolDescriptor)
    → (index_tools id def tools index).0 ≡ ok tt
    → Memᴰ tool tools
    → get (routed_tool id def tool).exposed_name (index_tools id def tools index).1
      ≡ some (routed_tool id def tool)
unfolding next_index
index_tools_complete id def [] index tool h m = elim m [ ]
index_tools_complete id def (u ∷ tools) index tool h m =
    let routed = routed_tool id def u in
    elim (Option-cases (get routed.exposed_name index)) [
      | inr (existing, found) ↦
          let (error, same) = index_tools_taken id def u tools index existing found in
          let failed : (index_tools id def (u ∷ tools) index).0 ≡ err error =
            ap (λ (r : BackendResult (Unit {0}) × Dict RoutedTool). r.0) same in
          cc
      | inl free ↦
          let same = index_tools_free id def u tools index free in
          rw same (elim (cases_cons m) [
            | inr deeper ↦
                index_tools_complete id def tools _ tool
                  (sym (ap (λ (r : BackendResult (Unit {0}) × Dict RoutedTool). r.0) same) ∙ h)
                  deeper
            | inl here ↦ rw here (
                get-index_tools id def tools _ routed.exposed_name routed (
                  get-insert routed.exposed_name routed.exposed_name routed index
                  ∙ rw (eq_refl routed.exposed_name) refl))
          ])
    ]

keep_if_iff :
    {V : Type 0} (p : V → Bool) (o : Option V) (v : V)
    → (keep_if p o ≡ some v) ↔ ((o ≡ some v) × (p v ≡ true))
keep_if_iff p none v = (λ h. ground arith, λ (h, _). ground arith)
keep_if_iff p (some u) v = ground arith

differs_iff : (i j : String) → (not (i == j) ≡ true) ↔ (i ≢ j)
differs_iff i j =
    (λ h same. ground (arith, (eq_iff i j).1 same), λ differ. ground (arith, eq_iff i j))

module _ {W : Type 0} where
  -- If no name collides, then after the tools of a backend are indexed, a name leads to a tool
  -- exactly if it led to it before and the tool is another backend's, or the tool is one of the
  -- backend's given tools under its exposed name.
  pub index_backend_iff :
      (id : String) (def : BackendDef) (tools : List ToolDescriptor) (s : Hub W) (name : String)
      (t : RoutedTool)
      → IsWellFormed s
      → (index_backend id def tools s).0 ≡ ok tt
      → (get name (index_backend id def tools s).1.tool_index ≡ some t)
        ↔ (((get name s.tool_index ≡ some t) × (t.backend_id ≢ id)) ⊎ Exposes id def tools name t)
  unfolding index_backend
  index_backend_iff id def tools s name t w passed =
      let kept = retain (of_others id) s.tool_index in
      let keeps = get-retain (of_others id) name s.tool_index w.indexed.distinct in
      let is_kept = keep_if_iff (of_others id name) (get name s.tool_index) t in
      (
        λ g. elim (index_tools_sound id def tools kept name t g) [
          | inr exposed ↦ inr exposed
          | inl before ↦
              let (found, other) = is_kept.0 (sym keeps ∙ before) in
              inl (found, (differs_iff t.backend_id id).0 other)
        ],
        λ h. elim h [
          | inl (found, differ) ↦
              get-index_tools id def tools kept name t
                (keeps ∙ is_kept.1 (found, (differs_iff t.backend_id id).1 differ))
          | inr (tool, m, same, named) ↦
              let found = index_tools_complete id def tools kept tool passed m in
              let at_name : (routed_tool id def tool).exposed_name ≡ name =
                sym (ap (λ (u : RoutedTool). u.exposed_name) same) ∙ named in
              rw (sym at_name) (found ∙ ap some (sym same))
        ],
      )
