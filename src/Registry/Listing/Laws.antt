-- ===== src/Registry/Listing/Laws.antt =====
-- crates/registry/src/lib.rs: what the aggregated tool list holds.
use headless_mcp_server.Prelude.{
  String, ◌≡◌, ◌↔◌, ◌⊎◌, refl, sym, ap, ◌∙◌, Bool, true, false, some, List, [], ◌∷◌, map, keep,
  arith, ◌==◌, eq_iff, eq_refl, if◌then◌else◌, inl, inr, Bool-cases, Memᴰ, head, tail, cases_cons,
  among-sort_by, IsSorted, sort_by-IsSorted,
}
use headless_mcp_server.Dict.{Dict, get, IsDistinct}
use headless_mcp_server.Dict.Laws.{get-of_contains_key}
use headless_mcp_server.Core.{ToolDescriptor}
use headless_mcp_server.Registry.State.{RoutedTool, Hub, is_healthy}
use headless_mcp_server.Registry.Invariant.{IsWellFormed}
use headless_mcp_server.Registry.Listing.{
  values, descriptor_name, descriptor_of, is_served, aggregated_tools,
}

among-kept :
    {d : ToolDescriptor} (b : Bool) (t : RoutedTool) (ts : List RoutedTool)
    → Memᴰ d (map descriptor_of (if b then t ∷ ts else ts))
    → ((b ≡ true) × (d ≡ t.descriptor)) ⊎ Memᴰ d (map descriptor_of ts)
among-kept true t ts m = elim (cases_cons m) [ inl same ↦ inl (refl, same) | inr later ↦ inr later ]
among-kept false t ts m = inr m

-- The descriptors that a test selects from a map are those that some key of it leads to.
abbrev Selected : (RoutedTool → Bool) → Dict RoutedTool → ToolDescriptor → Type 0
Selected p m d =
    (name : String) × (t : RoutedTool) × (get name m ≡ some t) × (p t ≡ true) × (d ≡ t.descriptor)

Selected-sound :
    (p : RoutedTool → Bool) (m : Dict RoutedTool) (d : ToolDescriptor)
    → IsDistinct m
    → Memᴰ d (map descriptor_of (keep p (values m)))
    → Selected p m d
unfolding get
Selected-sound p [] d h m = elim m [ ]
Selected-sound p ((k, t) ∷ index) d (h, hs) m = elim (among-kept (p t) t _ m) [
  | inl (e, same) ↦ (k, t, rw (eq_refl k) refl, e, same)
  | inr later ↦
      let (name, u, g, e, same) = Selected-sound p index d hs later in
      (name, u, ground (arith, eq_iff k name, get-of_contains_key k index h), e, same)
]

kept-among :
    {d : ToolDescriptor} (b : Bool) (t : RoutedTool) (ts : List RoutedTool)
    → Memᴰ d (map descriptor_of ts)
    → Memᴰ d (map descriptor_of (if b then t ∷ ts else ts))
kept-among true t ts m = tail m
kept-among false t ts m = m

Selected-complete :
    (p : RoutedTool → Bool) (m : Dict RoutedTool) (name : String) (t : RoutedTool)
    → get name m ≡ some t
    → p t ≡ true
    → Memᴰ t.descriptor (map descriptor_of (keep p (values m)))
unfolding get
Selected-complete p [] name t g e = cc
Selected-complete p ((k, u) ∷ index) name t g e = elim (Bool-cases (k == name)) [
  | inl same ↦ let u_is_t : u ≡ t = ground arith in rw u_is_t (rw e (head refl))
  | inr other ↦ kept-among (p u) u _ (Selected-complete p index name t (ground arith) e)
]

-- In a well-formed registry the aggregated list is sorted by name, and a descriptor is in it
-- exactly if it stands in the index, under its own name, for a backend that is healthy.
pub aggregated_tools_iff :
    {W : Type 0} (s : Hub W)
    → IsWellFormed s
    → IsSorted descriptor_name (aggregated_tools s)
      × ((d : ToolDescriptor)
          → Memᴰ d (aggregated_tools s) ↔ (
              (t : RoutedTool) × (get d.name s.tool_index ≡ some t)
              × (is_healthy t.backend_id s ≡ true)
              × (d ≡ t.descriptor)))
unfolding aggregated_tools
aggregated_tools_iff s wf =
    let indexed = wf.indexed in
    (
      sort_by-IsSorted descriptor_name
          (map descriptor_of (keep (is_served s) (values s.tool_index))),
      λ d. (
        λ m.
            let (name, t, g, e, same) =
              Selected-sound (is_served s) s.tool_index d indexed.distinct (
                (among-sort_by descriptor_name d
                    (map descriptor_of (keep (is_served s) (values s.tool_index)))).0
                  m) in
            let r = indexed.routes name t g in
            let named : name ≡ d.name = sym r.described ∙ sym (ap descriptor_name same) in
            (t, rw (← named) g, e, same),
        λ (t, g, e, same).
            (among-sort_by descriptor_name d
                (map descriptor_of (keep (is_served s) (values s.tool_index)))).1
              (rw same (Selected-complete (is_served s) s.tool_index d.name t g e)),
      ),
    )
