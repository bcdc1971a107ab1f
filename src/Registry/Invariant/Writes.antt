-- ===== src/Registry/Invariant/Writes.antt =====
-- crates/registry/src/lib.rs: the writes to the map of backends keep the registry well formed.
use mathlib.Core.Path.{fun_ext}
use mathlib.Core.Option
use headless_mcp_server.Prelude.{
  String, ◌≡◌, ◌≢◌, refl, sym, ap, ◌∙◌, Bool, true, false, Option, none, some, [], arith, inl, inr,
  Bool-cases, ◌==◌, eq_iff, if◌then◌else◌,
}
use headless_mcp_server.Dict.{get, contains_key, insert, retain, remove}
use headless_mcp_server.Dict.Laws.{
  get-update-map, update-IsDistinct, get-insert, insert-IsDistinct, get-remove, get-retain,
  retain-IsDistinct, keep_if, get-of_contains_key,
}
use headless_mcp_server.Core.{BackendDef}
use headless_mcp_server.Registry.State.{
  RoutedTool, BackendHandle, Hub, set_backends, set_tool_index, change, new,
}
use headless_mcp_server.Registry.Connect.{of_others}
use headless_mcp_server.Registry.Invariant.{Defs, def_of, defs, IsRoute, IsWellFormed}

-- A route stays one where its own backend keeps its definition.
pub IsRoute-transfer :
    {ds es : Defs} {name : String} {t : RoutedTool}
    → IsRoute ds name t
    → ((def : BackendDef) → ds t.backend_id ≡ some def → es t.backend_id ≡ some def)
    → IsRoute es name t
IsRoute-transfer r keep = record {
  def = r.def;
  owned = keep r.def r.owned;
  exposed = r.exposed;
  described = r.described;
  computed = r.computed;
  allowed = r.allowed;
  stripped = r.stripped;
}

pub keep_if-some :
    (id name : String) (o : Option RoutedTool) {t : RoutedTool}
    → keep_if (of_others id name) o ≡ some t
    → (o ≡ some t) × (id ≢ t.backend_id)
keep_if-some id name none e = cc
keep_if-some id name (some u) {t} e = elim (Bool-cases (u.backend_id == id)) [
  | inl p ↦ absurd (ground arith)
  | inr p ↦ (ground arith, λ q. ground (arith, eq_iff u.backend_id id))
]

module _ {W : Type 0} where
  pub new-IsWellFormed : (w : W) → IsWellFormed (new w)
  unfolding get
  new-IsWellFormed w = record {
    distinct_backends = tt;
    ids = λ id def h. cc;
    indexed = record { distinct = tt; routes = λ name t h. cc };
  }

  module _ (f : BackendHandle W → BackendHandle W)
      (same : (h : BackendHandle W) → def_of (f h) ≡ def_of h) where
    map-same :
        (o : Option (BackendHandle W)) → Option.map def_of (Option.map f o) ≡ Option.map def_of o
    map-same none = refl
    map-same (some h) = ap some (same h)

    pub defs-change : (id : String) (s : Hub W) → defs (change id f s) ≡ defs s
    defs-change id s =
        fun_ext λ j. ap (Option.map def_of) (get-update-map id j f s.backends) ∙ go (id == j) j
      where
        go :
            (b : Bool) (j : String)
            → Option.map def_of (if b then Option.map f (get j s.backends) else get j s.backends)
              ≡ defs s j
        go true j = map-same (get j s.backends)
        go false j = refl

    -- A write that leaves the definition of the backend alone.
    pub change-IsWellFormed :
        (id : String) (s : Hub W) → IsWellFormed s → IsWellFormed (change id f s)
    change-IsWellFormed id s wf = record {
      distinct_backends = update-IsDistinct id f s.backends wf.distinct_backends;
      ids = λ j def h. wf.ids j def (sym (ap (λ (g : Defs). g j) (defs-change id s)) ∙ h);
      indexed = rw (defs-change id s) wf.indexed;
    }

  -- A backend under an id that was free.
  module _ (h : BackendHandle W) (s : Hub W) (free : contains_key h.def.id s.backends ≡ false) where
    defs-insert :
        (j : String)
        → defs (set_backends (insert h.def.id h s.backends) s) j
          ≡ (if h.def.id == j then some h.def else defs s j)
    defs-insert j = ap (Option.map def_of) (get-insert h.def.id j h s.backends) ∙ ground arith

    defs-free : defs s h.def.id ≡ none
    defs-free = ap (Option.map def_of) (get-of_contains_key h.def.id s.backends free)

    pub insert-IsWellFormed :
        IsWellFormed s → IsWellFormed (set_backends (insert h.def.id h s.backends) s)
    insert-IsWellFormed wf = record {
      distinct_backends = insert-IsDistinct h.def.id h s.backends wf.distinct_backends;
      ids = λ j def e. ground (arith, defs-insert j, eq_iff h.def.id j, wf.ids j def);
      indexed = record {
        distinct = wf.indexed.distinct;
        routes = λ name t e. IsRoute-transfer (wf.indexed.routes name t e) λ def o.
            ground (arith, defs-insert t.backend_id, eq_iff h.def.id t.backend_id, defs-free);
      };
    }

  module _ (id : String) (s : Hub W) where
    abbrev without : Hub W
    without =
        set_tool_index (retain (of_others id) s.tool_index) (set_backends (remove id s.backends) s)

    defs-without : (j : String) → defs without j ≡ (if id == j then none else defs s j)
    defs-without j = ap (Option.map def_of) (get-remove id j s.backends) ∙ ground arith

    pub without-IsWellFormed : IsWellFormed s → IsWellFormed without
    unfolding remove
    without-IsWellFormed wf = record {
      distinct_backends = retain-IsDistinct _ s.backends wf.distinct_backends;
      ids = λ j def e. ground (arith, defs-without j, wf.ids j def);
      indexed = record {
        distinct = retain-IsDistinct _ s.tool_index wf.indexed.distinct;
        routes = λ name t e.
            let (found, other) =
              keep_if-some id name _
                (sym (get-retain (of_others id) name s.tool_index wf.indexed.distinct) ∙ e) in
            IsRoute-transfer (wf.indexed.routes name t found)
              λ def o. ground (arith, defs-without t.backend_id, eq_iff id t.backend_id, other);
      };
    }

  pub clear-IsWellFormed : (s : Hub W) → IsWellFormed s → IsWellFormed (set_tool_index [] s)
  unfolding get
  clear-IsWellFormed s wf = record {
    distinct_backends = wf.distinct_backends;
    ids = wf.ids;
    indexed = record { distinct = tt; routes = λ name t h. cc };
  }
