-- ===== src/Registry/Laws/Removal.antt =====
-- crates/registry/src/lib.rs: what `unregister` takes away.
use headless_mcp_server.Prelude.{
  String, ◌≡◌, refl, none, some, Result, err, Option-cases, inl, inr, ◌==◌, if◌then◌else◌,
}
use headless_mcp_server.Dict.{get}
use headless_mcp_server.Dict.Laws.{get-remove, get-retain, keep_if}
use headless_mcp_server.Core.{BackendError}
use headless_mcp_server.Registry.State.{BackendHandle, Hub, not_registered}
use headless_mcp_server.Registry.Connect.{of_others, unregister}
use headless_mcp_server.Registry.Invariant.{IsWellFormed}

module _ {W : Type 0} where
  -- What is left of a registry without a backend, on each branch of `unregister`.
  pub data IsRemoved (id : String) (s t : Hub W) (r : Result (Unit {0}) BackendError) : Type 0 where
    unknown : get id s.backends ≡ none → r ≡ err (not_registered id) → t ≡ s → IsRemoved id s t r
    removed :
        (h : BackendHandle W)
        → get id s.backends ≡ some h
        → r ≡ (h.backend.disconnect s.world).0
        → ((j : String) → get j t.backends ≡ (if id == j then none else get j s.backends))
        → ((name : String)
            → get name t.tool_index ≡ keep_if (of_others id name) (get name s.tool_index))
        → IsRemoved id s t r

  -- Unregistering a backend that is not there is an error and changes nothing. Otherwise that
  -- backend and exactly the tools that route to it are gone, whatever its disconnect answers, and
  -- that answer is returned.
  pub unregister-IsRemoved :
      (id : String) (s : Hub W)
      → IsWellFormed s
      → IsRemoved id s (unregister id s).1 (unregister id s).0
  unfolding unregister
  unregister-IsRemoved id s wf = elim (Option-cases (get id s.backends)) [
    | inl missing ↦ rw (missing, unregister) (unknown missing refl refl)
    | inr (h, found) ↦
        rw (found, unregister)
          (removed h found refl (λ j. get-remove id j s.backends)
            (λ name. get-retain (of_others id) name s.tool_index wf.indexed.distinct))
  ]
