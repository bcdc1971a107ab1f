-- ===== src/Registry/Invariant/Connecting.antt =====
-- crates/registry/src/lib.rs: the operations that connect keep a registry well formed.
use headless_mcp_server.Prelude.{
  ℕ, String, refl, List, [], ◌∷◌, inl, inr, Bool-cases, Option-cases, Result-cases,
}
use headless_mcp_server.Dict.{get, contains_key}
use headless_mcp_server.Core.{BackendDef, McpBackend, BackendResult}
use headless_mcp_server.Registry.State.{BackendHandle, Hub, call, is_healthy}
use headless_mcp_server.Registry.Connect.{
  reconnect_backend, connect_each, connect_all, refresh_tools, unregister, register, ids_where,
  is_eager,
}
use headless_mcp_server.Registry.Health.{
  try_reconnect, refresh_if_asked, probe, check_one, check_each, run_health_checks, count_attempt,
  mark_unhealthy, is_checked,
}
use headless_mcp_server.Registry.Invariant.{IsWellFormed}
use headless_mcp_server.Registry.Invariant.Writes.{
  change-IsWellFormed, insert-IsWellFormed, without-IsWellFormed, clear-IsWellFormed,
}
use headless_mcp_server.Registry.Invariant.Indexing.{connect_backend-keeps}

module _ {W : Type 0} where
  abbrev pub Good : Hub W → Type 0
  Good = IsWellFormed

  pub world-keeps : (s : Hub W) (w : W) → Good s → Good (record s { world = w })
  world-keeps s w wf = record {
    distinct_backends = wf.distinct_backends;
    ids = wf.ids;
    indexed = wf.indexed;
  }

  pub call-keeps :
      {A : Type 0} (f : W → BackendResult A × W) → (s : Hub W) → Good s → Good (call f s).1
  call-keeps f s wf = world-keeps s (f s.world).1 wf

  pub register-keeps :
      (def : BackendDef) (backend : McpBackend W)
      → (s : Hub W) → Good s
      → Good (register def backend s).1
  unfolding register
  register-keeps def backend s wf = elim (Bool-cases (contains_key def.id s.backends)) [
    | inl taken ↦ rw taken wf
    | inr free ↦ rw free (insert-IsWellFormed _ s free wf)
  ]

  pub unregister-keeps : (id : String) → (s : Hub W) → Good s → Good (unregister id s).1
  unfolding unregister
  unregister-keeps id s wf = elim (Option-cases (get id s.backends)) [
    | inl missing ↦ rw missing wf
    | inr (h, found) ↦ rw found (world-keeps _ _ (without-IsWellFormed id s wf))
  ]

  pub reconnect_backend-keeps :
      (id : String) → (s : Hub W) → Good s → Good (reconnect_backend id s).1
  unfolding reconnect_backend
  reconnect_backend-keeps id s wf = elim (Option-cases (get id s.backends)) [
    | inl missing ↦ rw (missing, reconnect_backend) (connect_backend-keeps id s wf)
    | inr (h, found) ↦
        rw (found, reconnect_backend)
          (connect_backend-keeps id _ (call-keeps h.backend.disconnect s wf))
  ]

  connect_each-keeps : (ids : List String) (s : Hub W) → Good s → Good (connect_each ids s).1
  unfolding connect_each
  connect_each-keeps [] s wf = wf
  connect_each-keeps (id ∷ ids) s wf = connect_each-keeps ids _ (connect_backend-keeps id s wf)

  pub connect_all-keeps : (s : Hub W) → Good s → Good (connect_all s).1
  unfolding connect_all
  connect_all-keeps s wf = connect_each-keeps (ids_where is_eager s.backends) s wf

  pub refresh_tools-keeps : (s : Hub W) → Good s → Good (refresh_tools s).1
  unfolding refresh_tools
  refresh_tools-keeps s wf =
      connect_each-keeps (ids_where (λ h. h.health) s.backends) _ (clear-IsWellFormed s wf)

  try_reconnect-keeps :
      (sleep : ℕ → W → W) (id : String) (s : Hub W) → Good s → Good (try_reconnect sleep id s)
  unfolding try_reconnect
  try_reconnect-keeps sleep id s wf =
      connect_backend-keeps id _
        (world-keeps _ _ (change-IsWellFormed count_attempt (λ _. refl) id s wf))

  refresh_if_asked-keeps :
      (id : String) (h : BackendHandle W) (s : Hub W) → Good s → Good (refresh_if_asked id h s)
  unfolding refresh_if_asked
  refresh_if_asked-keeps id h s wf = elim (Bool-cases (h.backend.take_tools_refresh s.world).0) [
    | inl e ↦ rw e (connect_backend-keeps id _ (world-keeps s _ wf))
    | inr e ↦ rw e (world-keeps s _ wf)
  ]

  probe-keeps : (id : String) (h : BackendHandle W) (s : Hub W) → Good s → Good (probe id h s)
  unfolding probe
  probe-keeps id h s wf = elim (Result-cases (h.backend.health_check s.world).0) [
    | inl (u, e) ↦ rw (e, probe) (refresh_if_asked-keeps id h _ (world-keeps s _ wf))
    | inr (x, e) ↦
        rw (e, probe) (change-IsWellFormed mark_unhealthy (λ _. refl) id _ (world-keeps s _ wf))
  ]

  check_one-keeps :
      (sleep : ℕ → W → W) (id : String) (s : Hub W) → Good s → Good (check_one sleep id s)
  unfolding check_one
  check_one-keeps sleep id s wf = elim (Bool-cases (is_healthy id s)) [
    | inr e ↦ rw e (try_reconnect-keeps sleep id s wf)
    | inl e ↦ rw e (elim (Option-cases (get id s.backends)) [
      | inl missing ↦ rw missing wf
      | inr (h, found) ↦ rw found (probe-keeps id h s wf)
    ])
  ]

  check_each-keeps :
      (sleep : ℕ → W → W) (ids : List String) (s : Hub W) → Good s → Good (check_each sleep ids s)
  unfolding check_each
  check_each-keeps sleep [] s wf = wf
  check_each-keeps sleep (id ∷ ids) s wf =
      check_each-keeps sleep ids _ (check_one-keeps sleep id s wf)

  pub run_health_checks-keeps :
      (sleep : ℕ → W → W) (s : Hub W) → Good s → Good (run_health_checks sleep s)
  unfolding run_health_checks
  run_health_checks-keeps sleep s wf = check_each-keeps sleep (ids_where is_checked s.backends) s wf
