-- ===== src/Registry/Health.antt =====
-- crates/registry/src/lib.rs: one round of the periodic health checks.
use headless_mcp_server.Prelude.{
  ℕ, String, Bool, true, false, not, none, some, List, [], ◌∷◌, ok, err, if◌then◌else◌,
}
use headless_mcp_server.Exec.{ignore}
use headless_mcp_server.Dict.{get}
use headless_mcp_server.Core.{eager, lazy, per_call}
use headless_mcp_server.Registry.Backoff.{next_attempt, delay_ms}
use headless_mcp_server.Registry.State.{BackendHandle, Hub, call, change, with_backend, is_healthy}
use headless_mcp_server.Registry.Connect.{ids_where, connect_backend}

module _ {W : Type 0} where
  abbrev pub count_attempt : BackendHandle W → BackendHandle W
  count_attempt h = record h { reconnect_attempts = next_attempt h.reconnect_attempts }

  abbrev pub mark_unhealthy : BackendHandle W → BackendHandle W
  mark_unhealthy h = record h { health = false }

  -- `tokio::time::sleep` is a parameter.
  unfoldable pub try_reconnect : (ℕ → W → W) → String → Hub W → Hub W
  unfolding connect_backend delay_ms get
  try_reconnect sleep id s =
      let counted = change id count_attempt s in
      let attempt = with_backend 0 (λ h. h.reconnect_attempts) id counted in
      let rested = record counted { world = sleep (delay_ms attempt) counted.world } in
      (ignore (connect_backend id) rested).1

  unfoldable pub refresh_if_asked : String → BackendHandle W → Hub W → Hub W
  unfolding connect_backend
  refresh_if_asked id h s =
      let (refresh, w) = h.backend.take_tools_refresh s.world in
      let s' = record s { world = w } in if refresh then (ignore (connect_backend id) s').1 else s'

  unfoldable pub probe : String → BackendHandle W → Hub W → Hub W
  unfolding refresh_if_asked
  probe id h s =
      let (outcome, s') = call h.backend.health_check s in
      elim outcome [ ok _ ↦ refresh_if_asked id h s' | err _ ↦ change id mark_unhealthy s' ]

  unfoldable pub check_one : (ℕ → W → W) → String → Hub W → Hub W
  unfolding try_reconnect probe is_healthy get
  check_one sleep id s =
      if not (is_healthy id s)
      then try_reconnect sleep id s
      else elim (get id s.backends) [ none ↦ s | some h ↦ probe id h s ]

  abbrev pub is_checked : BackendHandle W → Bool
  is_checked h = elim h.def.connection_mode [ eager ↦ true | lazy ↦ true | per_call ↦ false ]

  unfoldable pub check_each : (ℕ → W → W) → List String → Hub W → Hub W
  unfolding check_one
  check_each sleep [] s = s
  check_each sleep (id ∷ ids) s = check_each sleep ids (check_one sleep id s)

  unfoldable pub run_health_checks : (ℕ → W → W) → Hub W → Hub W
  unfolding check_each
  run_health_checks sleep s = check_each sleep (ids_where is_checked s.backends) s
