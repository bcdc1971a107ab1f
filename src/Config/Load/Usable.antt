-- ===== src/Config/Load/Usable.antt =====
-- crates/server/src/config.rs: which entries of a configuration are taken.
use headless_mcp_server.Prelude.{
  String, ◌==◌, ◌≡◌, ◌⊎◌, ◌↔◌, inl, inr, refl, Option, none, some, ok, bind-eq-ok, eq_iff,
  Bool-cases, arith,
}
use headless_mcp_server.Json.{Value}
use headless_mcp_server.Core.{
  BackendDef, BackendTransport, ConnectionMode, eager, lazy, per_call, StderrMode, log_on_error,
  silent, passthrough, log_always,
}
use headless_mcp_server.Config.Placeholders.{Environment}
use headless_mcp_server.Config.Raw.{RawBackendConfig}
use headless_mcp_server.Config.Load.{
  connection_mode_of, stderr_mode_of, required, stdio_of, http_of, transport_of, definition_of,
  backend_of,
}

-- An entry that can be used.
pub record IsUsable (bc : RawBackendConfig) : Type 0 where
  pub transport :
      ((bc.transport ≡ "stdio") × ((c : String) × (bc.command ≡ some c)))
      ⊎ ((bc.transport ≡ "http") × ((u : String) × (bc.url ≡ some u)))
  pub mode :
      (bc.connection_mode ≡ "")
      ⊎ ((bc.connection_mode ≡ "eager")
          ⊎ ((bc.connection_mode ≡ "lazy")
              ⊎ ((bc.connection_mode ≡ "per-call") ⊎ (bc.connection_mode ≡ "per_call"))))
  pub stderr :
      (bc.stderr_mode ≡ "")
      ⊎ ((bc.stderr_mode ≡ "log-on-error")
          ⊎ ((bc.stderr_mode ≡ "log_on_error")
              ⊎ ((bc.stderr_mode ≡ "silent")
                  ⊎ ((bc.stderr_mode ≡ "passthrough")
                      ⊎ ((bc.stderr_mode ≡ "log-always") ⊎ (bc.stderr_mode ≡ "log_always"))))))
  pub pins : (v : Value) × (bc.pin_args ≡ ok v)

connection_mode_of_sound :
    (id mode : String) (m : ConnectionMode)
    → connection_mode_of id mode ≡ ok m
    → (mode ≡ "")
      ⊎ ((mode ≡ "eager") ⊎ ((mode ≡ "lazy") ⊎ ((mode ≡ "per-call") ⊎ (mode ≡ "per_call"))))
unfolding connection_mode_of
connection_mode_of_sound id mode m h = ground (
  arith,
  eq_iff mode "",
  eq_iff mode "eager",
  eq_iff mode "lazy",
  eq_iff mode "per-call",
  eq_iff mode "per_call",
)

connection_mode_of_complete :
    (id mode : String)
    → (mode ≡ "")
      ⊎ ((mode ≡ "eager") ⊎ ((mode ≡ "lazy") ⊎ ((mode ≡ "per-call") ⊎ (mode ≡ "per_call"))))
    → (m : ConnectionMode) × (connection_mode_of id mode ≡ ok m)
unfolding connection_mode_of
connection_mode_of_complete id mode (inl e) = (eager, rw e refl)
connection_mode_of_complete id mode (inr (inl e)) = (eager, rw e refl)
connection_mode_of_complete id mode (inr (inr (inl e))) = (lazy, rw e refl)
connection_mode_of_complete id mode (inr (inr (inr (inl e)))) = (per_call, rw e refl)
connection_mode_of_complete id mode (inr (inr (inr (inr e)))) = (per_call, rw e refl)

stderr_mode_of_sound :
    (id mode : String) (m : StderrMode)
    → stderr_mode_of id mode ≡ ok m
    → (mode ≡ "")
      ⊎ ((mode ≡ "log-on-error")
          ⊎ ((mode ≡ "log_on_error")
              ⊎ ((mode ≡ "silent")
                  ⊎ ((mode ≡ "passthrough") ⊎ ((mode ≡ "log-always") ⊎ (mode ≡ "log_always"))))))
unfolding stderr_mode_of
stderr_mode_of_sound id mode m h = ground (
  arith,
  eq_iff mode "",
  eq_iff mode "log-on-error",
  eq_iff mode "log_on_error",
  eq_iff mode "silent",
  eq_iff mode "passthrough",
  eq_iff mode "log-always",
  eq_iff mode "log_always",
)

stderr_mode_of_complete :
    (id mode : String)
    → (mode ≡ "")
      ⊎ ((mode ≡ "log-on-error")
          ⊎ ((mode ≡ "log_on_error")
              ⊎ ((mode ≡ "silent")
                  ⊎ ((mode ≡ "passthrough") ⊎ ((mode ≡ "log-always") ⊎ (mode ≡ "log_always"))))))
    → (m : StderrMode) × (stderr_mode_of id mode ≡ ok m)
unfolding stderr_mode_of
stderr_mode_of_complete id mode (inl e) = (log_on_error, rw e refl)
stderr_mode_of_complete id mode (inr (inl e)) = (log_on_error, rw e refl)
stderr_mode_of_complete id mode (inr (inr (inl e))) = (log_on_error, rw e refl)
stderr_mode_of_complete id mode (inr (inr (inr (inl e)))) = (silent, rw e refl)
stderr_mode_of_complete id mode (inr (inr (inr (inr (inl e))))) = (passthrough, rw e refl)
stderr_mode_of_complete id mode (inr (inr (inr (inr (inr (inl e)))))) = (log_always, rw e refl)
stderr_mode_of_complete id mode (inr (inr (inr (inr (inr (inr e)))))) = (log_always, rw e refl)

pub required-eq-ok :
    (id field kind : String) (o : Option String) (v : String)
    → required id field kind o ≡ ok v
    → o ≡ some v
required-eq-ok id field kind none v h = cc
required-eq-ok id field kind (some w) v h = cc

module _ (env : Environment) where
  transport_of_sound :
      (id : String) (bc : RawBackendConfig) (t : BackendTransport)
      → transport_of env id bc ≡ ok t
      → ((bc.transport ≡ "stdio") × ((c : String) × (bc.command ≡ some c)))
        ⊎ ((bc.transport ≡ "http") × ((u : String) × (bc.url ≡ some u)))
  unfolding transport_of
  transport_of_sound id bc t h = elim (Bool-cases (bc.transport == "stdio")) [
    | inl process ↦
        let (command, needed, _) =
          bind-eq-ok (required id "command" "stdio" bc.command) (λ c. ok (stdio_of env bc c))
            (rw (process, transport_of) at h) in
        inl (
          (eq_iff bc.transport "stdio").0 process,
          (command, required-eq-ok id "command" "stdio" bc.command command needed),
        )
    | inr other ↦ elim (Bool-cases (bc.transport == "http")) [
      | inl remote ↦
          let (url, needed, _) =
            bind-eq-ok (required id "url" "http" bc.url) (λ u. ok (http_of env bc u))
              (rw remote at (rw (other, transport_of) at h)) in
          inr (
            (eq_iff bc.transport "http").0 remote,
            (url, required-eq-ok id "url" "http" bc.url url needed),
          )
      | inr neither ↦ absurd (let e = rw neither at (rw (other, transport_of) at h) in cc)
    ]
  ]

  transport_of_complete :
      (id : String) (bc : RawBackendConfig)
      → ((bc.transport ≡ "stdio") × ((c : String) × (bc.command ≡ some c)))
        ⊎ ((bc.transport ≡ "http") × ((u : String) × (bc.url ≡ some u)))
      → (t : BackendTransport) × (transport_of env id bc ≡ ok t)
  unfolding transport_of
  transport_of_complete id bc (inl (kind, (command, there))) =
      (stdio_of env bc command, rw kind (rw there refl))
  transport_of_complete id bc (inr (kind, (url, there))) =
      (http_of env bc url, rw kind (rw there refl))

  backend_of_sound :
      (id : String) (bc : RawBackendConfig) (def : BackendDef)
      → backend_of env id bc ≡ ok def
      → IsUsable bc
  unfolding backend_of
  backend_of_sound id bc def h =
      let (transport, t, h₁) = bind-eq-ok (transport_of env id bc) _ h in
      let (mode, m, h₂) = bind-eq-ok (connection_mode_of id bc.connection_mode) _ h₁ in
      let (stderr, e, h₃) = bind-eq-ok (stderr_mode_of id bc.stderr_mode) _ h₂ in
      let (pins, p, h₄) = bind-eq-ok bc.pin_args _ h₃ in
      record {
        transport = transport_of_sound id bc transport t;
        mode = connection_mode_of_sound id bc.connection_mode mode m;
        stderr = stderr_mode_of_sound id bc.stderr_mode stderr e;
        pins = (pins, p);
      }

  backend_of_complete :
      (id : String) (bc : RawBackendConfig)
      → IsUsable bc
      → (def : BackendDef) × (backend_of env id bc ≡ ok def)
  unfolding backend_of
  backend_of_complete id bc usable =
      let (t, h₁) = transport_of_complete id bc usable.transport in
      let (mode, h₂) = connection_mode_of_complete id bc.connection_mode usable.mode in
      let (stderr, h₃) = stderr_mode_of_complete id bc.stderr_mode usable.stderr in
      let (pins, h₄) = usable.pins in
      (definition_of env id bc t mode stderr pins, rw h₁ (rw h₂ (rw h₃ (rw h₄ refl))))

  -- An entry becomes a backend exactly if its transport is stdio with a command or http with a URL,
  -- its two modes are of the names that are known (or empty), and its pinned arguments can be
  -- written in JSON.
  pub backend_of_iff :
      (id : String) (bc : RawBackendConfig)
      → ((def : BackendDef) × (backend_of env id bc ≡ ok def)) ↔ IsUsable bc
  backend_of_iff id bc = (λ (def, h). backend_of_sound id bc def h, backend_of_complete id bc)
