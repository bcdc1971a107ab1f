-- ===== src/Server/Laws/Follows.antt =====
-- crates/mcp-server/src/session.rs: how a handler may move a session.
use headless_mcp_server.Prelude.{ℕ, String, ◌≡◌, refl, ◌∙◌, true, Option, Result, ok, err}
use headless_mcp_server.Exec.{lift, continue, ◌>>=◌}
use headless_mcp_server.Json.{Value}
use headless_mcp_server.Wire.JsonRpc.{JsonRpcError}
use headless_mcp_server.Registry.Route.{backend_request}
use headless_mcp_server.Registry.Invariant.Reachable.{Reach, goes_on, requests}
use headless_mcp_server.Server.Protocol.{RequestCtx}
use headless_mcp_server.Server.State.{McpSession, Handler, use_registry, require_initialized}

-- The registry moves by its own operations only, nothing is written to the audit log, and a session
-- that is initialized stays so.
pub record Follows {W : Type 0} (s t : McpSession W) : Type 0 where
  pub reach : Reach s.hub → Reach t.hub
  pub audit_same : t.audit ≡ s.audit
  pub stays_open : s.initialized ≡ true → t.initialized ≡ true

module _ {W : Type 0} where
  pub stay : (s : McpSession W) → Follows s s
  stay s = record { reach = λ r. r; audit_same = refl; stays_open = λ o. o }

  pub then_follow : (s t u : McpSession W) → Follows s t → Follows t u → Follows s u
  then_follow s t u f g = record {
    reach = λ r. g.reach (f.reach r);
    audit_same = g.audit_same ∙ f.audit_same;
    stays_open = λ o. g.stays_open (f.stays_open o);
  }

  pub request-Follows :
      (id method : String) (params : Option Value) (timeout : ℕ) (s : McpSession W)
      → Follows s (use_registry (backend_request id method params timeout) s).1
  request-Follows id method params timeout s = record {
    reach = λ r. goes_on _ _ r (requests s.hub id method params timeout);
    audit_same = refl;
    stays_open = λ o. o;
  }

-- A method that only so moves the session.
pub record Tracks {W A : Type 0} (m : Handler W A) : Type 0 where
  pub at : (s : McpSession W) → Follows s (m s).1

module _ {W : Type 0} where
  continue-Follows :
      {A B : Type 0} (f : A → Handler W B) (r : Result A JsonRpcError) (s t : McpSession W)
      → Follows s t
      → ((a : A) → Tracks (f a))
      → Follows s (continue f r t).1
  continue-Follows f (ok a) s t h k = then_follow s t _ h ((k a).at t)
  continue-Follows f (err e) s t h k = h

  pub bind-Tracks :
      {A B : Type 0} (m : Handler W A) (f : A → Handler W B)
      → Tracks m
      → ((a : A) → Tracks (f a))
      → Tracks (m >>= f)
  bind-Tracks m f h k = record { at = λ s. continue-Follows f (m s).0 s (m s).1 (h.at s) k }

  pub lift-Tracks : {A : Type 0} (r : Result A JsonRpcError) → Tracks (lift {S = McpSession W} r)
  lift-Tracks r = record { at = λ s. stay s }

  pub gate-Tracks : (ctx : RequestCtx) → Tracks (require_initialized {W = W} ctx)
  unfolding require_initialized
  gate-Tracks ctx = record { at = λ s. stay s }
