-- ===== src/Server/Laws/Methods.antt =====
-- crates/mcp-server/src/session.rs: case analysis on the method of a request.
use headless_mcp_server.Prelude.{
  String, ◌≡◌, ◌≢◌, refl, ◌==◌, eq_iff, Bool, true, false, ◌&&◌, ◌||◌, not, Option, ok, arith,
  if◌then◌else◌,
}
use headless_mcp_server.Exec.{raise}
use headless_mcp_server.Json.{Value}
use headless_mcp_server.Wire.JsonRpc.{invalid_request, method_not_found}
use headless_mcp_server.Server.Protocol.{RequestCtx, is_modern}
use headless_mcp_server.Server.State.{McpSession, Codec}
use headless_mcp_server.Server.Tools.{Dispatched, handle_tools_list, handle_tools_call}
use headless_mcp_server.Server.Resources.{handle_resources_list, handle_resources_read}
use headless_mcp_server.Server.Events.{handle_events_list, forward_event_request}
use headless_mcp_server.Server.Dispatch.{handle_discover, handle_initialize, simply, by_method}

both : (a b : Bool) → (a && b) ≡ true → (a ≡ true) × (b ≡ true)
both a b h = ground arith

not-true : (b : Bool) → not b ≡ true → b ≡ false
not-true b h = ground arith

if-elim {ℓ κ} :
    {A : Type ℓ} (P : A → Type κ) (b : Bool) {x y : A}
    → (b ≡ true → P x)
    → (b ≡ false → P y)
    → P (if b then x else y)
if-elim P true t f = t refl
if-elim P false t f = f refl

module _ {W : Type 0} (codec : Codec) (method : String) (params : Option Value)
    (ctx : RequestCtx) where
  -- The handlers that a request can be given to, with the method that it is.
  pub data Handles : (McpSession W → Dispatched × McpSession W) → Type 0 where
    discovers : method ≡ "server/discover" → Handles (simply (λ s. (ok (handle_discover s.hub), s)))
    initializes : method ≡ "initialize" → is_modern ctx ≡ false → Handles (simply handle_initialize)
    lists_tools : method ≡ "tools/list" → Handles (simply (handle_tools_list ctx))
    calls_tool : method ≡ "tools/call" → Handles (handle_tools_call codec params ctx)
    lists_resources : method ≡ "resources/list" → Handles (simply (handle_resources_list ctx))
    reads_resource : method ≡ "resources/read" → Handles (simply (handle_resources_read params ctx))
    lists_events : method ≡ "events/list" → Handles (simply (handle_events_list ctx))
    forwards : method ≢ "tools/call" → Handles (simply (forward_event_request method params ctx))
    needs_stream :
        (message : String)
        → method ≡ "subscriptions/listen"
        → Handles (simply (raise (invalid_request message)))
    is_unknown : (message : String) → Handles (simply (raise (method_not_found message)))

  pub by_method-Handles : Handles (by_method codec method params ctx)
  unfolding by_method
  by_method-Handles =
      if-elim Handles (method == "server/discover") (λ e. discovers ((eq_iff method _).0 e))
        λ _.
          if-elim Handles (method == "initialize" && not (is_modern ctx))
            (λ e. let (m, l) = both _ _ e in initializes ((eq_iff method _).0 m) (not-true _ l))
            λ _.
              if-elim Handles (method == "tools/list") (λ e. lists_tools ((eq_iff method _).0 e))
                λ _.
                  if-elim Handles (method == "tools/call") (λ e. calls_tool ((eq_iff method _).0 e))
                    λ not_call.
                      if-elim Handles (method == "resources/list")
                        (λ e. lists_resources ((eq_iff method _).0 e))
                        λ _.
                          if-elim Handles (method == "resources/read")
                            (λ e. reads_resource ((eq_iff method _).0 e))
                            λ _.
                              if-elim Handles (method == "events/list")
                                (λ e. lists_events ((eq_iff method _).0 e))
                                λ _.
                                  if-elim Handles
                                    (method == "events/subscribe" || method == "events/unsubscribe")
                                    (λ _. forwards λ same. cc ((eq_iff method "tools/call").1 same))
                                    λ _.
                                      if-elim Handles (method == "subscriptions/listen")
                                        (λ e. needs_stream _ ((eq_iff method _).0 e))
                                        (λ _. is_unknown _)
