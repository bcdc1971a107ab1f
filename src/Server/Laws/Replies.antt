-- ===== src/Server/Laws/Replies.antt =====
-- crates/mcp-server/src/session.rs, subscriptions.rs: the reply to a message.
use headless_mcp_server.Prelude.{
  String, ◌≡◌, ap, Option, some, List, [], ◌∷◌, ◌++◌, Result, ok, err,
}
use headless_mcp_server.Json.{Value}
use headless_mcp_server.Wire.JsonRpc.{
  JsonRpcError, JsonRpcRequest, JsonRpcMessage, success_response, error_response, new_success,
  new_error_response,
}
use headless_mcp_server.Server.State.{AuditOutcome, failed, AuditEvent, McpSession, Codec}
use headless_mcp_server.Server.Dispatch.{dispatch_request, reply_to, handle_request}
use headless_mcp_server.Server.Laws.Audit.{Logged, Agrees, dispatch_request-IsDispatched}

-- A reply to a request and the outcome that is logged with it.
pub data IsReply {W : Type 0} (codec : Codec) (r : JsonRpcRequest) (s : McpSession W)
    : JsonRpcMessage → AuditOutcome → Type 0 where
  succeeds :
      (v : Value) (o : AuditOutcome)
      → Logged codec r.method r.params s o
      → IsReply codec r s (success_response (new_success r.id v)) o
  fails :
      (e : JsonRpcError)
      → IsReply codec r s (error_response (new_error_response (some r.id) e)) (failed e.code)

reply_to-IsReply :
    {W : Type 0} (codec : Codec) (r : JsonRpcRequest) (s : McpSession W)
    (d : Result Value JsonRpcError) (o : AuditOutcome)
    → Agrees codec r.method r.params s d o
    → IsReply codec r s (reply_to r d) o
reply_to-IsReply codec r s (ok v) o h = succeeds v o h
reply_to-IsReply codec r s (err e) o h = rw h (fails e)

module _ {W : Type 0} where
  -- The reply to a request carries the request's id. The audit log grows by one event, which names
  -- the request's method, and whose outcome is the code of the error if the reply is an error.
  -- With a result it is fine, unless the method is `tools/call`: then it is a failed tool if the
  -- registry's answer to the call is an error or a value that says `isError: true`, and fine
  -- otherwise.
  pub handle_request-IsReply :
      (codec : Codec) (r : JsonRpcRequest) (s : McpSession W)
      → (tool_name : Option String) × (outcome : AuditOutcome) × ((handle_request codec r s).1.audit
          ≡ s.audit ++ record { method = r.method; tool_name = tool_name; outcome = outcome } ∷ [])
        × IsReply codec r s (handle_request codec r s).0 outcome
  unfolding handle_request
  handle_request-IsReply codec r s =
      let d = (dispatch_request codec r s).0 in
      let i = dispatch_request-IsDispatched codec r s in
      (
        d.1,
        d.2,
        ap
            (λ (a : List AuditEvent).
              a ++ record { method = r.method; tool_name = d.1; outcome = d.2 } ∷ [])
            i.follows.audit_same,
        reply_to-IsReply codec r s d.0 d.2 i.agrees,
      )
