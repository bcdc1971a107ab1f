-- ===== src/Server/Laws/Audit.antt =====
-- crates/mcp-server/src/session.rs: every request has one reply and one entry in the audit log.
use headless_mcp_server.Prelude.{
  String, ◌≡◌, refl, Bool, true, false, Option, none, some, ◌∙◌, ap, Result, ok, err, Bool-cases,
  Result-cases, inl, inr, ◌≢◌, some, ◌∙◌, ap, ◌==◌, eq_iff, sym,
}
use headless_mcp_server.Json.{Value, get_field, Map, bool}
use headless_mcp_server.Core.{BackendError}
use headless_mcp_server.Wire.JsonRpc.{JsonRpcError, JsonRpcRequest}
use headless_mcp_server.Registry.State.{backend_of_tool}
use headless_mcp_server.Registry.Route.{route_call_with}
use headless_mcp_server.Server.Protocol.{RequestCtx, from_params, is_modern, check_version}
use headless_mcp_server.Server.State.{
  AuditOutcome, fine, failed, McpSession, Codec, require_initialized, ToolCallParams,
}
use headless_mcp_server.Server.Tools.{
  default_call_timeout_secs, bring_back, Dispatched, simple, tool_failed, call_outcome, answer,
  read_params, call_tool_named, handle_tools_call, is_true,
}
use headless_mcp_server.Server.Dispatch.{mark, dispatch_request}
use headless_mcp_server.Server.Laws.Methods.{
  Handles, discovers, initializes, lists_tools, calls_tool, lists_resources, reads_resource,
  lists_events, forwards, needs_stream, is_unknown, by_method-Handles,
}
use headless_mcp_server.Server.Laws.Follows.{Follows, stay}
use headless_mcp_server.Server.Laws.Frame.{by_method-Follows}

-- The outcome that is logged for what a tool's backend answers: an error is a failed tool, and so
-- is a value that says `isError: true`; any other value is fine.
pub data Logs : Result Value BackendError → AuditOutcome → Type 0 where
  good : (v : Value) → get_field "isError" v ≢ some (bool true) → Logs (ok v) fine
  reported : (v : Value) → get_field "isError" v ≡ some (bool true) → Logs (ok v) tool_failed
  broken : (e : BackendError) → Logs (err e) tool_failed

is_true-true : (o : Option Value) → is_true o ≡ true → o ≡ some (bool true)
is_true-true none h = cc
is_true-true (some (bool b)) h = ap (λ (b : Bool). some (bool b)) h
is_true-true (some v) h = cc

call_outcome-Logs : (v : Value) → Logs (ok v) (call_outcome v)
unfolding call_outcome
call_outcome-Logs v = elim (Bool-cases (is_true (get_field "isError" v))) [
  | inl e ↦ rw e (reported v (is_true-true (get_field "isError" v) e))
  | inr e ↦
      rw e (good v λ same. let says : is_true (get_field "isError" v) ≡ true = rw same refl in cc)
]

module _ {W : Type 0} (codec : Codec) (method : String) (params : Option Value)
    (s : McpSession W) where
  -- The outcome that is logged with a result: fine for every method but `tools/call`. A call is
  -- logged by the answer that the registry gave to it, from the session in which the backend of the
  -- tool was brought back where that was needed.
  pub data Logged : AuditOutcome → Type 0 where
    no_call : method ≢ "tools/call" → Logged fine
    by_call :
        (v : Value) (p : ToolCallParams) (extra : Map) (o : AuditOutcome)
        → method ≡ "tools/call"
        → params ≡ some v
        → codec.from_value v ≡ ok p
        → Logs
            (route_call_with p.name p.arguments extra default_call_timeout_secs
              (bring_back (backend_of_tool p.name s.hub) p.name s).hub).0
            o
        → Logged o

  -- What is logged for a result: the code of an error, and for a value what `Logged` says.
  abbrev pub Agrees : Result Value JsonRpcError → AuditOutcome → Type 0
  Agrees (ok v) o = Logged o
  Agrees (err e) o = o ≡ failed e.code

  abbrev pub DispatchAgrees : Dispatched → Type 0
  DispatchAgrees d = Agrees d.0 d.2

  another : (m : String) → (m == "tools/call") ≡ false → method ≡ m → method ≢ "tools/call"
  another m differs e c = let same = (eq_iff m "tools/call").1 (sym e ∙ c) in cc

  simple-Agrees :
      method ≢ "tools/call" → (r : Result Value JsonRpcError) → DispatchAgrees (simple r)
  simple-Agrees other (ok v) = no_call other
  simple-Agrees other (err e) = refl

  mark-Agrees :
      (ctx : RequestCtx) (r : Result Value JsonRpcError) (o : AuditOutcome)
      → Agrees r o
      → Agrees (mark ctx method r) o
  mark-Agrees ctx (err e) o h = h
  mark-Agrees ctx (ok v) o h = elim (Bool-cases (is_modern ctx)) [ inl e ↦ rw e h | inr e ↦ rw e h ]

  answer-Agrees :
      (to_string_pretty : Value → String) (backend : Option String) (name : String)
      (r : Result Value BackendError × McpSession W)
      → ((o : AuditOutcome) → Logs r.0 o → Logged o)
      → DispatchAgrees (answer to_string_pretty backend name r).0
  answer-Agrees to_string_pretty backend name (ok v, t) log = log _ (call_outcome-Logs v)
  answer-Agrees to_string_pretty backend name (err e, t) log = log _ (broken e)

  read_params-eq-ok :
      (o : Option Value) (p : ToolCallParams)
      → read_params codec.from_value o ≡ ok p
      → (v : Value) × (o ≡ some v) × (codec.from_value v ≡ ok p)
  read_params-eq-ok none p h = cc
  read_params-eq-ok (some v) p h = elim (Result-cases (codec.from_value v)) [
    | inl (q, e) ↦
        let same : q ≡ p = cc (rw (e, read_params) at h) in
        (v, refl, e ∙ ap (λ (x : ToolCallParams). ok x) same)
    | inr (x, e) ↦ absurd (let never = rw (e, read_params) at h in cc)
  ]

  handle_tools_call-Agrees :
      (ctx : RequestCtx)
      → method ≡ "tools/call"
      → DispatchAgrees (handle_tools_call codec params ctx s).0
  unfolding handle_tools_call call_tool_named
  handle_tools_call-Agrees ctx is_call = elim (Result-cases (require_initialized ctx s).0) [
    | inr (x, e) ↦ rw (e, handle_tools_call) refl
    | inl (u, e) ↦
        rw (e, handle_tools_call)
          (elim (Result-cases (read_params codec.from_value params)) [
            | inr (x, e') ↦ rw e' refl
            | inl (p, e') ↦
                let (v, given, read) = read_params-eq-ok params p e' in
                rw e' (
                  answer-Agrees codec.to_string_pretty (backend_of_tool p.name s.hub) p.name _
                    λ o logs. by_call v p _ o is_call given read logs)
          ])
  ]

  handler-Agrees :
      (ctx : RequestCtx) (f : McpSession W → Dispatched × McpSession W)
      → Handles codec method params ctx f
      → DispatchAgrees (f s).0
  handler-Agrees ctx _ (discovers e) = no_call (another "server/discover" refl e)
  handler-Agrees ctx _ (initializes e l) = simple-Agrees (another "initialize" refl e) _
  handler-Agrees ctx _ (lists_tools e) = simple-Agrees (another "tools/list" refl e) _
  handler-Agrees ctx _ (calls_tool e) = handle_tools_call-Agrees ctx e
  handler-Agrees ctx _ (lists_resources e) = simple-Agrees (another "resources/list" refl e) _
  handler-Agrees ctx _ (reads_resource e) = simple-Agrees (another "resources/read" refl e) _
  handler-Agrees ctx _ (lists_events e) = simple-Agrees (another "events/list" refl e) _
  handler-Agrees ctx _ (forwards other) = simple-Agrees other _
  handler-Agrees ctx _ (needs_stream m e) = refl
  handler-Agrees ctx _ (is_unknown m) = refl

module _ {W : Type 0} where
  -- What the dispatch of a request leaves, and what it hands to the audit.
  pub record IsDispatched (codec : Codec) (r : JsonRpcRequest) (s : McpSession W) : Type 0 where
    pub follows : Follows s (dispatch_request codec r s).1
    pub agrees : DispatchAgrees codec r.method r.params s (dispatch_request codec r s).0

  pub dispatch_request-IsDispatched :
      (codec : Codec) (r : JsonRpcRequest) (s : McpSession W) → IsDispatched codec r s
  unfolding dispatch_request
  dispatch_request-IsDispatched codec r s =
      let ctx = from_params r.params in
      elim (Result-cases (check_version ctx)) [
        | inr (x, e) ↦ record {
          follows = rw (e, dispatch_request) (stay s);
          agrees = rw (e, dispatch_request) refl;
        }
        | inl (u, e) ↦ record {
          follows = rw (e, dispatch_request) (by_method-Follows codec r.method r.params ctx s);
          agrees =
              rw (e, dispatch_request)
                (mark-Agrees codec r.method r.params s ctx _ _ (
                  handler-Agrees codec r.method r.params s ctx _
                    (by_method-Handles codec r.method r.params ctx)));
        }
      ]
