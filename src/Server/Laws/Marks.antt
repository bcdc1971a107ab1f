-- ===== src/Server/Laws/Marks.antt =====
-- crates/mcp-server/src/protocol.rs: the marks on the results of modern requests.
use Prim.Native.Nat.{◌^◌}
use mathlib.Core.Path.{subst}
use headless_mcp_server.Prelude.{
  ℕ, String, ◌≡◌, ◌≢◌, none, refl, ◌∙◌, sym, ap, true, some, Result, ok, err, arith, ltb,
  Bool-cases, Option-cases, Result-cases, inl, inr,
}
use headless_mcp_server.Dict.{get, contains_key}
use headless_mcp_server.Dict.Laws.{get-insert, contains_key-insert}
use headless_mcp_server.Json.{
  Value, number, string, object, int, pos, Fields, Map, props, props-fields,
}
use headless_mcp_server.Wire.JsonRpc.{JsonRpcError, JsonRpcRequest, success_response, new_success}
use headless_mcp_server.Server.Protocol.{
  RequestCtx, from_params, is_modern, check_version, request_protocol_version, or_insert, then_str,
  mark_complete, cache_ttl_ms, is_u64, says_complete, with_ttl, mark_object, mark_cacheable,
}
use headless_mcp_server.Server.State.{McpSession, Codec}
use headless_mcp_server.Server.Dispatch.{
  mark, by_method, dispatch_request, reply_to, handle_request,
}

-- The methods whose results may be cached.
pub data IsCacheable : String → Type 0 where
  server_discover : IsCacheable "server/discover"
  tools_list : IsCacheable "tools/list"
  resources_list : IsCacheable "resources/list"
  resources_templates_list : IsCacheable "resources/templates/list"
  prompts_list : IsCacheable "prompts/list"
  resources_read : IsCacheable "resources/read"

-- What a modern result says of itself.
pub record IsMarked (method : String) (m : Map) : Type 0 where
  pub typed : contains_key "resultType" m ≡ true
  pub cached :
      IsCacheable method
      → says_complete (then_str (get "resultType" m)) ≡ true
      → (get "cacheScope" m ≡ some (string "private")) × (is_u64 (get "ttlMs" m) ≡ true)

cacheable-none : (method : String) → IsCacheable method → cache_ttl_ms method ≢ none
unfolding cache_ttl_ms
cacheable-none _ server_discover = λ e. cc
cacheable-none _ tools_list = λ e. cc
cacheable-none _ resources_list = λ e. cc
cacheable-none _ resources_templates_list = λ e. cc
cacheable-none _ prompts_list = λ e. cc
cacheable-none _ resources_read = λ e. cc

cache_ttl_ms-bound :
    (method : String) (ttl_ms : ℕ) → cache_ttl_ms method ≡ some ttl_ms → ltb ttl_ms (2 ^ 64) ≡ true
unfolding cache_ttl_ms
cache_ttl_ms-bound method ttl_ms h = ground arith

with_ttl-is_u64 :
    (ttl_ms : ℕ) (m : Map)
    → ltb ttl_ms (2 ^ 64) ≡ true
    → is_u64 (get "ttlMs" (with_ttl ttl_ms m)) ≡ true
with_ttl-is_u64 ttl_ms m h = elim (Bool-cases (is_u64 (get "ttlMs" m))) [
  | inl e ↦ rw e e
  | inr e ↦ rw e (rw (get-insert "ttlMs" "ttlMs" (number (int (pos ttl_ms))) m) h)
]

contains_key-with_ttl :
    (ttl_ms : ℕ) (m : Map)
    → contains_key "resultType" (with_ttl ttl_ms m) ≡ contains_key "resultType" m
contains_key-with_ttl ttl_ms m = elim (Bool-cases (is_u64 (get "ttlMs" m))) [
  | inl e ↦ rw e refl
  | inr e ↦ rw e (contains_key-insert "ttlMs" "resultType" (number (int (pos ttl_ms))) m)
]

mark_object-IsMarked :
    (method : String) (ttl_ms : ℕ) (m : Map)
    → cache_ttl_ms method ≡ some ttl_ms
    → contains_key "resultType" m ≡ true
    → IsMarked method (mark_object ttl_ms m)
mark_object-IsMarked method ttl_ms m c t =
    elim (Bool-cases (says_complete (then_str (get "resultType" m)))) [
      | inr e ↦ rw e (record { typed = t; cached = λ cacheable says. cc })
      | inl e ↦ rw e (record {
        typed =
            contains_key-insert "cacheScope" "resultType" (string "private") (with_ttl ttl_ms m)
            ∙ contains_key-with_ttl ttl_ms m
            ∙ t;
        cached = λ cacheable says. (
          get-insert "cacheScope" "cacheScope" (string "private") (with_ttl ttl_ms m),
          ap is_u64 (get-insert "cacheScope" "ttlMs" (string "private") (with_ttl ttl_ms m))
              ∙ with_ttl-is_u64 ttl_ms m (cache_ttl_ms-bound method ttl_ms c),
        );
      })
    ]

or_insert-typed :
    (m : Map) → contains_key "resultType" (or_insert "resultType" (string "complete") m) ≡ true
or_insert-typed m = elim (Bool-cases (contains_key "resultType" m)) [
  | inl e ↦ rw e e
  | inr e ↦ rw e (contains_key-insert "resultType" "resultType" (string "complete") m)
]

abbrev Marked : String → Value → Type 0
Marked method (object fs) = IsMarked method (props fs)
Marked method _ = Unit

mark-Marked :
    (method : String) (v : Value) → Marked method (mark_cacheable method (mark_complete v))
unfolding mark_cacheable mark_complete
mark-Marked method (object gs) =
    let m = or_insert "resultType" (string "complete") (props gs) in
    elim (Option-cases (cache_ttl_ms method)) [
      | inl n ↦
          rw (n, Marked)
            (rw (props-fields m) (record {
              typed = or_insert-typed (props gs);
              cached = λ c. absurd (cacheable-none method c n);
            }))
      | inr (ttl_ms, e) ↦
          rw (e, Marked)
            (rw (props-fields m) (
              rw (props-fields (mark_object ttl_ms m))
                (mark_object-IsMarked method ttl_ms m e (or_insert-typed (props gs)))))
    ]
mark-Marked method v = elim (Option-cases (cache_ttl_ms method)) [
  | inl n ↦ rw (n, Marked) tt
  | inr (ttl_ms, e) ↦ rw (e, Marked) tt
]

reply-IsMarked :
    (r : JsonRpcRequest) (ctx : RequestCtx) (d : Result Value JsonRpcError) (fs : Fields)
    → is_modern ctx ≡ true
    → reply_to r (mark ctx r.method d) ≡ success_response (new_success r.id (object fs))
    → IsMarked r.method (props fs)
reply-IsMarked r ctx (err e) fs m h = cc
reply-IsMarked r ctx (ok v) fs m h =
    let same : mark_cacheable r.method (mark_complete v) ≡ object fs = ground arith in
    subst (Marked r.method) same (mark-Marked r.method v)

module _ {W : Type 0} (codec : Codec) (r : JsonRpcRequest) (s : McpSession W) where
  reply-of_ok :
      check_version (from_params r.params) ≡ ok tt
      → (handle_request codec r s).0
        ≡ reply_to r (
            mark
              (from_params r.params)
              r.method
              (by_method codec r.method r.params (from_params r.params) s).0.0)
  unfolding handle_request dispatch_request
  reply-of_ok v = rw (v, dispatch_request) refl

  reply-of_err :
      (e : JsonRpcError)
      → check_version (from_params r.params) ≡ err e
      → (handle_request codec r s).0 ≡ reply_to r (err e)
  unfolding handle_request dispatch_request
  reply-of_err e v = rw (v, dispatch_request) refl

-- A modern request that succeeds with an object has a result that says its type. If the method is
-- one of those that may be cached and the type is complete, the result is private and says how long
-- it stays fresh.
pub handle_request-IsMarked :
    {W : Type 0} (codec : Codec) (r : JsonRpcRequest) (s : McpSession W) (version : String)
    (fs : Fields)
    → request_protocol_version r.params ≡ some version
    → (handle_request codec r s).0 ≡ success_response (new_success r.id (object fs))
    → IsMarked r.method (props fs)
handle_request-IsMarked codec r s version fs p h =
    let ctx = from_params r.params in
    let m : is_modern ctx ≡ true = rw p refl in
    elim (Result-cases (check_version ctx)) [
      | inl (u, e) ↦
          reply-IsMarked r ctx (by_method codec r.method r.params ctx s).0.0 fs m
            (sym (reply-of_ok codec r s e) ∙ h)
      | inr (x, e) ↦ cc (reply-of_err codec r s x e)
    ]
