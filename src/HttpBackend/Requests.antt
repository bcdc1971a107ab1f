-- ===== src/HttpBackend/Requests.antt =====
-- crates/backends/backend-http/src/lib.rs: one request over HTTP, with the retry after a 401.
pub mod Frame
use Prim.Native.Nat.{◌^◌}
use headless_mcp_server.Prelude.{
  ℕ, ◌+◌, ◌%◌, String, Bool, true, false, not, ◌&&◌, Option, none, some, List, [], ◌∷◌, Result, ok,
  err, map_err, ltb, eqb, concat, if◌then◌else◌,
}
use headless_mcp_server.Dict.{Dict}
use headless_mcp_server.Json.{Value, cast_i64}
use headless_mcp_server.Core.{
  BackendError, BackendErrorKind, BackendResult, backend_error, connection, auth, timeout, protocol,
}
use headless_mcp_server.Exec.{Exec, lift, raise, modify, ◌>>=◌, ◌>>◌}
use headless_mcp_server.Wire.JsonRpc.{
  JsonRpcId, number_id, JsonRpcMessage, request, jsonrpc_version, to_value,
}
use headless_mcp_server.OAuth2.Query.{parse_resource_metadata_url}
use headless_mcp_server.OAuth2.State.{Manager, Env, Browser, outside}
use headless_mcp_server.OAuth2.Cache.{and_then, unwrap_or}
use headless_mcp_server.OAuth2.Discovery.{is_success, discover}
use headless_mcp_server.OAuth2.Tokens.{get_token}
use headless_mcp_server.HttpBackend.Headers.{modern_headers}
use headless_mcp_server.HttpBackend.Response.{parse_response, session_not_initialized}
use headless_mcp_server.HttpBackend.State.{
  Failure, HttpState, Post, SendError, Reply, Libraries, Setup, Call, Attempt,
  rebuild_client_with_token, on_manager,
}

-- A response with its body read.
pub record ReadResponse : Type 0 where
  pub bytes : List ℕ
  pub status : ℕ
  pub header : String → Option String

abbrev pub plain_failure : BackendError → Failure
plain_failure e = record { error = e; session_lost = none }

-- `?` from a `BackendError`.
abbrev pub attempt : {W A : Type 0} → Call W A → Attempt W A
attempt n s = (map_err plain_failure (n s).0, (n s).1)

abbrev is_some : {A : Type 0} → Option A → Bool
is_some none = false
is_some (some a) = true

abbrev well_known : String
well_known = "/.well-known/oauth-authorization-server"

module _ {W : Type 0} (setup : Setup W) where
  abbrev id : String
  id = setup.definition.id

  abbrev send_error : SendError → BackendError
  send_error e =
      backend_error (if e.is_timeout then timeout else connection)
        (concat ("HTTP request to '" ∷ id ∷ "' failed: " ∷ e.text ∷ []))

  -- An awaited post.
  abbrev pub post : Post → HttpState W → Result Reply SendError × HttpState W
  post p = on_manager (outside (setup.libraries.send p))

  abbrev origin_url : Option (String × String) → String
  origin_url none = concat (setup.url ∷ well_known ∷ [])
  origin_url (some (scheme, authority)) = concat (scheme ∷ "://" ∷ authority ∷ well_known ∷ [])

  abbrev discovery_url : Reply → String
  discovery_url reply =
      unwrap_or (origin_url (setup.libraries.parse_url setup.url))
        (and_then (reply.header "www-authenticate") parse_resource_metadata_url)

  -- Discovery after a 401; its errors are only logged.
  discover_with : Option (Env W × Browser W) → Reply → HttpState W → HttpState W
  unfolding discover parse_resource_metadata_url
  discover_with none reply s = s
  discover_with (some (env, browser)) reply s =
      (on_manager (discover env (discovery_url reply)) s).1

  abbrev discover_on_401 : Reply → HttpState W → HttpState W
  discover_on_401 reply s =
      let discovered = discover_with setup.oauth2 reply s in
      if eqb reply.status 401 then discovered else s

  abbrev read_body : Reply → BackendResult ReadResponse
  read_body reply = elim reply.body [
    | ok bytes ↦ ok (record { bytes = bytes; status = reply.status; header = reply.header })
    | err e ↦
        err
          (backend_error protocol (concat ("failed to read response from '" ∷ id ∷ "': " ∷ e ∷ [])))
  ]

  abbrev received : Result Reply SendError → Call W ReadResponse
  received (err e) s = (err (send_error e), s)
  received (ok reply) s = (read_body reply, discover_on_401 reply s)

  abbrev json_post : List ℕ → Dict String → Option String → HttpState W → Post
  json_post body extra_headers session_id s = record {
    url = setup.url;
    authorization = s.client;
    accept = some "application/json, text/event-stream";
    session = session_id;
    headers = extra_headers;
    body = body;
  }

  unfoldable pub post_json : List ℕ → Dict String → Option String → Call W ReadResponse
  unfolding discover_with
  post_json body extra_headers session_id s =
      let (r, s') = post (json_post body extra_headers session_id s) s in received r s'

  abbrev capture : Option String → HttpState W → HttpState W
  capture none s = s
  capture (some sid) s = record s { session_id = some sid }

  -- The session id that a response brings.
  abbrev pub capture_session : ReadResponse → HttpState W → HttpState W
  capture_session r = capture (r.header "mcp-session-id")

  -- The answer of the second attempt, after a token was acquired.
  abbrev after_retry : ReadResponse → BackendResult Value
  after_retry r =
      let parsed = parse_response setup.libraries.body_codecs r.bytes id in
      if is_success r.status
      then parsed
      else err (
          backend_error auth (
            concat (
              "HTTP "
              ∷ setup.libraries.show_status r.status
              ∷ " after OAuth2: "
              ∷ setup.libraries.show_body r.bytes
              ∷ [])))

  retry_with : String → List ℕ → Dict String → Option String → Attempt W Value
  unfolding post_json parse_response rebuild_client_with_token
  retry_with token body extra_headers sent_session = do
    modify (rebuild_client_with_token setup.libraries token)
    r ← attempt (post_json body extra_headers sent_session)
    modify (capture_session r)
    attempt (lift (after_retry r))

  abbrev error_kind : ℕ → BackendErrorKind
  error_kind status = if not (ltb status 500) && ltb status 600 then connection else protocol

  abbrev lost : ReadResponse → Option String → Option String
  lost r sent_session =
      let known = eqb r.status 404 && is_some sent_session in
      let told = session_not_initialized setup.libraries.body_codecs r.bytes in
      if known then some "HTTP 404 for the session" else told

  abbrev http_error : ReadResponse → BackendError
  http_error r = backend_error (error_kind r.status) (
      concat (
        "HTTP "
        ∷ setup.libraries.show_status r.status
        ∷ " from '"
        ∷ id
        ∷ "': "
        ∷ setup.libraries.show_body r.bytes
        ∷ []))

  -- What a response without a retry means.
  judge : Option String → ReadResponse → Result Value Failure
  unfolding session_not_initialized parse_response
  judge sent_session r =
      let parsed =
        map_err
          (λ e. record {
            error = e;
            session_lost = session_not_initialized setup.libraries.body_codecs r.bytes;
          })
          (parse_response setup.libraries.body_codecs r.bytes id) in
      if is_success r.status
      then parsed
      else err (record { error = http_error r; session_lost = lost r sent_session })

  with_token :
      Result String BackendError
      → List ℕ
      → Dict String
      → Option String
      → ReadResponse
      → Attempt W Value
  unfolding retry_with judge
  with_token (ok t) body extra_headers sent_session r s =
      retry_with t body extra_headers sent_session s
  with_token (err e) body extra_headers sent_session r s = (judge sent_session r, s)

  -- The token acquisition after a 401, and the second attempt if there is a token.
  reauthorized :
      Option (Env W × Browser W)
      → List ℕ
      → Dict String
      → Option String
      → ReadResponse
      → Attempt W Value
  unfolding get_token with_token judge
  reauthorized none body extra_headers sent_session r s = (judge sent_session r, s)
  reauthorized (some (env, browser)) body extra_headers sent_session r s =
      let (token, s') = on_manager (get_token env browser id setup.daemon_mode) s in
      with_token token body extra_headers sent_session r s'

  answered : Bool → List ℕ → Dict String → Option String → ReadResponse → Attempt W Value
  unfolding reauthorized judge
  answered retry body extra_headers sent_session r s =
      let again = reauthorized setup.oauth2 body extra_headers sent_session r s in
      if eqb r.status 401 && retry then again else (judge sent_session r, s)

  -- `send_request_inner` from the body on.
  exchange : Bool → Dict String → List ℕ → Attempt W Value
  unfolding post_json answered
  exchange retry extra_headers body s =
      let sent_session = s.session_id in
      (attempt (post_json body extra_headers sent_session) >>= λ r.
      modify (capture_session r) >> answered retry body extra_headers sent_session r)
        s

  abbrev request_body : ℕ → String → Option Value → Value
  request_body n method params = to_value (
      request (record {
        jsonrpc = jsonrpc_version;
        id = number_id (cast_i64 n);
        method = method;
        params = params;
      }))

  abbrev serialized : Value → Attempt W (List ℕ)
  serialized v = lift (
      map_err (λ e. plain_failure (backend_error protocol (concat ("serialize: " ∷ e ∷ []))))
        (setup.libraries.to_vec v))

  unfoldable pub send_request_inner : String → Option Value → Bool → Attempt W Value
  unfolding exchange modern_headers to_value
  send_request_inner method params retry s =
      let headers = modern_headers setup.libraries.header_codecs s.param_headers method params in
      (serialized (request_body s.request_counter method params) >>= exchange retry headers)
        (record s { request_counter = (s.request_counter + 1) % 2 ^ 64 })
