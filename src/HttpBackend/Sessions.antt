-- ===== src/HttpBackend/Sessions.antt =====
-- crates/backends/backend-http/src/lib.rs: the handshake, and its repetition when the session is
-- lost.
pub mod Laws
use Prim.Native.Nat.{◌^◌}
use headless_mcp_server.Prelude.{
  ℕ, ◌+◌, ◌%◌, String, ◌==◌, Bool, true, false, not, ◌||◌, Option, none, some, List, [], ◌∷◌,
  Result, ok, err, map_err, eqb, concat, if◌then◌else◌, ◌&&◌,
}
use headless_mcp_server.Dict.{Dict}
use headless_mcp_server.Json.{Value, string, from_map}
use headless_mcp_server.Core.{
  BackendError, BackendResult, backend_error, connection, protocol, InitializeResult,
}
use headless_mcp_server.Exec.{Exec, lift, raise, modify, ignore, ◌>>=◌, ◌>>◌}
use headless_mcp_server.Wire.JsonRpc.{JsonRpcMessage, notification, new_notification, to_value}
use headless_mcp_server.Server.Protocol.{request_protocol_version}
use headless_mcp_server.OAuth2.Discovery.{is_success}
use headless_mcp_server.HttpBackend.State.{
  Failure, HttpState, Post, SendError, Reply, Libraries, Setup, Call, Attempt,
}
use headless_mcp_server.HttpBackend.Requests.{post, send_request_inner}

abbrev pub or_stale : Option String → Option String → Option String
or_stale stale none = stale
or_stale stale (some sid) = some sid

abbrev pub next_epoch : {W : Type 0} → HttpState W → HttpState W
next_epoch s = record s { session_epoch = (s.session_epoch + 1) % 2 ^ 64 }

module _ {W : Type 0} (setup : Setup W) where
  -- `.map_err(|f| f.error)`
  abbrev pub without_reason : {A : Type 0} → Attempt W A → Call W A
  without_reason n s = (map_err (λ f. f.error) (n s).0, (n s).1)

  abbrev notified : Result Reply SendError → BackendResult (Unit {0})
  notified (err e) = err (
      backend_error connection
        (concat ("HTTP notification to '" ∷ setup.definition.id ∷ "' failed: " ∷ e.text ∷ [])))
  notified (ok reply) =
      if not (is_success reply.status) && not (eqb reply.status 202)
      then err (
          backend_error protocol (
            concat (
              "notification to '"
              ∷ setup.definition.id
              ∷ "' returned HTTP "
              ∷ setup.libraries.show_status reply.status
              ∷ [])))
      else ok tt

  -- `session_header`: an id that is no header value is left out.
  abbrev session_header : Option String → Option String
  session_header none = none
  session_header (some sid) =
      if setup.libraries.header_codecs.is_header_value sid then some sid else none

  abbrev post_notification : List ℕ → Call W (Unit {0})
  post_notification body s =
      let (r, s') =
        post setup
          (record {
            url = setup.url;
            authorization = s.client;
            accept = none;
            session = session_header s.session_id;
            headers = [];
            body = body;
          })
          s in
      (notified r, s')

  abbrev pub notification_body : String → Option Value → BackendResult (List ℕ)
  notification_body method params =
      map_err (λ e. backend_error protocol (concat ("serialize: " ∷ e ∷ [])))
        (setup.libraries.to_vec (to_value (notification (new_notification method params))))

  unfoldable pub send_notification : String → Option Value → Call W (Unit {0})
  unfolding to_value
  send_notification method params = do
    body ← lift (notification_body method params)
    post_notification body

  abbrev initialize_params : Value
  initialize_params = from_map (
      ("protocolVersion", string "2024-11-05")
      ∷ (
        "clientInfo",
        from_map
            (("name", string "headless-mcp") ∷ ("version", string setup.libraries.version) ∷ []),
      )
      ∷ ("capabilities", from_map [])
      ∷ [])

  abbrev pub read_init : Value → BackendResult InitializeResult
  read_init result =
      map_err (λ e. backend_error protocol (concat ("bad init result: " ∷ e ∷ [])))
        (setup.libraries.initialize_result result)

  abbrev pub announced : InitializeResult → Call W InitializeResult
  announced init = do ignore (send_notification "notifications/initialized" none); lift (ok init)

  unfoldable pub handshake : Call W InitializeResult
  unfolding send_request_inner send_notification
  handshake = do
    result ← without_reason (send_request_inner setup "initialize" (some initialize_params) true)
    init ← lift (read_init result)
    announced init

  -- What is written after the handshake.
  concluded : Option String → BackendResult InitializeResult → Call W (Unit {0})
  concluded stale (ok init) s =
      (ok tt, record s { initialize_result = some init; tools_refresh = true })
  concluded stale (err e) s = (err e, record s { session_id = or_stale stale s.session_id })

  -- The handshake with no session id, behind the lock.
  redo : Call W (Unit {0})
  unfolding handshake concluded
  redo s =
      let (outcome, s') = handshake (record s { session_id = none }) in
      concluded s.session_id outcome (next_epoch s')

  unfoldable pub reinitialize : ℕ → Call W (Unit {0})
  unfolding redo
  reinitialize seen_epoch s =
      let s' = setup.others s in
      let redone = redo s' in if eqb s'.session_epoch seen_epoch then redone else (ok tt, s')

  abbrev is_some : Option String → Bool
  is_some none = false
  is_some (some v) = true

  -- Whether a request may be repeated in a new session.
  abbrev pub is_final : String → Option Value → Bool
  is_final method params = method == "initialize" || is_some (request_protocol_version params)

  -- The second attempt, in a new session; if there is none, the first error stands.
  again : String → Option Value → Bool → BackendError → BackendResult (Unit {0}) → Call W Value
  unfolding send_request_inner
  again method params retry error (err e) s = (err error, s)
  again method params retry error (ok _) s =
      without_reason (send_request_inner setup method params retry) s

  recover : ℕ → String → Option Value → Bool → Failure → Option String → Call W Value
  unfolding reinitialize again request_protocol_version
  recover epoch method params retry failure none s = (err failure.error, s)
  recover epoch method params retry failure (some reason) s =
      let (r, s') = reinitialize epoch s in
      let repeated = again method params retry failure.error r s' in
      if is_final method params then (err failure.error, s) else repeated

  settle : ℕ → String → Option Value → Bool → Result Value Failure → Call W Value
  unfolding recover
  settle epoch method params retry (ok v) s = (ok v, s)
  settle epoch method params retry (err failure) s =
      recover epoch method params retry failure failure.session_lost s

  unfoldable pub send_request : String → Option Value → Bool → Call W Value
  unfolding send_request_inner settle
  send_request method params retry s =
      let (first, s') = send_request_inner setup method params retry s in
      settle s.session_epoch method params retry first s'
