-- ===== src/StdioTransport/Closed.antt =====
-- crates/transport-stdio/src/lib.rs: what the inputs of the loop keep.
use headless_mcp_server.Prelude.{
  ◌+◌, ℕ, String, ◌==◌, Option, none, some, List, [], ◌∷◌, Result, ok, err, any, keep, eqb,
  Bool-cases, inl, inr,
}
use headless_mcp_server.Dict.{get, insert, remove}
use headless_mcp_server.Json.{Value}
use headless_mcp_server.Wire.JsonRpc.{
  new_error_response, id_to_value, JsonRpcError, JsonRpcMessage, request, notification,
  success_response, error_response,
}
use headless_mcp_server.Wire.JsonRpc.Decode.{decode_message}
use headless_mcp_server.Server.Protocol.{then_get}
use headless_mcp_server.Server.State.{McpSession}
use headless_mcp_server.Server.Subscriptions.{SessionReply, message, stream, handle_streaming}
use headless_mcp_server.OAuth2.Query.{trim}
use headless_mcp_server.StdioTransport.{
  task, Step, yielded, on_step, send, abort, LineCodecs, Input, line, unreadable, streamed,
  LineState, is_other, abort_found, cancel_id, cancel, reply, on_decoded, on_line, on_input,
  run_lines,
}

module _ {W : Type 0} where
  -- A property of the state that a cancellation, a message to the writer, the session's own changes,
  -- the start of a task and the end of a task all keep.
  pub record IsClosed (P : LineState W → Type 0) : Type 0 where
    pub cancels :
        (key : String) (t : ℕ) (s : LineState W)
        → P s
        → P (abort t (record s { streams = remove key s.streams }))
    pub sends : (m : JsonRpcMessage) (s : LineState W) → P s → P (send m s)
    pub works :
        (session : McpSession W) (s : LineState W) → P s → P (record s { session = session })
    pub starts :
        (key : String) (s : LineState W)
        → P s
        → P (record s {
          streams = insert key s.next s.streams;
          tasks = s.next ∷ s.tasks;
          next = s.next + 1;
        })
    pub ends : (t : ℕ) (s : LineState W) → P s → P (record s { tasks = keep (is_other t) s.tasks })

  module _ (P : LineState W → Type 0) (closed : IsClosed P) where
    abort_found_keeps :
        (key : String) (o : Option ℕ) (s : LineState W) → P s → P (abort_found key o s)
    abort_found_keeps key none s h = h
    abort_found_keeps key (some t) s h = closed.cancels key t s h

    cancel_id_keeps :
        (codecs : LineCodecs) (o : Option Value) (s : LineState W) → P s → P (cancel_id codecs o s)
    cancel_id_keeps codecs none s h = h
    cancel_id_keeps codecs (some id) s h =
        abort_found_keeps (codecs.show_value id) (get (codecs.show_value id) s.streams) s h

    cancel_keeps :
        (codecs : LineCodecs) (m : JsonRpcMessage) (s : LineState W) → P s → P (cancel codecs m s)
    unfolding cancel
    cancel_keeps codecs (notification n) s h =
        elim (Bool-cases (n.method == "notifications/cancelled")) [
          | inl this ↦ rw this (cancel_id_keeps codecs (then_get "requestId" n.params) s h)
          | inr other ↦ rw other h
        ]
    cancel_keeps codecs (request r) s h = h
    cancel_keeps codecs (success_response r) s h = h
    cancel_keeps codecs (error_response r) s h = h

    reply_keeps :
        (codecs : LineCodecs) (r : Option SessionReply) (s : LineState W)
        → P s
        → P (reply codecs r s)
    unfolding reply
    reply_keeps codecs none s h = h
    reply_keeps codecs (some (message m)) s h = closed.sends m s h
    reply_keeps codecs (some (stream id sub)) s h =
        closed.starts (codecs.show_value (id_to_value id)) s h

    on_decoded_keeps :
        (codecs : LineCodecs) (r : Result JsonRpcMessage JsonRpcError) (s : LineState W)
        → P s
        → P (on_decoded codecs r s)
    unfolding on_decoded
    on_decoded_keeps codecs (ok m) s h =
        let s' = cancel codecs m s in
        let (r, session) = handle_streaming codecs.codec m s'.session in
        reply_keeps codecs r (record s' { session = session })
          (closed.works session s' (cancel_keeps codecs m s h))
    on_decoded_keeps codecs (err e) s h =
        closed.sends (error_response (new_error_response none e)) s h

    on_step_keeps : (step : Step) (s : LineState W) → P s → P (on_step step s)
    on_step_keeps (streamed t m) s h = elim (Bool-cases (any (eqb t) s.tasks)) [
      | inl alive ↦ rw alive (closed.sends m s h)
      | inr gone ↦ rw gone h
    ]
    on_step_keeps (yielded t) s h = elim (Bool-cases (any (eqb t) s.aborted)) [
      | inl aborted ↦ rw aborted (closed.ends t s h)
      | inr kept ↦ rw kept h
    ]

    pub on_input_keeps :
        (codecs : LineCodecs) (input : Input) (s : LineState W) → P s → P (on_input codecs input s)
    unfolding on_input on_line
    on_input_keeps codecs (line l) s h = elim (Bool-cases (trim l == "")) [
      | inl blank ↦ rw blank h
      | inr full ↦
          rw full (on_decoded_keeps codecs (decode_message codecs.serde (codecs.as_bytes l)) s h)
    ]
    on_input_keeps codecs unreadable s h = h
    on_input_keeps codecs (task step) s h = on_step_keeps step s h

    pub run_lines_keeps :
        (codecs : LineCodecs) (inputs : List Input) (s : LineState W)
        → P s
        → P (run_lines codecs inputs s)
    unfolding run_lines
    run_lines_keeps codecs [] s h = h
    run_lines_keeps codecs (input ∷ inputs) s h =
        run_lines_keeps codecs inputs (on_input codecs input s) (on_input_keeps codecs input s h)
