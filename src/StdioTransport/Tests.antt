-- ===== src/StdioTransport/Tests.antt =====
-- crates/transport-stdio/src/lib.rs: a small client, and the theorem at it.
use headless_mcp_server.Prelude.{
  ℕ, String, ◌==◌, ◌≡◌, refl, true, false, none, some, List, [], ◌∷◌, Result, ok, err, eqb, length,
  keep, if◌then◌else◌,
}
use headless_mcp_server.Dict.{get, insert, contains_key, remove}
use headless_mcp_server.Json.{Value, bool, string, number, int, pos, from_map}
use headless_mcp_server.Wire.JsonRpc.{
  JsonRpcMessage, JsonRpcNotification, notification, new_notification,
}
use headless_mcp_server.Wire.JsonRpc.Decode.{decode_message}
use headless_mcp_server.Server.Protocol.{then_get}
use headless_mcp_server.Http.Tests.{libraries, session}
use headless_mcp_server.OAuth2.Query.{trim}
use headless_mcp_server.StdioTransport.{
  LineCodecs, Input, LineState, line, unreadable, task, streamed, yielded, new_state, run_lines,
  run,
}
use headless_mcp_server.StdioTransport.Streams.{not_of}
use headless_mcp_server.StdioTransport.Cancelled.{cancel-silences}

abbrev listen_request : Value
listen_request = from_map (
    ("jsonrpc", string "2.0")
    ∷ ("id", number (int (pos 7)))
    ∷ ("method", string "subscriptions/listen")
    ∷ (
      "params",
      from_map (
          (
            "_meta",
            from_map (("io.modelcontextprotocol/protocolVersion", string "2026-07-28") ∷ []),
          )
          ∷ ("notifications", from_map (("toolsListChanged", bool true) ∷ []))
          ∷ []),
    )
    ∷ [])

abbrev cancel_params : Value
cancel_params = from_map (("requestId", number (int (pos 7))) ∷ [])

abbrev cancel_request : Value
cancel_request = from_map (
    ("jsonrpc", string "2.0")
    ∷ ("method", string "notifications/cancelled")
    ∷ ("params", cancel_params)
    ∷ [])

abbrev read_line : List ℕ → Result Value String
read_line [] = err "not JSON"
read_line (b ∷ bytes) = if eqb b 1 then ok listen_request else ok cancel_request

abbrev codecs : LineCodecs
codecs = record {
  serde = record { from_slice = read_line; error_from_value = λ v. err "none" };
  codec = libraries.codec;
  as_bytes = λ l. if l == "listen" then 1 ∷ [] else if l == "cancel" then 2 ∷ [] else [];
  show_value = λ v. "7";
}

abbrev tools_changed : JsonRpcMessage
tools_changed = notification (new_notification "notifications/tools/list_changed" none)

-- A line that does not decode is answered, a blank one is not; the task of a stream that was
-- cancelled writes until it yields.
written_test :
    length
      (run codecs
        (line "{"
          ∷ line "  "
          ∷ line "listen"
          ∷ task (streamed 0 tools_changed)
          ∷ line "cancel"
          ∷ task (streamed 0 tools_changed)
          ∷ task (yielded 0)
          ∷ task (streamed 0 tools_changed)
          ∷ [])
        []
        session).out
    ≡ 3
unfolding run get insert contains_key remove
written_test = refl

abbrev before : List Input
before = line "listen" ∷ task (streamed 0 tools_changed) ∷ []

abbrev until : List Input
until = task (streamed 0 tools_changed) ∷ []

abbrev after : List Input
after = task (streamed 0 tools_changed) ∷ unreadable ∷ line "{" ∷ []

abbrev the_cancel : JsonRpcNotification
the_cancel = new_notification "notifications/cancelled" (some cancel_params)

decodes : decode_message codecs.serde (codecs.as_bytes "cancel") ≡ ok (notification the_cancel)
unfolding decode_message get contains_key
decodes = refl

not_blank : (trim "cancel" == "") ≡ false
unfolding trim
not_blank = refl

named : then_get "requestId" the_cancel.params ≡ some (number (int (pos 7)))
unfolding get
named = refl

listening : get "7" (run_lines codecs before (new_state session)).streams ≡ some 0
unfolding run_lines get insert contains_key remove
listening = refl

abbrev cancelled : LineState ℕ
cancelled = run_lines codecs (line "cancel" ∷ until) (run_lines codecs before (new_state session))

cancel-silences_example :
    run_lines codecs (task (yielded 0) ∷ after) cancelled
    ≡ run_lines codecs (task (yielded 0) ∷ keep (not_of 0) after) cancelled
cancel-silences_example =
    cancel-silences codecs session before until after "cancel" the_cancel (number (int (pos 7))) 0
      not_blank decodes refl named listening
