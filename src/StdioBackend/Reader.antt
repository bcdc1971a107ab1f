-- ===== src/StdioBackend/Reader.antt =====
-- crates/backends/backend-stdio/src/lib.rs: the task that reads the answers.
pub mod Answers
use headless_mcp_server.Prelude.{
  ℕ, String, ◌==◌, Bool, true, false, Option, none, some, List, [], ◌∷◌, Result, ok, err, concat,
  if◌then◌else◌,
}
use headless_mcp_server.Json.{ℤ, Value}
use headless_mcp_server.Core.{BackendError, BackendResult, backend_error, connection, protocol}
use headless_mcp_server.Wire.JsonRpc.{
  JsonRpcId, number_id, string_id, JsonRpcError, JsonRpcMessage, request, notification,
  success_response, error_response,
}
use headless_mcp_server.Wire.JsonRpc.Decode.{decode_message}
use headless_mcp_server.OAuth2.Query.{trim}
use headless_mcp_server.StdioBackend.State.{
  Channel, Pending, StdioState, StdioCodecs, find_pending, remove_pending,
}

-- The answer that a message of the process is, and the id of its request.
abbrev pub answer_in : String → JsonRpcMessage → Option (ℤ × BackendResult Value)
answer_in backend_id (success_response r) = elim r.id [
  | number_id n ↦ some (n, ok r.result)
  | string_id s ↦ none
]
answer_in backend_id (error_response r) = elim r.id [
  | some id ↦ elim id [
    | number_id n ↦ some (
      n,
      err (
          backend_error protocol
            (concat ("backend '" ∷ backend_id ∷ "' returned error: " ∷ r.error.message ∷ []))),
    )
    | string_id s ↦ none
  ]
  | none ↦ none
]
answer_in backend_id (request r) = none
answer_in backend_id (notification n) = none

abbrev in_message : String → Result JsonRpcMessage JsonRpcError → Option (ℤ × BackendResult Value)
in_message backend_id (ok message) = answer_in backend_id message
in_message backend_id (err e) = none

-- The answer on a line: a blank line, and one that does not decode, has none.
unfoldable pub answer_on : StdioCodecs → String → String → Option (ℤ × BackendResult Value)
unfolding trim decode_message
answer_on codecs backend_id line =
    let answer = in_message backend_id (decode_message codecs.serde (codecs.as_bytes line)) in
    if trim line == "" then none else answer

abbrev pub disconnected : String → BackendResult Value
disconnected backend_id =
    err (backend_error connection (concat ("backend '" ∷ backend_id ∷ "' disconnected" ∷ [])))

module _ {W : Type 0} where
  -- `tx.send(r)`, at the sender that was taken out of the map.
  abbrev pub deliver_to : Option Channel → ℤ → BackendResult Value → StdioState W → StdioState W
  deliver_to none id r s = s
  deliver_to (some c) id r s = record s {
    pending = remove_pending id s.pending;
    sent = (c, r) ∷ s.sent;
  }

  abbrev pub deliver : Option (ℤ × BackendResult Value) → StdioState W → StdioState W
  deliver none s = s
  deliver (some (id, r)) s = deliver_to (find_pending id s.pending) id r s

  unfoldable pub on_line : StdioCodecs → String → String → StdioState W → StdioState W
  unfolding answer_on
  on_line codecs backend_id line = deliver (answer_on codecs backend_id line)

  abbrev pub drain : String → Pending → StdioState W → StdioState W
  drain backend_id [] s = record s { pending = [] }
  drain backend_id ((id, c) ∷ p) s =
      drain backend_id p (record s { sent = (c, disconnected backend_id) ∷ s.sent })

  -- The end of the task: every caller that still waits is told.
  unfoldable pub on_close : String → StdioState W → StdioState W
  on_close backend_id s = drain backend_id s.pending (record s { connected = false })

  -- `read_responses` over the lines that come before the stream ends or fails, and the end.
  unfoldable pub read_responses : StdioCodecs → String → List String → StdioState W → StdioState W
  unfolding on_line on_close
  read_responses codecs backend_id [] s = on_close backend_id s
  read_responses codecs backend_id (line ∷ lines) s =
      read_responses codecs backend_id lines (on_line codecs backend_id line s)
