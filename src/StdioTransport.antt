-- ===== src/StdioTransport.antt =====
-- crates/transport-stdio/src/lib.rs: a session over the lines of stdin and stdout.
pub mod Closed
pub mod Streams
pub mod Cancelled
pub mod Tests
use headless_mcp_server.Prelude.{
  ℕ, ◌+◌, String, ◌==◌, Bool, true, false, not, Option, none, some, List, [], ◌∷◌, ◌++◌, Result, ok,
  err, any, keep, eqb, if◌then◌else◌,
}
use headless_mcp_server.Dict.{Dict, get, insert, remove}
use headless_mcp_server.Json.{Value}
use headless_mcp_server.Wire.JsonRpc.{
  JsonRpcId, JsonRpcError, JsonRpcMessage, request, notification, success_response, error_response,
  new_error_response, id_to_value,
}
use headless_mcp_server.Wire.JsonRpc.Decode.{Serde, decode_message}
use headless_mcp_server.Server.Protocol.{then_get}
use headless_mcp_server.Server.State.{McpSession, Codec}
use headless_mcp_server.Server.Subscriptions.{
  SessionReply, message, stream, Subscription, handle_streaming,
}
use headless_mcp_server.OAuth2.Query.{trim}

-- The JSON readers, and the text of a value (`to_string`).
pub record LineCodecs : Type 0 where
  pub serde : Serde
  pub codec : Codec
  pub as_bytes : String → List ℕ
  pub show_value : Value → String

-- What the task of a stream does: it takes a message out of its channel, or it yields to the
-- runtime.
pub data Step : Type 0 where
  streamed : ℕ → JsonRpcMessage → Step
  yielded : ℕ → Step

-- What happens while the loop of `run` goes on: a line of stdin, an error in its place, or a step of
-- a task.
pub data Input : Type 0 where
  line : String → Input
  unreadable : Input
  task : Step → Input

-- The state of `run`. `streams` has the handle of a task for each id, `tasks` the tasks that have
-- not ended, `aborted` those that were told to, `next` is the number of the next one, and `out` is
-- what was sent to the writer.
pub record LineState (W : Type 0) : Type 0 where
  pub session : McpSession W
  pub streams : Dict ℕ
  pub tasks : List ℕ
  pub aborted : List ℕ
  pub next : ℕ
  pub out : List JsonRpcMessage

abbrev pub is_other : ℕ → ℕ → Bool
is_other h t = not (eqb h t)

abbrev pub new_state : {W : Type 0} → McpSession W → LineState W
new_state session = record {
  session = session;
  streams = [];
  tasks = [];
  aborted = [];
  next = 0;
  out = [];
}

module _ {W : Type 0} where
  abbrev pub send : JsonRpcMessage → LineState W → LineState W
  send m s = record s { out = s.out ++ m ∷ [] }

  -- `handle.abort()`: the task ends when it next yields.
  abbrev pub abort : ℕ → LineState W → LineState W
  abort h s = record s { aborted = h ∷ s.aborted }

  abbrev abort_found : String → Option ℕ → LineState W → LineState W
  abort_found key none s = s
  abort_found key (some h) s = abort h (record s { streams = remove key s.streams })

  abbrev pub cancel_id : LineCodecs → Option Value → LineState W → LineState W
  cancel_id codecs none s = s
  cancel_id codecs (some id) s =
      let key = codecs.show_value id in abort_found key (get key s.streams) s

  unfoldable pub cancel : LineCodecs → JsonRpcMessage → LineState W → LineState W
  unfolding get remove
  cancel codecs (notification n) s =
      let cancelled = cancel_id codecs (then_get "requestId" n.params) s in
      if n.method == "notifications/cancelled" then cancelled else s
  cancel codecs (request r) s = s
  cancel codecs (success_response r) s = s
  cancel codecs (error_response r) s = s

  -- What is done with the reply; the task of a stream is started.
  reply : LineCodecs → Option SessionReply → LineState W → LineState W
  unfolding insert
  reply codecs none s = s
  reply codecs (some (message m)) s = send m s
  reply codecs (some (stream id sub)) s = record s {
    streams = insert (codecs.show_value (id_to_value id)) s.next s.streams;
    tasks = s.next ∷ s.tasks;
    next = s.next + 1;
  }

  abbrev handle : LineCodecs → JsonRpcMessage → LineState W → LineState W
  handle codecs m s =
      let (r, session) = handle_streaming codecs.codec m s.session in
      reply codecs r (record s { session = session })

  unfoldable on_decoded :
      LineCodecs → Result JsonRpcMessage JsonRpcError → LineState W → LineState W
  unfolding handle_streaming cancel reply
  on_decoded codecs (ok m) s = handle codecs m (cancel codecs m s)
  on_decoded codecs (err e) s = send (error_response (new_error_response none e)) s

  on_line : LineCodecs → String → LineState W → LineState W
  unfolding trim decode_message on_decoded
  on_line codecs l s =
      let handled = on_decoded codecs (decode_message codecs.serde (codecs.as_bytes l)) s in
      if trim l == "" then s else handled

  -- A step of a task that has not ended. The runtime ends an aborted task where it yields.
  abbrev pub on_step : Step → LineState W → LineState W
  on_step (streamed h m) s = if any (eqb h) s.tasks then send m s else s
  on_step (yielded h) s =
      if any (eqb h) s.aborted then record s { tasks = keep (is_other h) s.tasks } else s

  unfoldable pub on_input : LineCodecs → Input → LineState W → LineState W
  unfolding on_line
  on_input codecs (line l) s = on_line codecs l s
  on_input codecs unreadable s = s
  on_input codecs (task step) s = on_step step s

  unfoldable pub run_lines : LineCodecs → List Input → LineState W → LineState W
  unfolding on_input
  run_lines codecs [] s = s
  run_lines codecs (input ∷ inputs) s = run_lines codecs inputs (on_input codecs input s)

  abort_all : Dict ℕ → LineState W → LineState W
  abort_all [] s = s
  abort_all ((key, h) ∷ handles) s = abort_all handles (abort h s)

  run_steps : List Step → LineState W → LineState W
  run_steps [] s = s
  run_steps (step ∷ steps) s = run_steps steps (on_step step s)

  -- `run`: the loop to the end of stdin, and the tasks, which are aborted then, with the steps that
  -- they take before they have ended.
  unfoldable pub run : LineCodecs → List Input → List Step → McpSession W → LineState W
  unfolding run_lines run_steps abort_all
  run codecs inputs last session =
      let s = run_lines codecs inputs (new_state session) in run_steps last (abort_all s.streams s)
