-- ===== src/Server/Subscriptions.antt =====
-- crates/mcp-server/src/subscriptions.rs: replies of a streaming transport, and the streams of
-- `subscriptions/listen`.
use headless_mcp_server.Prelude.{
  String, Bool, true, false, Option, none, some, List, [], ◌∷◌, Result, ok, err, ◌==◌,
  if◌then◌else◌,
}
use headless_mcp_server.Dict.{get, insert}
use headless_mcp_server.Json.{Value, bool, Map, from_map}
use headless_mcp_server.Wire.JsonRpc.{
  JsonRpcId, JsonRpcError, invalid_request, JsonRpcMessage, request, notification, success_response,
  error_response, new_notification, new_error_response, id_to_value,
}
use headless_mcp_server.Server.Protocol.{
  RequestCtx, from_params, is_modern, check_version, request_protocol_version, then_get,
  meta_subscription_id,
}
use headless_mcp_server.Server.State.{Change, tools_list_changed, McpSession, Codec}
use headless_mcp_server.Server.Dispatch.{handle_request}

-- A stream: what its task holds, and the acknowledgement that is in its channel already.
pub record Subscription : Type 0 where
  pub sub_id : Value
  pub tools : Bool
  pub acknowledgement : JsonRpcMessage

pub data SessionReply : Type 0 where
  message : JsonRpcMessage → SessionReply
  stream : JsonRpcId → Subscription → SessionReply

unfoldable pub subscription_notification : String → Value → Map → JsonRpcMessage
unfolding insert
subscription_notification method sub_id params = notification (
    new_notification method
      (some (from_map (insert "_meta" (from_map ((meta_subscription_id, sub_id) ∷ [])) params))))

abbrev says_true : Option Value → Bool
says_true (some (bool b)) = b
says_true _ = false

-- `params.get("notifications")` or null, then `get("toolsListChanged") == Some(true)`.
unfoldable pub wants_tools : Option Value → Bool
unfolding get
wants_tools params = says_true (then_get "toolsListChanged" (then_get "notifications" params))

abbrev subscribe : Value → Bool → Subscription
subscribe sub_id tools = record {
  sub_id = sub_id;
  tools = tools;
  acknowledgement = subscription_notification "notifications/subscriptions/acknowledged" sub_id (
      ("notifications", from_map (if tools then ("toolsListChanged", bool true) ∷ [] else []))
      ∷ []);
}

abbrev listen_checked : JsonRpcId → Option Value → RequestCtx → Result Subscription JsonRpcError
listen_checked id params ctx =
    if is_modern ctx
    then ok (subscribe (id_to_value id) (wants_tools params))
    else err (invalid_request "subscriptions/listen requires protocol version 2026-07-28")

unfoldable pub listen : JsonRpcId → Option Value → RequestCtx → Result Subscription JsonRpcError
unfolding check_version wants_tools subscription_notification
listen id params ctx = elim (check_version ctx) [
  | err e ↦ err e
  | ok _ ↦ listen_checked id params ctx
]

-- What `changes.recv()` gives to the task of a stream.
pub data Received : Type 0 where
  changed : Change → Received
  lagged : Received
  closed : Received

-- The messages that the task sends on, while its client stays, for a row of what it receives.
unfoldable pub forward_changes : Subscription → List Received → List JsonRpcMessage
unfolding subscription_notification
forward_changes sub [] = []
forward_changes sub (closed ∷ more) = []
forward_changes sub (lagged ∷ more) = forward_changes sub more
forward_changes sub (changed tools_list_changed ∷ more) =
    let rest = forward_changes sub more in
    if sub.tools
    then subscription_notification "notifications/tools/list_changed" sub.sub_id [] ∷ rest
    else rest

abbrev listen_reply : JsonRpcId → Result Subscription JsonRpcError → SessionReply
listen_reply id (ok sub) = stream id sub
listen_reply id (err e) = message (error_response (new_error_response (some id) e))

module _ {W : Type 0} where
  unfoldable pub handle_streaming :
      Codec → JsonRpcMessage → McpSession W → Option SessionReply × McpSession W
  unfolding listen request_protocol_version handle_request
  handle_streaming codec (request r) s =
      if r.method == "subscriptions/listen"
      then (some (listen_reply r.id (listen r.id r.params (from_params r.params))), s)
      else let (reply, s') = handle_request codec r s in (some (message reply), s')
  handle_streaming codec (notification n) s = (none, s)
  handle_streaming codec (success_response r) s = (none, s)
  handle_streaming codec (error_response r) s = (none, s)
