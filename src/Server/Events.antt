-- ===== src/Server/Events.antt =====
-- crates/mcp-server/src/session.rs: `events/list`, `events/subscribe` and `events/unsubscribe`.
use headless_mcp_server.Prelude.{
  String, Option, none, some, List, [], ◌∷◌, ◌++◌, Result, ok, err, ok_or, map_err, concat,
  strip_prefix, find_map,
}
use headless_mcp_server.Exec.{lift, ◌>>=◌}
use headless_mcp_server.Dict.{get, insert}
use headless_mcp_server.Json.{Value, string, from_map, from_list, get_field}
use headless_mcp_server.Core.{BackendError}
use headless_mcp_server.Wire.JsonRpc.{JsonRpcError, invalid_params}
use headless_mcp_server.Registry.Policy.{map_object}
use headless_mcp_server.Registry.State.{Hub, namespace}
use headless_mcp_server.Registry.Route.{backend_request}
use headless_mcp_server.Registry.Listing.{backends_with}
use headless_mcp_server.Server.Protocol.{RequestCtx, then_str}
use headless_mcp_server.Server.State.{McpSession, Handler, use_registry, require_initialized}
use headless_mcp_server.Server.Resources.{forward_timeout_secs, listed, internal_of}

-- `v["name"] = name`, on an object.
abbrev pub set_name : String → Value → Value
set_name name = map_object (insert "name" (string name))

abbrev pub in_namespace : Option String → String → String
in_namespace none name = name
in_namespace (some ns) name = concat (ns ∷ "." ∷ name ∷ [])

abbrev pub out_of_namespace : Option String → String → Option String
out_of_namespace none name = some name
out_of_namespace (some ns) name = strip_prefix (concat (ns ∷ "." ∷ [])) name

abbrev pub tagged : String → Option String → Option (String × String)
tagged id none = none
tagged id (some original) = some (id, original)

abbrev pub required_params : Option Value → Result Value JsonRpcError
required_params params = ok_or (invalid_params "missing params") params

abbrev pub required_name : Value → Result String JsonRpcError
required_name given =
    ok_or (invalid_params "'name' is required") (then_str (get_field "name" given))

module _ {W : Type 0} where
  unfoldable pub exposed_event_name : Hub W → String → String → String
  unfolding namespace
  exposed_event_name hub backend name = in_namespace (namespace backend hub) name

  abbrev exposed_event : Hub W → String → Value → Option String → Value
  exposed_event hub id event none = event
  exposed_event hub id event (some name) = set_name (exposed_event_name hub id name) event

  unfoldable pub exposed_events : Hub W → String → List Value → List Value
  unfolding exposed_event_name insert get
  exposed_events hub id [] = []
  exposed_events hub id (event ∷ events) =
      exposed_event hub id event (then_str (get_field "name" event)) ∷ exposed_events hub id events

  abbrev events_of : Hub W → String → Result Value BackendError → List Value
  events_of hub id (ok result) = exposed_events hub id (listed (get_field "events" result))
  events_of hub id (err e) = []

  unfoldable pub collect_events : List String → McpSession W → List Value × McpSession W
  unfolding backend_request exposed_events get
  collect_events [] s = ([], s)
  collect_events (id ∷ ids) s =
      let (r, s') = use_registry (backend_request id "events/list" none forward_timeout_secs) s in
      let (more, s'') = collect_events ids s' in (events_of s'.hub id r ++ more, s'')

  unfoldable pub handle_events_list : RequestCtx → Handler W Value
  unfolding require_initialized collect_events backends_with
  handle_events_list ctx = do
    _ ← require_initialized ctx
    λ s.
        let (all, s') = collect_events (backends_with "events" s.hub) s in
        (ok (from_map (("events", from_list all) ∷ [])), s')

  -- The first backend with events whose namespace the name stands in, and the name there.
  unfoldable pub event_owner : Hub W → String → Option (String × String)
  unfolding namespace strip_prefix backends_with
  event_owner hub name =
      find_map (λ id. tagged id (out_of_namespace (namespace id hub) name))
        (backends_with "events" hub)

  -- `events/subscribe` or `events/unsubscribe`, sent on to the event's owner.
  unfoldable pub forward_to_owner : String → Value → String → Handler W Value
  unfolding event_owner backend_request insert
  forward_to_owner method given name s = elim (event_owner s.hub name) [
    | none ↦ (err (invalid_params (concat ("unknown event '" ∷ name ∷ "'" ∷ []))), s)
    | some (backend, original) ↦
        let (r, s') =
          use_registry
            (backend_request backend method (some (set_name original given)) forward_timeout_secs)
            s in
        (map_err internal_of r, s')
  ]

  unfoldable pub forward_event_request : String → Option Value → RequestCtx → Handler W Value
  unfolding require_initialized forward_to_owner get
  forward_event_request method params ctx = do
    _ ← require_initialized ctx
    given ← lift (required_params params)
    name ← lift (required_name given)
    forward_to_owner method given name
