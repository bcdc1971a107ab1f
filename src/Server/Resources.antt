-- ===== src/Server/Resources.antt =====
-- crates/mcp-server/src/session.rs: `resources/list` and `resources/read`, forwarded to the backends.
use Prim.Native.String.{◌++◌ as str_append}
use headless_mcp_server.Prelude.{
  ℕ, String, Option, none, some, List, [], ◌∷◌, ◌++◌, Result, ok, err, ok_or, map_err,
}
use headless_mcp_server.Exec.{lift, ◌>>=◌}
use headless_mcp_server.Dict.{Dict, get, contains_key, insert}
use headless_mcp_server.Json.{Value, string, array, from_map, from_list, elems, get_field}
use headless_mcp_server.Core.{BackendError}
use headless_mcp_server.Wire.JsonRpc.{JsonRpcError, invalid_params, internal_error}
use headless_mcp_server.Registry.Route.{backend_request}
use headless_mcp_server.Registry.Listing.{backends_with}
use headless_mcp_server.Server.Protocol.{RequestCtx, then_get, then_str, or_insert}
use headless_mcp_server.Server.State.{McpSession, Handler, use_registry, require_initialized}

abbrev pub forward_timeout_secs : ℕ
forward_timeout_secs = 15

-- `result.get(k).and_then(Value::as_array)`, flattened.
abbrev pub listed : Option Value → List Value
listed (some (array vs)) = elems vs
listed _ = []

-- The two collections that the loop fills: the resources, and who serves which.
pub record Found : Type 0 where
  pub all : List Value
  pub owners : Dict String

abbrev add_resource : String → Found → Value → Option String → Found
add_resource id found resource none = found
add_resource id found resource (some uri) = record {
  all = found.all ++ resource ∷ [];
  owners = or_insert uri id found.owners;
}

unfoldable pub add_resources : String → Found → List Value → Found
unfolding contains_key insert get
add_resources id found [] = found
add_resources id found (resource ∷ more) =
    add_resources id (add_resource id found resource (then_str (get_field "uri" resource))) more

abbrev pub internal_of : BackendError → JsonRpcError
internal_of e = internal_error e.message

abbrev pub uri_of : Option Value → Option String
uri_of params = then_str (then_get "uri" params)

abbrev add_answer : String → Found → Result Value BackendError → Found
add_answer id found (ok result) = add_resources id found (listed (get_field "resources" result))
add_answer id found (err e) = found

abbrev pub required_uri : Option Value → Result String JsonRpcError
required_uri params = ok_or (invalid_params "resources/read requires 'uri'") (uri_of params)

abbrev pub known_owner : String → Option String → Result String JsonRpcError
known_owner uri found = ok_or (invalid_params (str_append "resource not found: " uri)) found

module _ {W : Type 0} where
  -- The loop over the backends; one that fails adds nothing.
  unfoldable pub collect_resources : List String → Found → McpSession W → Found × McpSession W
  unfolding backend_request add_resources
  collect_resources [] found s = (found, s)
  collect_resources (id ∷ ids) found s =
      let (r, s') =
        use_registry (backend_request id "resources/list" none forward_timeout_secs) s in
      collect_resources ids (add_answer id found r) s'

  unfoldable pub handle_resources_list : RequestCtx → Handler W Value
  unfolding require_initialized collect_resources backends_with
  handle_resources_list ctx = do
    _ ← require_initialized ctx
    λ s.
        let (found, s') =
          collect_resources (backends_with "resources" s.hub) (record { all = []; owners = [] })
            s in
        (
          ok (from_map (("resources", from_list found.all) ∷ [])),
          record s' { resource_owners = found.owners },
        )

  -- The owner, looked up again after a fresh listing if it is not known.
  unfoldable pub find_owner : RequestCtx → String → Handler W (Option String)
  unfolding handle_resources_list get
  find_owner ctx uri s = elim (get uri s.resource_owners) [
    | some owner ↦ (ok (some owner), s)
    | none ↦ (handle_resources_list ctx >>= λ _ s'. (ok (get uri s'.resource_owners), s')) s
  ]

  unfoldable pub handle_resources_read : Option Value → RequestCtx → Handler W Value
  unfolding require_initialized find_owner backend_request get
  handle_resources_read params ctx = do
    _ ← require_initialized ctx
    uri ← lift (required_uri params)
    found ← find_owner ctx uri
    owner ← lift (known_owner uri found)
    λ s.
        let (r, s') =
          use_registry
            (backend_request owner "resources/read" (some (from_map (("uri", string uri) ∷ [])))
              forward_timeout_secs)
            s in
        (map_err internal_of r, s')
