-- ===== src/Server/Laws/Forwarding.antt =====
-- crates/mcp-server/src/session.rs: what the forwarded requests leave as it was.
use headless_mcp_server.Prelude.{
  String, Option, none, some, List, [], ◌∷◌, ok, Option-cases, inl, inr,
}
use headless_mcp_server.Exec.{lift}
use headless_mcp_server.Dict.{get}
use headless_mcp_server.Json.{Value, string, from_map}
use headless_mcp_server.Registry.Listing.{backends_with}
use headless_mcp_server.Server.Protocol.{RequestCtx}
use headless_mcp_server.Server.State.{McpSession, require_initialized}
use headless_mcp_server.Server.Resources.{
  Found, collect_resources, handle_resources_list, find_owner, handle_resources_read, required_uri,
  known_owner, forward_timeout_secs,
}
use headless_mcp_server.Server.Events.{
  collect_events, handle_events_list, event_owner, forward_event_request, forward_to_owner,
  required_params, required_name, set_name,
}
use headless_mcp_server.Server.Laws.Follows.{
  Follows, stay, then_follow, request-Follows, Tracks, bind-Tracks, lift-Tracks, gate-Tracks,
}

module _ {W : Type 0} where
  collect_resources-Follows :
      (ids : List String) (found : Found) (s : McpSession W)
      → Follows s (collect_resources ids found s).1
  unfolding collect_resources
  collect_resources-Follows [] found s = stay s
  collect_resources-Follows (id ∷ ids) found s =
      then_follow s _ _ (request-Follows id "resources/list" none _ s)
        (collect_resources-Follows ids _ _)

  collect_events-Follows :
      (ids : List String) (s : McpSession W) → Follows s (collect_events ids s).1
  unfolding collect_events
  collect_events-Follows [] s = stay s
  collect_events-Follows (id ∷ ids) s =
      then_follow s _ _ (request-Follows id "events/list" none _ s) (collect_events-Follows ids _)

  pub handle_resources_list-Tracks : (ctx : RequestCtx) → Tracks (handle_resources_list {W = W} ctx)
  unfolding handle_resources_list
  handle_resources_list-Tracks ctx = bind-Tracks (require_initialized ctx) _ (gate-Tracks ctx) λ _.
      record {
        at = λ s.
            let f =
              collect_resources-Follows (backends_with "resources" s.hub)
                (record { all = []; owners = [] }) s in
            record { reach = f.reach; audit_same = f.audit_same; stays_open = f.stays_open };
      }

  find_owner-Tracks : (ctx : RequestCtx) (uri : String) → Tracks (find_owner {W = W} ctx uri)
  unfolding find_owner
  find_owner-Tracks ctx uri = record {
    at = λ s. elim (Option-cases (get uri s.resource_owners)) [
      | inr (owner, e) ↦ rw (e, find_owner) (stay s)
      | inl e ↦
          rw (e, find_owner)
            ((bind-Tracks (handle_resources_list ctx)
                (λ _ s'. (ok (get uri s'.resource_owners), s')) (handle_resources_list-Tracks ctx)
                (λ _. record { at = λ s'. stay s' })).at
              s)
    ];
  }

  pub handle_resources_read-Tracks :
      (params : Option Value) (ctx : RequestCtx) → Tracks (handle_resources_read {W = W} params ctx)
  unfolding handle_resources_read
  handle_resources_read-Tracks params ctx =
      bind-Tracks (require_initialized ctx) _ (gate-Tracks ctx) λ _.
        bind-Tracks (lift (required_uri params)) _ (lift-Tracks (required_uri params)) λ uri.
          bind-Tracks (find_owner ctx uri) _ (find_owner-Tracks ctx uri) λ found.
            bind-Tracks (lift (known_owner uri found)) _ (lift-Tracks (known_owner uri found))
              λ owner. record {
                at = λ s.
                    let f =
                      request-Follows owner "resources/read"
                        (some (from_map (("uri", string uri) ∷ []))) forward_timeout_secs s in
                    f;
              }

  pub handle_events_list-Tracks : (ctx : RequestCtx) → Tracks (handle_events_list {W = W} ctx)
  unfolding handle_events_list
  handle_events_list-Tracks ctx =
      bind-Tracks (require_initialized ctx) _ (gate-Tracks ctx)
        λ _. record { at = λ s. collect_events-Follows (backends_with "events" s.hub) s }

  forward_to_owner-Tracks :
      (method : String) (given : Value) (name : String)
      → Tracks (forward_to_owner {W = W} method given name)
  unfolding forward_to_owner
  forward_to_owner-Tracks method given name = record {
    at = λ s. elim (Option-cases (event_owner s.hub name)) [
      | inl e ↦ rw (e, forward_to_owner) (stay s)
      | inr ((backend, original), e) ↦
          rw (e, forward_to_owner)
            (request-Follows backend method (some (set_name original given)) forward_timeout_secs s)
    ];
  }

  pub forward_event_request-Tracks :
      (method : String) (params : Option Value) (ctx : RequestCtx)
      → Tracks (forward_event_request {W = W} method params ctx)
  unfolding forward_event_request
  forward_event_request-Tracks method params ctx =
      bind-Tracks (require_initialized ctx) _ (gate-Tracks ctx) λ _.
        bind-Tracks (lift (required_params params)) _ (lift-Tracks (required_params params))
          λ given.
            bind-Tracks (lift (required_name given)) _ (lift-Tracks (required_name given))
              λ name. forward_to_owner-Tracks method given name
