-- ===== src/Config/Tests.antt =====
-- crates/server/src/config.rs: a small configuration, and the theorems at it.
use headless_mcp_server.Prelude.{
  ◌==◌, ◌≡◌, ◌↔◌, refl, false, none, some, [], ◌∷◌, ok, err, concat, inl, inr, if◌then◌else◌,
}
use headless_mcp_server.Json.{from_map}
use headless_mcp_server.Core.{BackendDef, lazy, log_on_error}
use headless_mcp_server.Http.{run_http}
use headless_mcp_server.Http.Tests.{libraries, session}
use headless_mcp_server.Config.Placeholders.{Environment, cut, unresolved, resolve_value}
use headless_mcp_server.Config.Placeholders.Laws.{IsName, IsPlain, env_placeholder}
use headless_mcp_server.Config.Raw.{RawBackendConfig, RawAuthConfig, RawConfig, HubConfig}
use headless_mcp_server.Config.Load.{resolved_config, backend_of, definition_of, stdio_of}
use headless_mcp_server.Config.Start.{http_config}
use headless_mcp_server.Config.Start.Refused.{unset_token-refused}
use headless_mcp_server.Config.Load.Usable.{IsUsable, backend_of_iff}

abbrev environment : Environment
environment = record {
  var = λ name.
      if name == "TOKEN"
      then some "s3cret"
      else if name == "LOOP"
      then some "{{env:LOOP}}"
      else if name == "HEADLESS_MCP_SECRET_NOTION"
      then some "n"
      else none;
  to_uppercase = λ s. "NOTION";
}

inside_test : resolve_value environment "a-{{env:TOKEN}}-{{secret:Notion}}" ≡ "a-s3cret-n"
unfolding resolve_value
inside_test = refl

unset_test : resolve_value environment "{{env:ABSENT}}" ≡ "{{unresolved:ABSENT}}"
unfolding resolve_value
unset_test = refl

-- A variable that holds its own placeholder ends the loop with the passes.
loop_test : resolve_value environment "{{env:LOOP}}" ≡ "{{env:LOOP}}"
unfolding resolve_value
loop_test = refl

unclosed_test : resolve_value environment "{{env:TOKEN" ≡ "{{env:TOKEN"
unfolding resolve_value
unclosed_test = refl

abbrev shop : RawBackendConfig
shop = record {
  transport = "stdio";
  command = some "shop-server";
  args = [];
  env = ("KEY", "{{env:TOKEN}}") ∷ [];
  cwd = none;
  url = none;
  bearer_token = none;
  oauth2 = none;
  namespace = some "shop";
  connection_mode = "lazy";
  connect_timeout_secs = 10;
  call_timeout_secs = 30;
  stderr_mode = "";
  tools_allow = "buy" ∷ [];
  tools_deny = [];
  pin_args = ok (from_map []);
  deny_args = "price" ∷ [];
  unavailable_hint = none;
  forward_request_meta = false;
}

shop-IsUsable : IsUsable shop
shop-IsUsable = record {
  transport = inl (refl, ("shop-server", refl));
  mode = inr (inr (inl refl));
  stderr = inl refl;
  pins = (from_map [], refl);
}

backend_of_iff_example :
    ((def : BackendDef) × (backend_of environment "shop" shop ≡ ok def)) ↔ IsUsable shop
backend_of_iff_example = backend_of_iff environment "shop" shop

abbrev shop_def : BackendDef
shop_def =
    definition_of environment "shop" shop (stdio_of environment shop "shop-server") lazy
      log_on_error (from_map [])

absent-IsName : IsName "ABSENT"
unfolding cut
absent-IsName = refl

absent-IsPlain : IsPlain (unresolved "ABSENT")
unfolding cut
absent-IsPlain = (refl, refl)

abbrev token_from_absent : RawAuthConfig
token_from_absent = record { hub_token = some (env_placeholder "ABSENT"); rate_limit = 120 }

abbrev raw_hub : RawConfig
raw_hub = record { auth = some token_from_absent; backends = ("shop", shop) ∷ []; expose = [] }

abbrev hub : HubConfig
hub = record {
  auth = some (record { hub_token = some "{{unresolved:ABSENT}}"; rate_limit = 120 });
  backends = shop_def ∷ [];
  expose = [];
}

hub_loads : resolved_config environment raw_hub ≡ ok hub
unfolding resolved_config
hub_loads = refl

unset_token-refused_example :
    run_http libraries session (http_config environment hub)
    ≡ err (
        concat (
          "refusing to start: bearer token still contains an unresolved placeholder ("
          ∷ unresolved "ABSENT"
          ∷ "); the referenced variable is not set"
          ∷ []))
unset_token-refused_example =
    unset_token-refused environment libraries session raw_hub token_from_absent hub "ABSENT" refl
      refl refl absent-IsName absent-IsPlain hub_loads
