-- ===== src/HttpBackend/Tests.antt =====
-- crates/backends/backend-http/src/lib.rs: a small server, and the theorems at it.
use headless_mcp_server.Prelude.{
  ℕ, ◌+◌, String, ◌==◌, ◌≡◌, ◌≢◌, refl, Bool, true, false, Option, none, some, List, [], ◌∷◌,
  Result, ok, err, if◌then◌else◌, inl,
}
use headless_mcp_server.Dict.{get, contains_key}
use headless_mcp_server.Json.{Value, string, number, int, pos, from_map}
use headless_mcp_server.Core.{BackendDef, InitializeResult, http, eager, log_always}
use headless_mcp_server.OAuth2.Tests.{quiet_env, some_browser, manager}
use headless_mcp_server.HttpBackend.Headers.{HeaderCodecs}
use headless_mcp_server.HttpBackend.Response.{BodyCodecs}
use headless_mcp_server.HttpBackend.State.{
  HttpState, Post, SendError, Reply, Libraries, Setup, with_shared_oauth2,
}
use headless_mcp_server.HttpBackend.Requests.Frame.{Like}
use headless_mcp_server.HttpBackend.Sessions.{reinitialize, send_request}
use headless_mcp_server.HttpBackend.Sessions.Laws.{Redone, reinitialize-Redone, send_request-final}

-- A server that has forgotten the session "old" and gives each new one the name "new".
abbrev http_reply : ℕ → List ℕ → Reply
http_reply status body = record {
  status = status;
  header = λ name. if name == "mcp-session-id" then some "new" else none;
  body = ok body;
}

abbrev forgot : Option String → Bool
forgot none = false
forgot (some sid) = sid == "old"

abbrev send : Post → ℕ → Result Reply SendError × ℕ
send p now = (
  ok (
      if forgot p.session
      then record (http_reply 404 []) { header = λ name. none }
      else http_reply 200 (1 ∷ [])),
  now + 1,
)

abbrev success : Value
success =
    from_map
      (("jsonrpc", string "2.0") ∷ ("id", number (int (pos 1))) ∷ ("result", string "done") ∷ [])

abbrev header_codecs : HeaderCodecs
header_codecs = record {
  base64 = λ s. s;
  show_int = λ n. "1";
  is_header_value = λ s. true;
  header_name = λ s. some s;
}

abbrev body_codecs : BodyCodecs
body_codecs = record {
  serde = record { from_slice = λ bytes. ok success; error_from_value = λ v. err "none" };
  from_utf8_lossy = λ bytes. bytes;
  as_bytes = λ text. text;
  show_error = λ e. e.message;
  show_code = λ n. "1";
}

abbrev init : InitializeResult
init = record {
  protocol_version = "2024-11-05";
  server_info = record { name = "shop"; version = "1" };
  capabilities = record { tools = none; resources = none; prompts = none; events = none };
}

abbrev libraries : Libraries ℕ
libraries = record {
  send = send;
  header_codecs = header_codecs;
  body_codecs = body_codecs;
  to_vec = λ v. ok (2 ∷ []);
  parse_url = λ url. none;
  show_status = λ n. "404";
  show_body = λ bytes. "";
  initialize_result = λ v. ok init;
  tool_descriptor = λ v. err "none";
  version = "1";
}

abbrev definition : BackendDef
definition = record {
  id = "shop";
  label = none;
  transport = http "https://shop.example" none none;
  namespace = none;
  connection_mode = eager;
  connect_timeout_secs = 1;
  call_timeout_secs = 1;
  stderr_mode = log_always;
  tools_allow = [];
  tools_deny = [];
  unavailable_hint = none;
  forward_request_meta = false;
  pin_args = [];
  deny_args = [];
}

abbrev setup : Setup ℕ
setup = record {
  definition = definition;
  url = "https://shop.example";
  oauth2 = some (quiet_env, some_browser);
  daemon_mode = true;
  libraries = libraries;
  others = λ s. s;
}

-- A backend whose session the server has forgotten.
abbrev forgotten : HttpState ℕ
forgotten = record (with_shared_oauth2 libraries none (manager none)) {
  connected = true;
  session_id = some "old";
  session_epoch = 7;
}

recovers_test : (send_request setup "tools/list" none true forgotten).0 ≡ ok (string "done")
unfolding send_request get contains_key
recovers_test = refl

epoch_test : (send_request setup "tools/list" none true forgotten).1.session_epoch ≡ 8
unfolding send_request get contains_key with_shared_oauth2
epoch_test = refl

reinitialize-Redone_example :
    (((setup.others forgotten).session_epoch ≢ 7)
      → reinitialize setup 7 forgotten ≡ (ok tt, setup.others forgotten))
    × ((setup.others forgotten).session_epoch ≡ 7
        → Redone setup
            (setup.others forgotten)
            (reinitialize setup 7 forgotten).0
            (reinitialize setup 7 forgotten).1)
reinitialize-Redone_example = reinitialize-Redone setup 7 forgotten

send_request-final_example : Like forgotten (send_request setup "initialize" none true forgotten).1
send_request-final_example = send_request-final setup "initialize" none true forgotten (inl refl)
