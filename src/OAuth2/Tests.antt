-- ===== src/OAuth2/Tests.antt =====
-- crates/backends/backend-http/src/oauth2.rs: a small world, and the theorems at it.
use headless_mcp_server.Prelude.{
  ℕ, ◌+◌, ◌*◌, String, ◌≡◌, ◌≢◌, inl, refl, Bool, true, false, Option, none, some, [], ◌∷◌, Result,
  ok, err, if◌then◌else◌,
}
use headless_mcp_server.Dict.{get}
use headless_mcp_server.Json.{Value, string, number, int, pos, from_map}
use headless_mcp_server.Core.{OAuth2Config}
use headless_mcp_server.OAuth2.State.{TokenCache, Manager, Answer, Web, Browser, Readers, Env}
use headless_mcp_server.OAuth2.Grants.Cached.{Gives}
use headless_mcp_server.OAuth2.Tokens.{get_token}
use headless_mcp_server.OAuth2.Tokens.Daemon.{get_token-daemon}
use headless_mcp_server.OAuth2.Tokens.Waiting.{get_token-others}
use headless_mcp_server.OAuth2.Tokens.Cached.{get_token-Gives}

-- The world is a clock in seconds; every request takes one second.
abbrev token_reply : Value → ℕ → Result Answer String × ℕ
token_reply v now = (ok (record { status = 200; json = ok v }), now + 1)

abbrev token_body : Value
token_body = from_map (
    ("access_token", string "fresh")
    ∷ ("refresh_token", string "next")
    ∷ ("expires_in", number (int (pos 600)))
    ∷ [])

abbrev web : Web ℕ
web = record {
  get = λ url. token_reply token_body;
  post_json = λ url body. token_reply token_body;
  post_form = λ url form. token_reply token_body;
}

-- One who consents in a blink, and one who never does.
abbrev willing : Browser ℕ
willing = record {
  open_url = λ url now. (true, now);
  bind = λ port now. (ok tt, now);
  accept = λ now. (ok tt, now);
  read_request_line = λ now. (ok "GET /callback?code=abc HTTP/1.1", now);
  write_response = λ text now. (ok tt, now);
  read_stdin_line = λ now. (ok "abc", now);
  verifier = λ now. ("v", now);
  sha256 = λ s. s;
}

abbrev absent : Browser ℕ
absent = record willing {
  open_url = λ url now. (false, now);
  bind = λ port now. (err "in use", now);
  read_stdin_line = λ now. (err "closed", now);
}

abbrev pub config : OAuth2Config
config = record {
  token_endpoint = some "https://auth.example/token";
  client_id = some "client";
  client_secret = none;
  scopes = none;
  grant_type = "authorization_code";
  callback_port = 8123;
}

abbrev readers : Readers
readers = record {
  resource_metadata = λ v. err "none";
  auth_server_metadata = λ v. err "none";
  persisted_from_str = λ s. none;
  persisted_to_string = λ t. none;
  show_status = λ n. "200";
  show_value = λ v. "value";
  show_port = λ n. "8123";
}

abbrev second : ℕ
second = 1000000000

abbrev cached : String → ℕ → TokenCache
cached token until = record {
  access_token = token;
  refresh_token = some "again";
  client_id = none;
  expires_at = until * second;
}

-- The task before this one leaves a token for 600 seconds, if `busy`.
abbrev env : Bool → Env ℕ
env busy = record {
  config = config;
  store = none;
  web = web;
  readers = readers;
  instant = λ now. now * second;
  unix_secs = λ now. now;
  others =
      λ m. if busy then record m { token_cache = some (cached "theirs" 700); world = 5 } else m;
}

abbrev pub manager : Option TokenCache → Manager ℕ
manager cache = record { token_cache = cache; discovered = none; world = 3 }

abbrev pub quiet_env : Env ℕ
quiet_env = env false

abbrev pub some_browser : Browser ℕ
some_browser = willing

abbrev stale : Manager ℕ
stale = manager (some (cached "old" 2))

refreshes_test : (get_token quiet_env willing "shop" true stale).0 ≡ ok "fresh"
unfolding get_token get
refreshes_test = refl

get_token-daemon_example :
    get_token quiet_env willing "shop" true stale ≡ get_token quiet_env absent "shop" true stale
get_token-daemon_example = get_token-daemon quiet_env willing absent "shop" stale

consents_test : (get_token quiet_env willing "shop" false (manager none)).0 ≡ ok "fresh"
unfolding get_token get
consents_test = refl

daemon_test : (get_token quiet_env willing "shop" true (manager none)).0 ≢ ok "fresh"
unfolding get_token get
daemon_test = λ e. cc

again_ne_none : ◌≢◌ {A = Option String} (some "again") none
again_ne_none = λ e. cc

get_token-others_example :
    get_token (env true) willing "shop" true stale ≡ (ok "theirs", (env true).others stale)
get_token-others_example =
    get_token-others (env true) willing "shop" true stale "theirs" (refl, inl again_ne_none) refl

get_token-Gives_example :
    Gives
      (get_token quiet_env willing "shop" false stale).0
      (get_token quiet_env willing "shop" false stale).1
get_token-Gives_example = get_token-Gives quiet_env willing "shop" false stale
