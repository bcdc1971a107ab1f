-- ===== src/OAuth2/State.antt =====
-- crates/backends/backend-http/src/oauth2.rs: the state of a token manager and its surroundings.
use headless_mcp_server.Prelude.{
  ℕ, ◌+◌, ◌*◌, String, Bool, Option, some, List, Result, ltb, map_err, concat, [], ◌∷◌,
}
use headless_mcp_server.Json.{Value}
use headless_mcp_server.Core.{OAuth2Config, BackendError, backend_error, auth}
use headless_mcp_server.Exec.{Exec}
use headless_mcp_server.Secrets.{SecretStore}

pub record ResourceMetadata : Type 0 where
  pub resource : String
  pub authorization_servers : Option (List String)
  pub scopes_supported : Option (List String)
  pub bearer_methods_supported : Option (List String)
  pub resource_name : Option String

pub record AuthServerMetadata : Type 0 where
  pub issuer : String
  pub authorization_endpoint : Option String
  pub token_endpoint : String
  pub registration_endpoint : Option String
  pub scopes_supported : Option (List String)
  pub response_types_supported : Option (List String)
  pub grant_types_supported : Option (List String)
  pub code_challenge_methods_supported : Option (List String)
  pub token_endpoint_auth_methods_supported : Option (List String)

pub record DiscoveredOAuth2 : Type 0 where
  pub resource_metadata : ResourceMetadata
  pub auth_server_metadata : AuthServerMetadata

-- An instant is in nanoseconds of a clock that never goes back.
pub record TokenCache : Type 0 where
  pub access_token : String
  pub refresh_token : Option String
  pub client_id : Option String
  pub expires_at : ℕ

pub record PersistedToken : Type 0 where
  pub access_token : String
  pub refresh_token : Option String
  pub client_id : Option String
  pub expires_at_unix : ℕ

-- A failed refresh; `rejected` says that the endpoint refused the refresh token itself.
pub record RefreshFailure : Type 0 where
  pub error : BackendError
  pub rejected : Bool

-- `OAuth2TokenManager`, in a world `W` of servers, clocks and what the store keeps.
pub record Manager (W : Type 0) : Type 0 where
  pub token_cache : Option TokenCache
  pub discovered : Option DiscoveredOAuth2
  pub world : W

-- An answer over HTTP, with its body read as JSON.
pub record Answer : Type 0 where
  pub status : ℕ
  pub json : Result Value String

pub record Web (W : Type 0) : Type 0 where
  pub get : String → W → Result Answer String × W
  pub post_json : String → Value → W → Result Answer String × W
  pub post_form : String → List (String × String) → W → Result Answer String × W

-- The person who consents: the browser, the callback on a local port and the terminal. `verifier`
-- is 32 random bytes and `sha256` a digest, both in URL-safe base64.
pub record Browser (W : Type 0) : Type 0 where
  pub open_url : String → W → Bool × W
  pub bind : ℕ → W → Result (Unit {0}) String × W
  pub accept : W → Result (Unit {0}) String × W
  pub read_request_line : W → Result String String × W
  pub write_response : String → W → Result (Unit {0}) String × W
  pub read_stdin_line : W → Result String String × W
  pub verifier : W → String × W
  pub sha256 : String → String

-- serde's readers and printers, and the texts of numbers.
pub record Readers : Type 0 where
  pub resource_metadata : Value → Result ResourceMetadata String
  pub auth_server_metadata : Value → Result AuthServerMetadata String
  pub persisted_from_str : String → Option PersistedToken
  pub persisted_to_string : PersistedToken → Option String
  pub show_status : ℕ → String
  pub show_value : Value → String
  pub show_port : ℕ → String

-- What surrounds a manager. `others` is what the tasks that hold the refresh lock do to it while
-- this one waits for the lock.
pub record Env (W : Type 0) : Type 0 where
  pub config : OAuth2Config
  pub store : Option (SecretStore W)
  pub web : Web W
  pub readers : Readers
  pub instant : W → ℕ
  pub unix_secs : W → ℕ
  pub others : Manager W → Manager W

abbrev pub secs : ℕ → ℕ
secs n = n * 1000000000

abbrev pub auth_error : List String → BackendError
auth_error pieces = backend_error auth (concat pieces)

abbrev pub Auth : Type 0 → Type 0 → Type 0
Auth W A = Exec (Manager W) BackendError A

module _ {W : Type 0} where
  -- An awaited call of something outside.
  abbrev pub outside : {A : Type 0} → (W → A × W) → Manager W → A × Manager W
  outside f m = ((f m.world).0, record m { world = (f m.world).1 })

  -- The same with `map_err` and `?`.
  abbrev pub ask : {A : Type 0} → String → (W → Result A String × W) → Auth W A
  ask what f m =
      let (r, m') = outside f m in (map_err (λ e. auth_error (what ∷ ": " ∷ e ∷ [])) r, m')

  abbrev pub set_cache : TokenCache → Manager W → Manager W
  set_cache c m = record m { token_cache = some c }

  -- Whether a cached token lasts for another 30 seconds.
  abbrev pub lasts : Env W → Manager W → TokenCache → Bool
  lasts env m c = ltb (env.instant m.world + secs 30) c.expires_at
