-- ===== src/HttpBackend/State.antt =====
-- crates/backends/backend-http/src/lib.rs: the state of an HTTP backend and its surroundings.

use headless_mcp_server.Prelude.{
  ℕ, String, ◌==◌, Bool, false, Option, none, some, List, [], ◌∷◌, Result, concat, if◌then◌else◌,
}
use headless_mcp_server.Dict.{Dict}
use headless_mcp_server.Json.{Value}
use headless_mcp_server.Core.{BackendDef, BackendError, InitializeResult, ToolDescriptor}
use headless_mcp_server.Exec.{Exec}
use headless_mcp_server.OAuth2.State.{Manager, Env, Browser}
use headless_mcp_server.HttpBackend.Headers.{ParamHeaders, HeaderCodecs}
use headless_mcp_server.HttpBackend.Response.{BodyCodecs}

-- A failed request, and why the session is thought lost, if it is.
pub record Failure : Type 0 where
  pub error : BackendError
  pub session_lost : Option String

-- `HttpBackend`, without what never changes. The client is the `Authorization` header it sends.
pub record HttpState (W : Type 0) : Type 0 where
  pub client : Option String
  pub manager : Manager W
  pub initialize_result : Option InitializeResult
  pub connected : Bool
  pub request_counter : ℕ
  pub session_id : Option String
  pub param_headers : Dict ParamHeaders
  pub session_epoch : ℕ
  pub tools_refresh : Bool

-- A POST of a body: its `Authorization`, `Accept` and `Mcp-Session-Id`, and its further headers.
pub record Post : Type 0 where
  pub url : String
  pub authorization : Option String
  pub accept : Option String
  pub session : Option String
  pub headers : Dict String
  pub body : List ℕ

pub record SendError : Type 0 where
  pub is_timeout : Bool
  pub text : String

-- A response: a header by its name, where it is text, and the body once it is read.
pub record Reply : Type 0 where
  pub status : ℕ
  pub header : String → Option String
  pub body : Result (List ℕ) String

-- What the backend takes from libraries and the network.
pub record Libraries (W : Type 0) : Type 0 where
  pub send : Post → W → Result Reply SendError × W
  pub header_codecs : HeaderCodecs
  pub body_codecs : BodyCodecs
  pub to_vec : Value → Result (List ℕ) String
  pub parse_url : String → Option (String × String)
  pub show_status : ℕ → String
  pub show_body : List ℕ → String
  pub initialize_result : Value → Result InitializeResult String
  pub tool_descriptor : Value → Result ToolDescriptor String
  pub version : String

-- What never changes of a backend. `others` is what the tasks that hold the lock of
-- re-initialisation do while this one waits for it.
pub record Setup (W : Type 0) : Type 0 where
  pub definition : BackendDef
  pub url : String
  pub oauth2 : Option (Env W × Browser W)
  pub daemon_mode : Bool
  pub libraries : Libraries W
  pub others : HttpState W → HttpState W

abbrev pub Call : Type 0 → Type 0 → Type 0
Call W A = Exec (HttpState W) BackendError A

abbrev pub Attempt : Type 0 → Type 0 → Type 0
Attempt W A = Exec (HttpState W) Failure A

abbrev bearer : (String → Bool) → String → Option String
bearer is_header_value token =
    let value = concat ("Bearer " ∷ token ∷ []) in
    if is_header_value value then some value else none

module _ {W : Type 0} where
  -- `build_client`: an empty token, and one that is no header value, sends no header.
  unfoldable pub build_client : Libraries W → Option String → Option String
  build_client libraries none = none
  build_client libraries (some token) =
      let value = bearer libraries.header_codecs.is_header_value token in
      if token == "" then none else value

  unfoldable pub rebuild_client_with_token : Libraries W → String → HttpState W → HttpState W
  unfolding build_client
  rebuild_client_with_token libraries token s = record s {
    client = build_client libraries (some token);
  }

  -- A computation on the token manager.
  abbrev pub on_manager : {A : Type 0} → (Manager W → A × Manager W) → HttpState W → A × HttpState W
  on_manager f s = ((f s.manager).0, record s { manager = (f s.manager).1 })

  -- `with_shared_oauth2`, at a manager and the token of the definition.
  unfoldable pub with_shared_oauth2 : Libraries W → Option String → Manager W → HttpState W
  unfolding build_client
  with_shared_oauth2 libraries bearer_token manager = record {
    client = build_client libraries bearer_token;
    manager = manager;
    initialize_result = none;
    connected = false;
    request_counter = 0;
    session_id = none;
    param_headers = [];
    session_epoch = 0;
    tools_refresh = false;
  }
