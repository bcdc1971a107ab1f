-- ===== src/HttpBackend/Requests/Frame.antt =====
-- crates/backends/backend-http/src/lib.rs: what a request leaves alone.
use headless_mcp_server.Prelude.{
  ℕ, String, ◌≡◌, Bool, ◌&&◌, Option, none, some, List, Result, ok, err, eqb, Bool-cases, inl, inr,
}
use headless_mcp_server.Dict.{Dict}
use headless_mcp_server.Json.{Value}
use headless_mcp_server.Exec.{Exec, lift, modify}
use headless_mcp_server.Exec.Keeps.{Keeps, bind-Keeps}
use headless_mcp_server.Core.{BackendError}
use headless_mcp_server.OAuth2.State.{Manager, Env, Browser, outside}
use headless_mcp_server.OAuth2.Discovery.{discover}
use headless_mcp_server.OAuth2.Tokens.{get_token}
use headless_mcp_server.HttpBackend.State.{
  HttpState, Reply, SendError, Setup, Call, rebuild_client_with_token, on_manager,
}
use headless_mcp_server.HttpBackend.Requests.{
  ReadResponse, attempt, post, json_post, discover_with, discovery_url, received, post_json,
  capture, capture_session, after_retry, retry_with, with_token, reauthorized, answered, exchange,
  serialized, request_body, send_request_inner,
}

-- A request moves the client, the tokens, the counter and the session id, and nothing else.
pub record Like {W : Type 0} (s₀ s : HttpState W) : Type 0 where
  pub epoch : s.session_epoch ≡ s₀.session_epoch
  pub result : s.initialize_result ≡ s₀.initialize_result
  pub refresh : s.tools_refresh ≡ s₀.tools_refresh
  pub connected : s.connected ≡ s₀.connected
  pub params : s.param_headers ≡ s₀.param_headers

module _ {W : Type 0} (setup : Setup W) (s₀ : HttpState W) where
  -- Steps that write none of these fields.
  abbrev pub IsQuiet : {E A : Type 0} → Exec (HttpState W) E A → Type 0
  IsQuiet n = Keeps (Like s₀) n

  lift-IsQuiet : {E A : Type 0} (r : Result A E) → IsQuiet (lift r)
  lift-IsQuiet r = record { at = λ s h. h }

  attempt-IsQuiet : {A : Type 0} (n : Call W A) → IsQuiet n → IsQuiet (attempt n)
  attempt-IsQuiet n quiet = record { at = λ s h. quiet.at s h }

  moved-Like :
      (client : Option String) (manager : Manager W) (sid : Option String) (counter : ℕ)
      (s : HttpState W)
      → Like s₀ s
      → Like s₀ (record s {
        client = client;
        manager = manager;
        session_id = sid;
        request_counter = counter;
      })
  moved-Like client manager sid counter s h = record {
    epoch = h.epoch;
    result = h.result;
    refresh = h.refresh;
    connected = h.connected;
    params = h.params;
  }

  -- Any work of the token manager.
  on_manager-Like :
      {A : Type 0} (f : Manager W → A × Manager W) (s : HttpState W)
      → Like s₀ s
      → Like s₀ (on_manager f s).1
  on_manager-Like f s = moved-Like s.client (f s.manager).1 s.session_id s.request_counter s

  capture-Like : (sid : Option String) (s : HttpState W) → Like s₀ s → Like s₀ (capture setup sid s)
  capture-Like none s h = h
  capture-Like (some sid) s h = moved-Like s.client s.manager (some sid) s.request_counter s h

  discover_with-Like :
      (oauth2 : Option (Env W × Browser W)) (reply : Reply) (s : HttpState W)
      → Like s₀ s
      → Like s₀ (discover_with setup oauth2 reply s)
  unfolding discover_with
  discover_with-Like none reply s h = h
  discover_with-Like (some (env, browser)) reply s h =
      on_manager-Like (discover env (discovery_url setup reply)) s h

  received-IsQuiet : (r : Result Reply SendError) → IsQuiet (received setup r)
  received-IsQuiet (err e) = record { at = λ s h. h }
  received-IsQuiet (ok reply) = record {
    at = λ s h. elim (Bool-cases (eqb reply.status 401)) [
      | inl refused ↦ rw refused (discover_with-Like setup.oauth2 reply s h)
      | inr other ↦ rw other h
    ];
  }

  post_json-IsQuiet :
      (body : List ℕ) (headers : Dict String) (sid : Option String)
      → IsQuiet (post_json setup body headers sid)
  unfolding post_json
  post_json-IsQuiet body headers sid = record {
    at = λ s h.
        let sent = json_post setup body headers sid s in
        (received-IsQuiet (post setup sent s).0).at (post setup sent s).1
          (on_manager-Like (outside (setup.libraries.send sent)) s h);
  }

  modify-IsQuiet :
      {E : Type 0} (f : HttpState W → HttpState W)
      → ((s : HttpState W) → Like s₀ s → Like s₀ (f s))
      → IsQuiet {E = E} (modify f)
  modify-IsQuiet f keeps = record { at = keeps }

  retry_with-IsQuiet :
      (token : String) (body : List ℕ) (headers : Dict String) (sid : Option String)
      → IsQuiet (retry_with setup token body headers sid)
  unfolding retry_with rebuild_client_with_token
  retry_with-IsQuiet token body headers sid =
      bind-Keeps (modify (rebuild_client_with_token setup.libraries token)) _
        (modify-IsQuiet _ λ s h. moved-Like _ s.manager s.session_id s.request_counter s h)
        λ _.
          bind-Keeps (attempt (post_json setup body headers sid)) _
            (attempt-IsQuiet _ (post_json-IsQuiet body headers sid))
            λ r.
              bind-Keeps (modify (capture_session setup r)) _
                (modify-IsQuiet _ λ s h. capture-Like _ s h)
                λ _. attempt-IsQuiet _ (lift-IsQuiet (after_retry setup r))

  after_token :
      (token : Result String BackendError) (body : List ℕ) (headers : Dict String)
      (sid : Option String) (r : ReadResponse) (s : HttpState W)
      → Like s₀ s
      → Like s₀ (with_token setup token body headers sid r s).1
  unfolding with_token
  after_token (ok t) body headers sid r s h = (retry_with-IsQuiet t body headers sid).at s h
  after_token (err e) body headers sid r s h = h

  reauthorized-IsQuiet :
      (oauth2 : Option (Env W × Browser W)) (body : List ℕ) (headers : Dict String)
      (sid : Option String) (r : ReadResponse)
      → IsQuiet (reauthorized setup oauth2 body headers sid r)
  unfolding reauthorized
  reauthorized-IsQuiet none body headers sid r = record { at = λ s h. h }
  reauthorized-IsQuiet (some (env, browser)) body headers sid r = record {
    at =
        λ s h. after_token _ body headers sid r _ (on_manager-Like (get_token env browser _ _) s h);
  }

  answered-IsQuiet :
      (retry : Bool) (body : List ℕ) (headers : Dict String) (sid : Option String)
      (r : ReadResponse)
      → IsQuiet (answered setup retry body headers sid r)
  unfolding answered
  answered-IsQuiet retry body headers sid r = record {
    at = λ s h. elim (Bool-cases (eqb r.status 401 && retry)) [
      | inl again ↦ rw again ((reauthorized-IsQuiet setup.oauth2 body headers sid r).at s h)
      | inr final ↦ rw final h
    ];
  }

  exchange-IsQuiet :
      (retry : Bool) (headers : Dict String) (body : List ℕ)
      → IsQuiet (exchange setup retry headers body)
  unfolding exchange
  exchange-IsQuiet retry headers body = record {
    at = λ s h.
        let sid = s.session_id in
        (bind-Keeps (attempt (post_json setup body headers sid)) _
            (attempt-IsQuiet _ (post_json-IsQuiet body headers sid))
            λ r.
              bind-Keeps (modify (capture_session setup r)) _
                (modify-IsQuiet _ λ t k. capture-Like _ t k)
                λ _. answered-IsQuiet retry body headers sid r).at
          s h;
  }

  pub send_request_inner-IsQuiet :
      (method : String) (params : Option Value) (retry : Bool)
      → IsQuiet (send_request_inner setup method params retry)
  unfolding send_request_inner
  send_request_inner-IsQuiet method params retry = record {
    at = λ s h.
        (bind-Keeps (serialized setup (request_body setup s.request_counter method params)) _
            (lift-IsQuiet _) (exchange-IsQuiet retry _)).at
          _ (moved-Like s.client s.manager s.session_id _ s h);
  }
