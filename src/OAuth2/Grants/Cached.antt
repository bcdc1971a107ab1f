-- ===== src/OAuth2/Grants/Cached.antt =====
-- crates/backends/backend-http/src/oauth2.rs: a token that a grant gives is the cached one.
use headless_mcp_server.Prelude.{
  ℕ, String, ◌≡◌, some, List, Result, ok, ok_or, map_err-eq-ok, Bool-cases, inl, inr,
}
use headless_mcp_server.Json.{Value, get_field}
use headless_mcp_server.Server.Protocol.{then_str}
use headless_mcp_server.OAuth2.Discovery.{is_success, json_of}
use headless_mcp_server.Exec.{Exec, lift, ◌>>=◌}
use headless_mcp_server.Exec.Post.{bind-Post}
use headless_mcp_server.OAuth2.State.{TokenCache, Answer, Manager, Env, Auth, ask}
use headless_mcp_server.OAuth2.Cache.{expires_in, token_of, cache_token_response}
use headless_mcp_server.OAuth2.Cache.Kept.{save_token-cache}
use headless_mcp_server.OAuth2.Grants.{
  do_client_credentials, do_refresh, token_answer, request_token, client, not_rejected,
  refresh_answer, ask_refresh, read_refresh, resolve_token_endpoint,
}

-- The token is the access token in the cache.
abbrev pub IsCached : {W : Type 0} → String → Manager W → Type 0
IsCached token m = (c : TokenCache) × (m.token_cache ≡ some c) × (c.access_token ≡ token)

-- What a grant promises: a token that it gives is the cached one.
abbrev pub Gives : {W E : Type 0} → Result String E → Manager W → Type 0
Gives r m = (token : String) → r ≡ ok token → IsCached token m

-- A chain gives what its last step gives.
pub bind-Gives :
    {W E A : Type 0} (n : Exec (Manager W) E A) (f : A → Exec (Manager W) E String) (m : Manager W)
    → ((a : A) → (n m).0 ≡ ok a → Gives (f a (n m).1).0 (f a (n m).1).1)
    → Gives ((n >>= f) m).0 ((n >>= f) m).1
bind-Gives n f m = bind-Post Gives n f m (λ e _ token h. cc)

module _ {W : Type 0} (env : Env W) where
  cache_token_response-Gives :
      (body : Value) (id : String) (m : Manager W)
      → Gives (cache_token_response env body id m).0 (cache_token_response env body id m).1
  unfolding cache_token_response
  cache_token_response-Gives body id m =
      bind-Gives (lift (ok_or _ (then_str (get_field "access_token" body)))) _ m
        λ access_token _ t h. (
          token_of env body access_token m,
          save_token-cache env id (token_of env body access_token m) (expires_in body) _,
          cc,
        )

  token_answer-Gives :
      (id : String) (status : ℕ) (body : Value) (m : Manager W)
      → Gives (token_answer env id status body m).0 (token_answer env id status body m).1
  unfolding token_answer
  token_answer-Gives id status body m = elim (Bool-cases (is_success status)) [
    | inl good ↦ rw good (cache_token_response-Gives body id m)
    | inr bad ↦ rw bad (λ t h. cc)
  ]

  pub request_token-Gives :
      (failed id endpoint : String) (form : List (String × String)) (m : Manager W)
      → Gives
          (request_token env failed id endpoint form m).0
          (request_token env failed id endpoint form m).1
  unfolding request_token
  request_token-Gives failed id endpoint form m =
      bind-Gives (ask failed (env.web.post_form endpoint form)) _ m λ answer _.
        bind-Gives (json_of env "failed to parse token response" answer) _ _
          λ body _. token_answer-Gives id answer.status body _

  pub do_client_credentials-Gives :
      (endpoint id : String) (m : Manager W)
      → Gives
          (do_client_credentials env endpoint id m).0
          (do_client_credentials env endpoint id m).1
  unfolding do_client_credentials
  do_client_credentials-Gives endpoint id m =
      bind-Gives (client env _ env.config.client_id) _ m
        λ chosen _. request_token-Gives _ id endpoint _ _

  not_rejected-Gives :
      (n : Auth W String) (m : Manager W)
      → Gives (n m).0 (n m).1
      → Gives (not_rejected env n m).0 (not_rejected env n m).1
  not_rejected-Gives n m gives t h = gives t (map_err-eq-ok _ (n m).0 h)

  refresh_answer-Gives :
      (id : String) (status : ℕ) (body : Value) (m : Manager W)
      → Gives (refresh_answer env id status body m).0 (refresh_answer env id status body m).1
  unfolding refresh_answer
  refresh_answer-Gives id status body m = elim (Bool-cases (is_success status)) [
    | inl good ↦ rw good (
        not_rejected-Gives (cache_token_response env body id) m
          (cache_token_response-Gives body id m))
    | inr bad ↦ rw bad (λ t h. cc)
  ]

  read_refresh-Gives :
      (id : String) (answer : Answer) (m : Manager W)
      → Gives (read_refresh env id answer m).0 (read_refresh env id answer m).1
  unfolding read_refresh
  read_refresh-Gives id answer m =
      bind-Gives (not_rejected env (json_of env "failed to parse refresh response" answer)) _ m
        λ body _. refresh_answer-Gives id answer.status body m

  pub do_refresh-Gives :
      (refresh_token id : String) (m : Manager W)
      → Gives (do_refresh env refresh_token id m).0 (do_refresh env refresh_token id m).1
  unfolding do_refresh
  do_refresh-Gives refresh_token id m =
      bind-Gives (not_rejected env (resolve_token_endpoint env)) _ m λ endpoint _.
        bind-Gives (ask_refresh env endpoint refresh_token) _ m
          λ answer _. read_refresh-Gives id answer _
