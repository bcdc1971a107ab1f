-- ===== src/OAuth2/Tokens.antt =====
-- crates/backends/backend-http/src/oauth2.rs: `get_token`, with its two locked re-checks.
pub mod Daemon
pub mod Waiting
pub mod Cached
use headless_mcp_server.Prelude.{
  ℕ, String, Bool, true, false, Option, none, some, List, [], ◌∷◌, Result, ok, err, ltb, ◌==◌,
  concat, if◌then◌else◌,
}
use headless_mcp_server.Core.{BackendError}
use headless_mcp_server.Exec.{Exec, lift, raise, ◌>>=◌, ◌>>◌}
use headless_mcp_server.OAuth2.State.{
  TokenCache, PersistedToken, RefreshFailure, Manager, Env, Auth, auth_error, lasts,
}
use headless_mcp_server.OAuth2.Cache.{and_then, is_valid, load_token, install_persisted}
use headless_mcp_server.OAuth2.Consent.{do_authorization_code}
use headless_mcp_server.OAuth2.State.{Browser}
use headless_mcp_server.OAuth2.Grants.{
  do_client_credentials, do_refresh, resolve_token_endpoint, resolve_grant_type,
}

abbrev jwt_bearer : String
jwt_bearer = "urn:ietf:params:oauth:grant-type:jwt-bearer"

-- `stored.refresh_token() == Some(rejected)`
abbrev same_token : Option String → String → Bool
same_token none rejected = false
same_token (some r) rejected = r == rejected

abbrev as_option : Result String RefreshFailure → Option String
as_option (ok t) = some t
as_option (err f) = none

module _ {W : Type 0} (env : Env W) where
  refresh_stored : Option String → String → Manager W → Option String × Manager W
  unfolding do_refresh
  refresh_stored none id m = (none, m)
  refresh_stored (some r) id m = let (result, m') = do_refresh env r id m in (as_option result, m')

  abbrev use_stored : PersistedToken → String → Manager W → Option String × Manager W
  use_stored t id m =
      let refreshed = refresh_stored t.refresh_token id m in
      if is_valid env m t then (some t.access_token, m) else refreshed

  adopt_stored : String → String → Option PersistedToken → Manager W → Option String × Manager W
  unfolding install_persisted refresh_stored
  adopt_stored rejected id none m = (none, m)
  adopt_stored rejected id (some t) m =
      let adopted = use_stored t id (install_persisted env t m) in
      if same_token t.refresh_token rejected then (none, m) else adopted

  unfoldable pub retry_with_stored : String → String → Manager W → Option String × Manager W
  unfolding load_token adopt_stored
  retry_with_stored rejected id m =
      let (stored, m') = load_token env id m in adopt_stored rejected id stored m'

  abbrev retried : Bool → String → String → Manager W → Option String × Manager W
  retried rejected token id m =
      let stored = retry_with_stored token id m in if rejected then stored else (none, m)

  -- The cached token if it lasts.
  abbrev lasting : Manager W → Option String
  lasting m = and_then m.token_cache (λ c. if lasts env m c then some c.access_token else none)

module _ {W : Type 0} (env : Env W) (browser : Browser W) where
  -- The grant, by its name.
  by_grant : String → String → String → Bool → Auth W String
  unfolding do_client_credentials do_authorization_code
  by_grant grant endpoint id daemon_mode =
      if grant == "client_credentials"
      then do_client_credentials env endpoint id
      else if grant == "authorization_code"
      then if daemon_mode
        then raise (auth_error ("interactive authorization_code grant blocked in daemon mode" ∷ []))
        else do_authorization_code env browser endpoint id
      else if grant == jwt_bearer
      then raise (auth_error ("JWT bearer grant is not yet supported by headless-mcp" ∷ []))
      else raise (auth_error ("unsupported OAuth2 grant type: " ∷ grant ∷ []))

  acquire_locked : String → Bool → Auth W String
  unfolding resolve_token_endpoint resolve_grant_type by_grant
  acquire_locked id daemon_mode = do
    endpoint ← resolve_token_endpoint env
    by_grant (resolve_grant_type env) endpoint id daemon_mode

  -- The full acquisition, behind the refresh lock.
  acquire : String → Bool → Auth W String
  unfolding acquire_locked
  acquire id daemon_mode m =
      let m' = env.others m in
      elim (lasting env m') [
        | some token ↦ (ok token, m')
        | none ↦ acquire_locked id daemon_mode m'
      ]

  -- What follows a refresh that failed.
  after_failure : RefreshFailure → Option String → String → Bool → Auth W String
  unfolding acquire
  after_failure failure (some token) id daemon_mode m = (ok token, m)
  after_failure failure none id daemon_mode m =
      let again = acquire id daemon_mode m in
      if daemon_mode
      then (
        err (auth_error ("token refresh failed (daemon mode): " ∷ failure.error.message ∷ [])),
        m,
      )
      else again

  after_refresh : String → String → Bool → Result String RefreshFailure → Auth W String
  unfolding retry_with_stored after_failure
  after_refresh token id daemon_mode (ok new_token) m = (ok new_token, m)
  after_refresh token id daemon_mode (err failure) m =
      let (stored, m') = retried env failure.rejected token id m in
      after_failure failure stored id daemon_mode m'

  refresh : Option String → String → Bool → Auth W String
  unfolding do_refresh after_refresh acquire
  refresh none id daemon_mode m = acquire id daemon_mode m
  refresh (some token) id daemon_mode m =
      let (result, m') = do_refresh env token id m in after_refresh token id daemon_mode result m'

  -- Behind the refresh lock, with the cache read again.
  refresh_locked : String → Bool → Auth W String
  unfolding refresh
  refresh_locked id daemon_mode m = elim (lasting env m) [
    | some token ↦ (ok token, m)
    | none ↦ refresh (and_then m.token_cache (λ c. c.refresh_token)) id daemon_mode m
  ]

  -- A cached token that does not last.
  expired : Option String → String → Bool → Auth W String
  unfolding refresh_locked acquire
  expired (some token) id daemon_mode m = refresh_locked id daemon_mode (env.others m)
  expired none id daemon_mode m =
      let acquired = acquire id daemon_mode m in
      if daemon_mode
      then (
        err (
            auth_error (
              "token expired and no refresh token available (daemon mode — run 'auth' to re-authenticate)"
              ∷ [])),
        m,
      )
      else acquired

  by_cache : Option TokenCache → String → Bool → Auth W String
  unfolding expired acquire
  by_cache none id daemon_mode m = acquire id daemon_mode m
  by_cache (some c) id daemon_mode m =
      let stale = expired c.refresh_token id daemon_mode m in
      if lasts env m c then (ok c.access_token, m) else stale

  unfoldable pub get_token : String → Bool → Auth W String
  unfolding by_cache
  get_token id daemon_mode m = by_cache m.token_cache id daemon_mode m
