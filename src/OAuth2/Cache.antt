-- ===== src/OAuth2/Cache.antt =====
-- crates/backends/backend-http/src/oauth2.rs and token_store.rs: the cached and the stored token.
pub mod Kept
use headless_mcp_server.Prelude.{
  ℕ, ◌+◌, ◌-◌, String, Bool, true, false, not, ◌&&◌, Option, none, some, List, [], ◌∷◌, Result, ok,
  err, ok_or, ltb, concat, ◌==◌, if◌then◌else◌,
}
use headless_mcp_server.Json.{Value, number, string, int, pos, as_str, get_field}
use headless_mcp_server.Core.{BackendError}
use headless_mcp_server.Exec.{Exec, lift, ◌>>=◌, ◌>>◌, modify}
use headless_mcp_server.Secrets.{SecretStore, SecretResult}
use headless_mcp_server.OAuth2.State.{
  TokenCache, PersistedToken, Manager, Env, Auth, secs, auth_error, outside, set_cache, lasts,
}
use headless_mcp_server.Server.Protocol.{then_str}
use Prim.Native.Nat.{◌^◌}

-- `a.or_else(|| b)`
abbrev pub or_else : {A : Type 0} → Option A → Option A → Option A
or_else none b = b
or_else (some a) b = some a

abbrev pub and_then : {A B : Type 0} → Option A → (A → Option B) → Option B
and_then none f = none
and_then (some a) f = f a

abbrev pub unwrap_or : {A : Type 0} → A → Option A → A
unwrap_or a none = a
unwrap_or a (some b) = b

-- `as_u64`
abbrev as_u64 : Option Value → Option ℕ
as_u64 (some (number (int (pos n)))) = if ltb n (2 ^ 64) then some n else none
as_u64 _ = none

abbrev token_key : String → String
token_key backend_id = concat ("oauth2:" ∷ backend_id ∷ ":token" ∷ [])

-- `.ok()??`
abbrev found : SecretResult (Option String) → Option String
found (ok o) = o
found (err e) = none

-- How long the answer of a token endpoint lasts, in seconds.
abbrev pub expires_in : Value → ℕ
expires_in body = unwrap_or 3600 (as_u64 (get_field "expires_in" body))

module _ {W : Type 0} (env : Env W) where
  abbrev pub is_valid : Manager W → PersistedToken → Bool
  is_valid m t = ltb (env.unix_secs m.world + 30) t.expires_at_unix

  -- `token_store::load_token` at the store, and `None` without one.
  load_from : Option (SecretStore W) → String → Manager W → Option PersistedToken × Manager W
  load_from none id m = (none, m)
  load_from (some store) id m =
      let (r, m') = outside (store.get (token_key id)) m in
      (and_then (found r) env.readers.persisted_from_str, m')

  unfoldable pub load_token : String → Manager W → Option PersistedToken × Manager W
  unfolding load_from
  load_token = load_from env.store

  abbrev store_json : SecretStore W → String → Option String → Manager W → Manager W
  store_json store key none m = m
  store_json store key (some json) m = (outside (store.set key json) m).1

  -- `token_store::save_token` at the store, and nothing without one.
  save_in : Option (SecretStore W) → String → TokenCache → ℕ → Manager W → Manager W
  save_in none id c expires_in m = m
  save_in (some store) id c expires_in m =
      store_json store (token_key id)
        (env.readers.persisted_to_string (record {
          access_token = c.access_token;
          refresh_token = c.refresh_token;
          client_id = c.client_id;
          expires_at_unix = env.unix_secs m.world + expires_in;
        }))
        m

  unfoldable pub save_token : String → TokenCache → ℕ → Manager W → Manager W
  unfolding save_in
  save_token = save_in env.store

  abbrev cached_client_id : Manager W → Option String
  cached_client_id m = and_then m.token_cache (λ c. c.client_id)

  unfoldable pub current_client_id : Manager W → Option String
  current_client_id m = or_else env.config.client_id (cached_client_id m)

  unfoldable pub install_persisted : PersistedToken → Manager W → Manager W
  install_persisted t m =
      set_cache
        (record {
          access_token = t.access_token;
          refresh_token = t.refresh_token;
          client_id = or_else env.config.client_id (or_else t.client_id (cached_client_id m));
          expires_at = env.instant m.world + secs (t.expires_at_unix - env.unix_secs m.world);
        })
        m

  abbrev holds_token : Option TokenCache → Bool
  holds_token none = false
  holds_token (some c) = not (c.access_token == "")

  abbrev has_refresh_token : PersistedToken → Bool
  has_refresh_token t = elim t.refresh_token [ none ↦ false | some r ↦ true ]

  -- What `adopt_persisted` makes of the stored token.
  adopt_found : Option PersistedToken → Manager W → Option String × Manager W
  unfolding install_persisted
  adopt_found none m = (none, m)
  adopt_found (some t) m =
      if is_valid m t
      then (some t.access_token, install_persisted t m)
      else if has_refresh_token t
      then (none, install_persisted t m)
      else (none, m)

  abbrev adopt_locked : String → Manager W → Option String × Manager W
  adopt_locked id m =
      let (stored, m') = load_token id m in
      let adopted = adopt_found stored m' in
      if holds_token m.token_cache then (none, m) else adopted

  unfoldable pub adopt_persisted : String → Manager W → Option String × Manager W
  unfolding load_token adopt_found
  adopt_persisted id m = elim env.store [
    | none ↦ (none, m)
    | some store ↦ adopt_locked id (env.others m)
  ]

  abbrev no_token : Manager W → String → TokenCache
  no_token m client_id = record {
    access_token = "";
    refresh_token = none;
    client_id = some client_id;
    expires_at = env.instant m.world;
  }

  unfoldable pub set_dynamic_client_id : String → Manager W → Manager W
  set_dynamic_client_id client_id m = elim m.token_cache [
    | none ↦ set_cache (no_token m client_id) m
    | some c ↦ set_cache (record c { client_id = some client_id }) m
  ]

  abbrev previous_refresh_token : Manager W → Option String
  previous_refresh_token m = and_then m.token_cache (λ c. c.refresh_token)

  -- The cache entry for the answer of a token endpoint.
  unfoldable pub token_of : Value → String → Manager W → TokenCache
  token_of body access_token m = record {
    access_token = access_token;
    refresh_token = or_else (then_str (get_field "refresh_token" body)) (previous_refresh_token m);
    client_id = or_else env.config.client_id (cached_client_id m);
    expires_at = env.instant m.world + secs (expires_in body);
  }

  abbrev keep_token : Value → String → TokenCache → Manager W → Manager W
  keep_token body id c m = save_token id c (expires_in body) (set_cache c m)

  unfoldable pub cache_token_response : Value → String → Auth W String
  unfolding token_of save_token
  cache_token_response body id = do
    access_token ← lift (
        ok_or (auth_error ("response missing 'access_token'" ∷ []))
          (then_str (get_field "access_token" body)))
    λ m. (ok access_token, keep_token body id (token_of body access_token m) m)
