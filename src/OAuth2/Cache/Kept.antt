-- ===== src/OAuth2/Cache/Kept.antt =====
-- crates/backends/backend-http/src/oauth2.rs and token_store.rs: what storing a token leaves alone.
use headless_mcp_server.Prelude.{ℕ, String, ◌≡◌, refl, Option, none, some}
use headless_mcp_server.Secrets.{SecretStore}
use headless_mcp_server.OAuth2.State.{TokenCache, Manager, Env}
use headless_mcp_server.OAuth2.Cache.{store_json, save_in, save_token, load_from, load_token}

module _ {W : Type 0} (env : Env W) where
  store_json-cache :
      (store : SecretStore W) (key : String) (json : Option String) (m : Manager W)
      → (store_json env store key json m).token_cache ≡ m.token_cache
  store_json-cache store key none m = refl
  store_json-cache store key (some json) m = refl

  save_in-cache :
      (store : Option (SecretStore W)) (id : String) (c : TokenCache) (expires_in : ℕ)
      (m : Manager W)
      → (save_in env store id c expires_in m).token_cache ≡ m.token_cache
  unfolding save_in
  save_in-cache none id c expires_in m = refl
  save_in-cache (some store) id c expires_in m = store_json-cache store _ _ m

  pub save_token-cache :
      (id : String) (c : TokenCache) (expires_in : ℕ) (m : Manager W)
      → (save_token env id c expires_in m).token_cache ≡ m.token_cache
  unfolding save_token
  save_token-cache id c expires_in m = save_in-cache env.store id c expires_in m

  load_from-cache :
      (store : Option (SecretStore W)) (id : String) (m : Manager W)
      → (load_from env store id m).1.token_cache ≡ m.token_cache
  unfolding load_from
  load_from-cache none id m = refl
  load_from-cache (some store) id m = refl

  pub load_token-cache :
      (id : String) (m : Manager W) → (load_token env id m).1.token_cache ≡ m.token_cache
  unfolding load_token
  load_token-cache id m = load_from-cache env.store id m
