-- ===== src/OAuth2/Tokens/Waiting.antt =====
-- crates/backends/backend-http/src/oauth2.rs: the token that another task acquired meanwhile.
use headless_mcp_server.Prelude.{
  String, ◌≡◌, ◌≢◌, ◌⊎◌, inl, inr, refl, sym, Bool, false, Option, none, some, ok,
}
use headless_mcp_server.OAuth2.State.{Browser, TokenCache, Manager, Env, lasts}
use headless_mcp_server.OAuth2.Tokens.{
  lasting, acquire, refresh_locked, expired, by_cache, get_token,
}

module _ {W : Type 0} (env : Env W) (browser : Browser W) (id : String) (daemon_mode : Bool) where
  acquire-others :
      (m : Manager W) (token : String)
      → lasting env (env.others m) ≡ some token
      → acquire env browser id daemon_mode m ≡ (ok token, env.others m)
  unfolding acquire
  acquire-others m token h = rw (h, acquire) refl

  expired-others :
      (refresh_token : Option String) (m : Manager W) (token : String)
      → (refresh_token ≢ none) ⊎ (daemon_mode ≡ false)
      → lasting env (env.others m) ≡ some token
      → expired env browser refresh_token id daemon_mode m ≡ (ok token, env.others m)
  unfolding expired
  expired-others (some r) m token may h = rw (h, refresh_locked) refl
  expired-others none m token may h = elim may [
    | inl some_token ↦ absurd (some_token refl)
    | inr asks ↦ rw asks (rw (sym asks) (acquire-others m token h))
  ]

  -- Whether this task waits for the lock: it has no token, or one to refresh, or may ask a person.
  abbrev Waits : Option TokenCache → Manager W → Type 0
  Waits none m = Unit
  Waits (some c) m = (lasts env m c ≡ false) × ((c.refresh_token ≢ none) ⊎ (daemon_mode ≡ false))

  by_cache-others :
      (cache : Option TokenCache) (m : Manager W) (token : String)
      → Waits cache m
      → lasting env (env.others m) ≡ some token
      → by_cache env browser cache id daemon_mode m ≡ (ok token, env.others m)
  unfolding by_cache
  by_cache-others none m token waits h = acquire-others m token h
  by_cache-others (some c) m token (stale, may) h =
      rw stale (expired-others c.refresh_token m token may h)

  -- If the tasks that held the refresh lock meanwhile left a token that lasts, then a task that
  -- waited for the lock gives that token and changes nothing more: it sends no request of its own.
  pub get_token-others :
      (m : Manager W) (token : String)
      → Waits m.token_cache m
      → lasting env (env.others m) ≡ some token
      → get_token env browser id daemon_mode m ≡ (ok token, env.others m)
  unfolding get_token
  get_token-others m token = by_cache-others m.token_cache m token
