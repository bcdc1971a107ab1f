-- ===== src/OAuth2/Tokens/Daemon.antt =====
-- crates/backends/backend-http/src/oauth2.rs: no interaction in daemon mode.
use headless_mcp_server.Prelude.{
  String, ◌≡◌, refl, true, Option, none, some, Result, ok, err, Bool-cases, Option-cases, inl, inr,
}
use headless_mcp_server.OAuth2.State.{Browser, RefreshFailure, TokenCache, Manager, Env, lasts}
use headless_mcp_server.OAuth2.Grants.{do_refresh}
use headless_mcp_server.OAuth2.Tokens.{
  lasting, retried, acquire, after_failure, after_refresh, refresh, refresh_locked, expired,
  by_cache, get_token,
}

module _ {W : Type 0} (env : Env W) (b b' : Browser W) (id : String) where
  acquire-daemon : (m : Manager W) → acquire env b id true m ≡ acquire env b' id true m
  unfolding acquire
  acquire-daemon m = refl

  after_failure-daemon :
      (failure : RefreshFailure) (stored : Option String) (m : Manager W)
      → after_failure env b failure stored id true m ≡ after_failure env b' failure stored id true m
  unfolding after_failure
  after_failure-daemon failure none m = refl
  after_failure-daemon failure (some token) m = refl

  after_refresh-daemon :
      (token : String) (result : Result String RefreshFailure) (m : Manager W)
      → after_refresh env b token id true result m ≡ after_refresh env b' token id true result m
  unfolding after_refresh
  after_refresh-daemon token (ok new_token) m = refl
  after_refresh-daemon token (err failure) m =
      let (stored, m') = retried env failure.rejected token id m in
      after_failure-daemon failure stored m'

  refresh-daemon :
      (token : Option String) (m : Manager W)
      → refresh env b token id true m ≡ refresh env b' token id true m
  unfolding refresh
  refresh-daemon none m = acquire-daemon m
  refresh-daemon (some token) m =
      after_refresh-daemon token (do_refresh env token id m).0 (do_refresh env token id m).1

  refresh_locked-daemon :
      (m : Manager W) → refresh_locked env b id true m ≡ refresh_locked env b' id true m
  unfolding refresh_locked
  refresh_locked-daemon m = elim (Option-cases (lasting env m)) [
    | inl missing ↦ rw (missing, refresh_locked) (refresh-daemon _ m)
    | inr (token, there) ↦ rw (there, refresh_locked) refl
  ]

  expired-daemon :
      (token : Option String) (m : Manager W)
      → expired env b token id true m ≡ expired env b' token id true m
  unfolding expired
  expired-daemon none m = refl
  expired-daemon (some token) m = refresh_locked-daemon (env.others m)

  by_cache-daemon :
      (cache : Option TokenCache) (m : Manager W)
      → by_cache env b cache id true m ≡ by_cache env b' cache id true m
  unfolding by_cache
  by_cache-daemon none m = acquire-daemon m
  by_cache-daemon (some c) m = elim (Bool-cases (lasts env m c)) [
    | inl good ↦ rw good refl
    | inr stale ↦ rw stale (expired-daemon c.refresh_token m)
  ]

  -- In daemon mode the browser, the callback, the terminal and the PKCE verifier make no difference:
  -- with any other ones, `get_token` gives the same answer and leaves the same state.
  pub get_token-daemon : (m : Manager W) → get_token env b id true m ≡ get_token env b' id true m
  unfolding get_token
  get_token-daemon m = by_cache-daemon m.token_cache m
