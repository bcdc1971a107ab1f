-- ===== src/OAuth2/Tokens/Cached.antt =====
-- crates/backends/backend-http/src/oauth2.rs: the token that is handed out is the cached one.
use headless_mcp_server.Prelude.{
  String, ◌≡◌, refl, sym, ◌∙◌, Bool, true, false, Option, none, some, Result, ok, err, Bool-cases,
  Option-cases, inl, inr, if◌then◌else◌, ◌==◌, arith,
}
use headless_mcp_server.Core.{BackendError}
use headless_mcp_server.OAuth2.State.{
  TokenCache, PersistedToken, RefreshFailure, Browser, Manager, Env, lasts,
}
use headless_mcp_server.OAuth2.Cache.{and_then, is_valid, install_persisted}
use headless_mcp_server.OAuth2.Grants.{do_refresh, resolve_token_endpoint, resolve_grant_type}
use headless_mcp_server.OAuth2.Consent.Cached.{do_authorization_code-Gives}
use headless_mcp_server.OAuth2.Grants.Cached.{
  IsCached, Gives, bind-Gives, do_client_credentials-Gives, do_refresh-Gives,
}
use headless_mcp_server.OAuth2.Tokens.{
  lasting, retried, as_option, refresh_stored, use_stored, adopt_stored, same_token,
  retry_with_stored, acquire_locked, acquire, after_failure, after_refresh, refresh, refresh_locked,
  expired, by_cache, by_grant, jwt_bearer, get_token,
}

-- The same of a step that may give no token.
abbrev GivesSome : {W : Type 0} → Option String → Manager W → Type 0
GivesSome o m = (token : String) → o ≡ some token → IsCached token m

none-GivesSome : {W : Type 0} (m : Manager W) → GivesSome none m
none-GivesSome m token h = cc

module _ {W : Type 0} (env : Env W) where
  as_option-GivesSome :
      (r : Result String RefreshFailure) (m : Manager W) → Gives r m → GivesSome (as_option r) m
  as_option-GivesSome (ok t) m gives token h = gives token (cc)
  as_option-GivesSome (err f) m gives token h = cc

  refresh_stored-GivesSome :
      (r : Option String) (id : String) (m : Manager W)
      → GivesSome (refresh_stored env r id m).0 (refresh_stored env r id m).1
  unfolding refresh_stored
  refresh_stored-GivesSome none id m = none-GivesSome m
  refresh_stored-GivesSome (some r) id m =
      as_option-GivesSome (do_refresh env r id m).0 (do_refresh env r id m).1
        (do_refresh-Gives env r id m)

  use_stored-GivesSome :
      (t : PersistedToken) (id : String) (m : Manager W)
      → IsCached t.access_token m
      → GivesSome (use_stored env t id m).0 (use_stored env t id m).1
  use_stored-GivesSome t id m cached = elim (Bool-cases (is_valid env m t)) [
    | inl valid ↦ rw valid (λ token h. let (c, same, access) = cached in (c, same, access ∙ cc))
    | inr invalid ↦ rw invalid (refresh_stored-GivesSome t.refresh_token id m)
  ]

  adopt_stored-GivesSome :
      (rejected id : String) (stored : Option PersistedToken) (m : Manager W)
      → GivesSome
          (adopt_stored env rejected id stored m).0
          (adopt_stored env rejected id stored m).1
  unfolding adopt_stored
  adopt_stored-GivesSome rejected id none m = none-GivesSome m
  adopt_stored-GivesSome rejected id (some t) m =
      elim (Bool-cases (same_token t.refresh_token rejected)) [
        | inl same ↦ rw same (none-GivesSome m)
        | inr other ↦
            rw other (use_stored-GivesSome t id (install_persisted env t m) (_, refl, refl))
      ]

  retried-GivesSome :
      (rejected : Bool) (token id : String) (m : Manager W)
      → GivesSome (retried env rejected token id m).0 (retried env rejected token id m).1
  unfolding retry_with_stored
  retried-GivesSome true token id m = adopt_stored-GivesSome token id _ _
  retried-GivesSome false token id m = none-GivesSome m

  of_cache :
      (m : Manager W) (cache : Option TokenCache)
      → m.token_cache ≡ cache
      → GivesSome (and_then cache (λ c. if lasts env m c then some c.access_token else none)) m
  of_cache m none same token h = cc
  of_cache m (some c) same token h = elim (Bool-cases (lasts env m c)) [
    | inl good ↦ (c, same, ground arith)
    | inr stale ↦ ground arith
  ]

  lasting-IsCached : (m : Manager W) → GivesSome (lasting env m) m
  lasting-IsCached m = of_cache m m.token_cache refl

module _ {W : Type 0} (env : Env W) (browser : Browser W) (id : String) (daemon_mode : Bool) where
  raise-Gives : (e : BackendError) (m : Manager W) → Gives {W = W} (err e) m
  raise-Gives e m token h = cc

  by_grant-Gives :
      (grant endpoint : String) (m : Manager W)
      → Gives
          (by_grant env browser grant endpoint id daemon_mode m).0
          (by_grant env browser grant endpoint id daemon_mode m).1
  unfolding by_grant
  by_grant-Gives grant endpoint m = elim (Bool-cases (grant == "client_credentials")) [
    | inl machine ↦ rw machine (do_client_credentials-Gives env endpoint id m)
    | inr other ↦ rw other (elim (Bool-cases (grant == "authorization_code")) [
      | inl person ↦ rw person (elim (Bool-cases daemon_mode) [
        | inl blocked ↦ rw blocked (raise-Gives _ m)
        | inr asks ↦ rw asks (do_authorization_code-Gives env browser endpoint id m)
      ])
      | inr another ↦ rw another (elim (Bool-cases (grant == jwt_bearer)) [
        | inl jwt ↦ rw jwt (raise-Gives _ m)
        | inr unknown ↦ rw unknown (raise-Gives _ m)
      ])
    ])
  ]

  acquire_locked-Gives :
      (m : Manager W)
      → Gives
          (acquire_locked env browser id daemon_mode m).0
          (acquire_locked env browser id daemon_mode m).1
  unfolding acquire_locked
  acquire_locked-Gives m =
      bind-Gives (resolve_token_endpoint env) _ m
        λ endpoint _. by_grant-Gives (resolve_grant_type env) endpoint _

  -- A lasting token, or what the alternative gives.
  acquire-Gives :
      (m : Manager W)
      → Gives (acquire env browser id daemon_mode m).0 (acquire env browser id daemon_mode m).1
  unfolding acquire
  acquire-Gives m = elim (Option-cases (lasting env (env.others m))) [
    | inl missing ↦ rw (missing, acquire) (acquire_locked-Gives (env.others m))
    | inr (t, there) ↦
        rw (there, acquire) (λ token h. lasting-IsCached env (env.others m) token (there ∙ cc))
  ]

  after_failure-Gives :
      (failure : RefreshFailure) (stored : Option String) (m : Manager W)
      → GivesSome stored m
      → Gives
          (after_failure env browser failure stored id daemon_mode m).0
          (after_failure env browser failure stored id daemon_mode m).1
  unfolding after_failure
  after_failure-Gives failure (some token) m gives = λ t h. gives t (cc)
  after_failure-Gives failure none m gives = elim (Bool-cases daemon_mode) [
    | inl blocked ↦ rw blocked (raise-Gives _ m)
    | inr asks ↦ rw asks (rw (sym asks) (acquire-Gives m))
  ]

  after_refresh-Gives :
      (token : String) (r : Result String RefreshFailure) (m : Manager W)
      → Gives r m
      → Gives
          (after_refresh env browser token id daemon_mode r m).0
          (after_refresh env browser token id daemon_mode r m).1
  unfolding after_refresh
  after_refresh-Gives token (ok new_token) m gives = λ t h. gives t (cc)
  after_refresh-Gives token (err failure) m gives =
      after_failure-Gives failure _ _ (retried-GivesSome env failure.rejected token id m)

  refresh-Gives :
      (token : Option String) (m : Manager W)
      → Gives
          (refresh env browser token id daemon_mode m).0
          (refresh env browser token id daemon_mode m).1
  unfolding refresh
  refresh-Gives none m = acquire-Gives m
  refresh-Gives (some token) m = after_refresh-Gives token _ _ (do_refresh-Gives env token id m)

  refresh_locked-Gives :
      (m : Manager W)
      → Gives
          (refresh_locked env browser id daemon_mode m).0
          (refresh_locked env browser id daemon_mode m).1
  unfolding refresh_locked
  refresh_locked-Gives m = elim (Option-cases (lasting env m)) [
    | inl missing ↦ rw (missing, refresh_locked) (refresh-Gives _ m)
    | inr (t, there) ↦
        rw (there, refresh_locked) (λ token h. lasting-IsCached env m token (there ∙ cc))
  ]

  expired-Gives :
      (token : Option String) (m : Manager W)
      → Gives
          (expired env browser token id daemon_mode m).0
          (expired env browser token id daemon_mode m).1
  unfolding expired
  expired-Gives (some token) m = refresh_locked-Gives (env.others m)
  expired-Gives none m = elim (Bool-cases daemon_mode) [
    | inl blocked ↦ rw blocked (raise-Gives _ m)
    | inr asks ↦ rw asks (rw (sym asks) (acquire-Gives m))
  ]

  by_cache-Gives :
      (cache : Option TokenCache) (m : Manager W)
      → m.token_cache ≡ cache
      → Gives
          (by_cache env browser cache id daemon_mode m).0
          (by_cache env browser cache id daemon_mode m).1
  unfolding by_cache
  by_cache-Gives none m same = acquire-Gives m
  by_cache-Gives (some c) m same = elim (Bool-cases (lasts env m c)) [
    | inl good ↦ rw good (λ token h. (c, same, cc))
    | inr stale ↦ rw stale (expired-Gives c.refresh_token m)
  ]

  -- Whichever way a token is come by, from the cache, from another task, by a refresh, from the
  -- store or by a grant: the token that `get_token` gives is the access token in the cache that it
  -- leaves.
  pub get_token-Gives :
      (m : Manager W)
      → Gives (get_token env browser id daemon_mode m).0 (get_token env browser id daemon_mode m).1
  unfolding get_token
  get_token-Gives m = by_cache-Gives m.token_cache m refl
