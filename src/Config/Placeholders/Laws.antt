-- ===== src/Config/Placeholders/Laws.antt =====
-- crates/server/src/config.rs: what a value with a placeholder becomes, and what the HTTP transport
-- (crates/transport-http/src/lib.rs) makes of it.
use Prim.Native.String.append
use text.Mathlib.TextLemmas.{append-nil}
use headless_mcp_server.Prelude.{
  ℕ, suc, String, ◌≡◌, ◌≢◌, refl, ap, sym, ◌∙◌, true, none, some, [], ◌∷◌, err, concat,
  strip_prefix, strip_prefix-append, eq_iff, ◌==◌, Bool-cases, inl, inr,
}
use headless_mcp_server.Server.State.{McpSession}
use headless_mcp_server.Http.{Libraries, run_http, contains_text}
use headless_mcp_server.Config.Placeholders.{
  Environment, env_prefix, secret_prefix, cut, unresolved, env_value, pass, passes, resolve_value,
}

-- A text without a placeholder.
abbrev pub IsPlain : String → Type 0
IsPlain text = (cut env_prefix text ≡ none) × (cut secret_prefix text ≡ none)

-- A name that ends where the braces after it stand.
abbrev pub IsName : String → Type 0
IsName name = cut "}}" (concat (name ∷ "}}" ∷ [])) ≡ some (name, "")

abbrev pub env_placeholder : String → String
env_placeholder name = concat (env_prefix ∷ name ∷ "}}" ∷ [])

cut-here :
    (needle s after : String) → strip_prefix needle s ≡ some after → cut needle s ≡ some ("", after)
unfolding cut
cut-here needle String.[] after h = rw h refl
cut-here needle (String.◌∷◌ c s) after h = rw h refl

contains_text-here :
    (needle s after : String) → strip_prefix needle s ≡ some after → contains_text needle s ≡ true
unfolding contains_text
contains_text-here needle String.[] after h = rw h refl
contains_text-here needle (String.◌∷◌ c s) after h = rw h refl

marked-ne-empty : (s : String) → contains_text "{{unresolved:" s ≡ true → s ≢ ""
unfolding contains_text strip_prefix
marked-ne-empty s marked empty =
    let never : contains_text "{{unresolved:" "" ≡ true =
      ap (λ x. contains_text "{{unresolved:" x) (sym empty) ∙ marked in
    cc

module _ (env : Environment) where
  pass-IsPlain : (text : String) → IsPlain text → pass env text ≡ none
  unfolding pass
  pass-IsPlain text (no_env, no_secret) = rw (no_env, pass) (rw no_secret refl)

  passes-none : (n : ℕ) (text : String) → pass env text ≡ none → passes env (suc n) text ≡ text
  unfolding passes
  passes-none n text h = rw (h, passes) refl

  passes-some :
      (n : ℕ) (text replaced : String)
      → pass env text ≡ some replaced
      → passes env (suc n) text ≡ passes env n replaced
  unfolding passes
  passes-some n text replaced h = rw (h, passes) refl

  -- A text without a placeholder is left as it is.
  pub resolve_value-IsPlain : (text : String) → IsPlain text → resolve_value env text ≡ text
  unfolding resolve_value
  resolve_value-IsPlain text plain = passes-none 15 text (pass-IsPlain text plain)

  pass-env :
      (name : String) → IsName name → pass env (env_placeholder name) ≡ some (env_value env name)
  unfolding pass
  pass-env name is_name =
      let found =
        cut-here env_prefix (env_placeholder name) _
          (strip_prefix-append env_prefix (concat (name ∷ "}}" ∷ []))) in
      rw (found, pass)
        (rw is_name (ap (λ (x : String). some x) (append.nil _ ∙ append-nil (env_value env name))))

  -- A value that is one variable's placeholder becomes what the variable holds, or the mark that it
  -- is unresolved, if that has no placeholder of its own.
  pub resolve_value-env :
      (name : String)
      → IsName name
      → IsPlain (env_value env name)
      → resolve_value env (env_placeholder name) ≡ env_value env name
  unfolding resolve_value
  resolve_value-env name is_name plain =
      passes-some 15 (env_placeholder name) (env_value env name) (pass-env name is_name)
      ∙ passes-none 14 (env_value env name) (pass-IsPlain (env_value env name) plain)

  -- The HTTP transport does not start with the placeholder of a variable that is not set, and the
  -- error shows the token with the mark.
  pub unresolved_token-refused :
      {I L W : Type 0} (lib : Libraries I L) (session : McpSession W) (rate_limit : ℕ)
      (name : String)
      → env.var name ≡ none
      → IsName name
      → IsPlain (unresolved name)
      → run_http lib session (record {
        bearer_token = resolve_value env (env_placeholder name);
        rate_limit_per_minute = rate_limit;
      })
        ≡ err (
            concat (
              "refusing to start: bearer token still contains an unresolved placeholder ("
              ∷ unresolved name
              ∷ "); the referenced variable is not set"
              ∷ []))
  unfolding run_http
  unresolved_token-refused lib session rate_limit name unset is_name plain =
      let value : env_value env name ≡ unresolved name = rw unset refl in
      let token : resolve_value env (env_placeholder name) ≡ unresolved name =
        resolve_value-env name is_name (rw value plain) ∙ value in
      let marked : contains_text "{{unresolved:" (unresolved name) ≡ true =
        contains_text-here "{{unresolved:" (unresolved name) _
          (strip_prefix-append "{{unresolved:" (concat (name ∷ "}}" ∷ []))) in
      rw token (elim (Bool-cases (unresolved name == "")) [
        | inl empty ↦
            absurd
              (marked-ne-empty (unresolved name) marked ((eq_iff (unresolved name) "").0 empty))
        | inr full ↦ rw full (rw marked refl)
      ])
