-- ===== src/Config/Placeholders.antt =====
-- crates/server/src/config.rs: `resolve_value`.
pub mod Laws
use Prim.Native.Char.{Char}
use Prim.Native.String as String
use headless_mcp_server.Prelude.{
  ℕ, zero, suc, String, Bool, Option, none, some, List, [], ◌∷◌, strip_prefix, concat,
  if◌then◌else◌,
}
use headless_mcp_server.OAuth2.Cache.{unwrap_or}

-- The process environment, and the upper case of a text.
pub record Environment : Type 0 where
  pub var : String → Option String
  pub to_uppercase : String → String

abbrev pub env_prefix : String
env_prefix = "{{env:"

abbrev pub secret_prefix : String
secret_prefix = "{{secret:"

abbrev pub max_resolve_passes : ℕ
max_resolve_passes = 16

abbrev pub cons_before : Char → Option (String × String) → Option (String × String)
cons_before c none = none
cons_before c (some (before, after)) = some (String.◌∷◌ c before, after)

abbrev here_or : Option String → Option (String × String) → Option (String × String)
here_or none later = later
here_or (some after) later = some ("", after)

-- `find` of a text that is not empty: what stands before its first occurrence, and after it.
unfoldable pub cut : String → String → Option (String × String)
unfolding strip_prefix
cut needle String.[] = here_or (strip_prefix needle "") none
cut needle (String.◌∷◌ c s) =
    here_or (strip_prefix needle (String.◌∷◌ c s)) (cons_before c (cut needle s))

abbrev pub unresolved : String → String
unresolved name = concat ("{{unresolved:" ∷ name ∷ "}}" ∷ [])

-- One substitution, where the name ends at the next braces; `none` ends the loop.
abbrev pub substitute : (String → String) → String → Option (String × String) → Option String
substitute value before none = none
substitute value before (some (name, rest)) = some (concat (before ∷ value name ∷ rest ∷ []))

module _ (env : Environment) where
  abbrev pub env_value : String → String
  env_value name = unwrap_or (unresolved name) (env.var name)

  abbrev pub secret_value : String → String
  secret_value name =
      unwrap_or (unresolved name)
        (env.var (concat ("HEADLESS_MCP_SECRET_" ∷ env.to_uppercase name ∷ [])))

  secret_pass : Option (String × String) → Option String
  unfolding cut
  secret_pass none = none
  secret_pass (some (before, after)) = substitute secret_value before (cut "}}" after)

  env_pass : Option (String × String) → String → Option String
  unfolding secret_pass cut
  env_pass none text = secret_pass (cut secret_prefix text)
  env_pass (some (before, after)) text = substitute env_value before (cut "}}" after)

  -- One round of the loop: the text with one placeholder replaced, or `none` if it ends.
  unfoldable pub pass : String → Option String
  unfolding env_pass
  pass text = env_pass (cut env_prefix text) text

  unfoldable pub passes : ℕ → String → String
  unfolding pass
  passes zero text = text
  passes (suc n) text = elim (pass text) [ none ↦ text | some replaced ↦ passes n replaced ]

  unfoldable pub resolve_value : String → String
  unfolding passes
  resolve_value = passes max_resolve_passes
