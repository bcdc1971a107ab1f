-- ===== src/Prelude/Strings.antt =====
-- Text two ways: `String` where the program compares, joins or cuts whole names, and lists of
-- code points where it walks the characters of a stream.
use Prim.Native.Nat.{ℕ}
use Prim.Native.Char.{Char, code}
use Prim.Native.String
use Prim.Native.String.append
use Prim.Native.String.{String}
use mathlib.Core.Bool.{Bool, true, false, ◌&&◌}
use mathlib.Core.List.{List, [], ◌∷◌}
use headless_mcp_server.Prelude.Tests.{eqb, eqb_iff, Bool-cases, if◌then◌else◌}
use mathlib.Core.Option.{Option, none, some}
use mathlib.Core.Path.{◌≡◌, refl, ap, ◌∙◌}
use mathlib.Core.Logic.{inl, inr}
use native.Mathlib.Omega.{arith}
use text.Mathlib.TextEquality.{Char-path}

abbrev pub Text : Type 0
Text = List ℕ

abbrev pub codes : String → Text
codes String.[] = []
codes (String.◌∷◌ c s) = code c ∷ codes s

unfoldable pub text_eq : Text → Text → Bool
text_eq [] [] = true
text_eq (a ∷ s) (b ∷ t) = eqb a b && text_eq s t
text_eq _ _ = false

-- `format!`, with its pieces in a row.
abbrev pub concat : List String → String
concat [] = ""
concat (s ∷ []) = s
concat (s ∷ t ∷ more) = String.◌++◌ s (concat (t ∷ more))

-- `s.strip_prefix(p)`
unfoldable pub strip_prefix : String → String → Option String
strip_prefix String.[] s = some s
strip_prefix (String.◌∷◌ p ps) String.[] = none
strip_prefix (String.◌∷◌ p ps) (String.◌∷◌ c s) =
    let rest = strip_prefix ps s in if eqb (code p) (code c) then rest else none

code_injective : (c d : Char) → eqb (code c) (code d) ≡ true → c ≡ d
code_injective c d h = Char-path c d ((eqb_iff (code c) (code d)).0 h)

pub strip_prefix_sound : (p s r : String) → strip_prefix p s ≡ some r → String.◌++◌ p r ≡ s
unfolding strip_prefix
strip_prefix_sound String.[] s r h = append.nil r ∙ ground arith
strip_prefix_sound (String.◌∷◌ c p) String.[] r h = ground arith
strip_prefix_sound (String.◌∷◌ c p) (String.◌∷◌ d s) r h =
    elim (Bool-cases (eqb (code c) (code d))) [
      | inl same ↦
          let rest = strip_prefix_sound p s r (ground arith) in
          append.cons c p r ∙ rw (rest, code_injective c d same) refl
      | inr other ↦ ground arith
    ]

pub strip_prefix-append : (p r : String) → strip_prefix p (String.◌++◌ p r) ≡ some r
unfolding strip_prefix
strip_prefix-append String.[] r = ap some (append.nil r)
strip_prefix-append (String.◌∷◌ c p) r =
    rw (append.cons c p r) (rw ((eqb_iff (code c) (code c)).1 refl) (strip_prefix-append p r))
