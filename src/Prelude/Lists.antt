-- ===== src/Prelude/Lists.antt =====
-- Lists measured by native numbers, and predicates on every member of a list.
use Prim.Native.Nat.{ℕ, suc, ◌+◌}
use mathlib.Core.Path.{◌≡◌, refl, sym, ap, ◌∙◌}
use mathlib.Core.List.Memᴰ.{Memᴰ, head, tail, cases_cons}
use mathlib.Core.Bool.{Bool, true, false, ◌||◌}
use Prim.Native.String.{String}
use text.Mathlib.Text.{◌==◌}
use mathlib.Core.Option.{Option, none, some}
use headless_mcp_server.Prelude.Tests.{if◌then◌else◌, Bool-cases, Option-cases}
use mathlib.Core.Logic.{inl, inr}
use mathlib.Core.List.{List, [], ◌∷◌, ◌++◌}
use native.Mathlib.Omega.{arith}

module _ {ℓ} {A : Type ℓ} where
  abbrev pub length : List A → ℕ
  length [] = 0
  length (x ∷ xs) = suc (length xs)

  pub length-append : (xs ys : List A) → length (xs ++ ys) ≡ length xs + length ys
  length-append [] ys = omega arith
  length-append (x ∷ xs) ys = omega (arith, length-append xs ys)

  abbrev pub any : (A → Bool) → List A → Bool
  any p [] = false
  any p (x ∷ xs) = p x || any p xs

module _ {ℓ κ} {A : Type ℓ} (P : A → Type κ) where
  abbrev pub All : List A → Type κ
  All [] = Unit
  All (x ∷ xs) = P x × All xs

module _ {ℓ} {A : Type ℓ} where
  abbrev pub is_empty : List A → Bool
  is_empty [] = true
  is_empty (x ∷ xs) = false

  -- `xs.retain(p)`
  abbrev pub keep : (A → Bool) → List A → List A
  keep p [] = []
  keep p (x ∷ xs) = let rest = keep p xs in if p x then x ∷ rest else rest

  -- `xs.iter().find(p)`
  abbrev pub find : (A → Bool) → List A → Option A
  find p [] = none
  find p (x ∷ xs) = let rest = find p xs in if p x then some x else rest

  -- `find_map`
  abbrev pub find_map {κ} : {B : Type κ} → (A → Option B) → List A → Option B
  find_map f [] = none
  find_map f (x ∷ xs) = let rest = find_map f xs in elim (f x) [ none ↦ rest | some b ↦ some b ]

-- `xs.contains(x)`
abbrev pub contains : List String → String → Bool
contains xs x = any (λ a. a == x) xs

module _ {ℓ κ} {A : Type ℓ} {P : A → Type κ} where
  pub All-intro : ((x : A) → P x) → (xs : List A) → All P xs
  All-intro f [] = tt
  All-intro f (x ∷ xs) = (f x, All-intro f xs)

  -- What holds of the members that pass a test, holds of all that are kept.
  pub All-keep {μ} :
      {Q : A → Type μ} (p : A → Bool)
      → ((x : A) → P x → p x ≡ true → Q x)
      → (xs : List A) → All P xs
      → All Q (keep p xs)
  All-keep p f [] h = tt
  All-keep p f (x ∷ xs) (h, hs) = elim (Bool-cases (p x)) [
    | inl e ↦ rw e (f x h e, All-keep p f xs hs)
    | inr e ↦ rw e (All-keep p f xs hs)
  ]

  pub All-map {μ} : {Q : A → Type μ} → ((x : A) → P x → Q x) → (xs : List A) → All P xs → All Q xs
  All-map f [] h = tt
  All-map f (x ∷ xs) (h, hs) = (f x h, All-map f xs hs)

module _ {A B : Type 0} (f : A → Option B) where
  find_map_here : (c : B) (x : A) (xs : List A) → f x ≡ some c → find_map f (x ∷ xs) ≡ some c
  find_map_here c x xs here = rw (here, find_map) refl

  find_map_later : (x : A) (xs : List A) → f x ≡ none → find_map f (x ∷ xs) ≡ find_map f xs
  find_map_later x xs missing = rw (missing, find_map) refl

  pub find_map_sound :
      (b : B) (xs : List A) → find_map f xs ≡ some b → (x : A) × Memᴰ x xs × (f x ≡ some b)
  find_map_sound b [] h = ground arith
  find_map_sound b (x ∷ xs) h = elim (Option-cases (f x)) [
    | inr (c, here) ↦ (x, head refl, here ∙ sym (find_map_here c x xs here) ∙ h)
    | inl missing ↦
        let (y, m, found) = find_map_sound b xs (sym (find_map_later x xs missing) ∙ h) in
        (y, tail m, found)
  ]

  pub find_map_total :
      (b : B) (x : A) (xs : List A) → Memᴰ x xs → f x ≡ some b → (c : B) × (find_map f xs ≡ some c)
  find_map_total b x [] m h = elim m [ ]
  find_map_total b x (y ∷ xs) m h = elim (Option-cases (f y)) [
    | inr (c, here) ↦ (c, find_map_here c y xs here)
    | inl missing ↦ elim (cases_cons m) [
      | inl same ↦ (b, find_map_here b y xs (sym (ap f same) ∙ h))
      | inr later ↦
          let (c, found) = find_map_total b x xs later h in (c, find_map_later y xs missing ∙ found)
    ]
  ]
